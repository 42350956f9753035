-- ===== src/Cli/EdgeTts/Outcome.antt =====
-- EdgeTtsArgumentParser.cpp: what a parse can return.
use edge_tts_cpp.Base.{
  sum-cases, Bool, true, false, ◌||◌, ◌&&◌, not, Option, none, some, List, [], ◌∷◌, ◌++◌, Bytes,
  lit, codes, bytes_eq, starts_with, find, ◌==◌, if◌then◌else◌, inl, inr, ◌⊎◌, ◌≡◌, refl, ap, ◌∙◌,
  arith, Bool-cases, Option-cases,
}
use edge_tts_cpp.Cli.Tokens.{
  Parsed, split_at_equals, option_value, attached, require, parse_loop, parse_loop-keeps,
}
use edge_tts_cpp.Cli.EdgeTts.{
  synthesize, list_voices_action, help, version, parse_failed, ParseResult, failed, ParseState,
  start_state, set_text, set_file, set_args, check_proxy, OptionName, text_option, file_option,
  voice_option, rate_option, volume_option, pitch_option, media_option, subtitles_option,
  proxy_option, long_option, short_option, apply_option, parse_option, parse_dashed, parse_token,
  fast_path, finish, do_parse,
}

unfoldable pub is_given : {A : Type 0} → Option A → Bool
is_given none = false
is_given (some a) = true

unfoldable pub same : Bool → Bool → Bool
same true b = b
same false b = not b

-- A proxy that was not given, or that has a scheme.
unfoldable pub has_scheme : Option Bytes → Bool
unfolding find is_given
has_scheme none = true
has_scheme (some url) = is_given (find (codes "://") url)

-- The flags say which arguments are there.
is_consistent : ParseState → Bool
unfolding same has_scheme is_given
is_consistent s =
    same s.seen_text (is_given s.args.text)
    && (same s.seen_file (is_given s.args.file)
        && (same s.seen_list_voices s.args.list_voices && has_scheme s.args.proxy))

-- A parse that ends in a consistent state, if it ends in one.
abbrev Keeps : Parsed ParseState → Type 0
Keeps r = (s' : ParseState) (used : Bool) → r ≡ inr (s', used) → is_consistent s' ≡ true

Keeps-if : (c : Bool) (r r' : Parsed ParseState) → Keeps r → Keeps r' → Keeps (if c then r else r')
Keeps-if true r r' h h' = h
Keeps-if false r r' h h' = h'

Keeps-message : (m : Bytes) → Keeps (inl m)
Keeps-message m s' used e = grind arith

Keeps-require :
    (name : Bytes) (value : Option (Bytes × Bool)) (set : Bytes → ParseState)
    → ((v : Bytes) → is_consistent (set v) ≡ true)
    → Keeps (require name value set)
unfolding require
Keeps-require name none set h s' used e = grind arith
Keeps-require name (some (v, u)) set h s' used e = grind (arith, h v)

module _ (s : ParseState) (h : is_consistent s ≡ true) where
  consistent-text : (v : Bytes) → is_consistent (set_text s v) ≡ true
  unfolding is_consistent same is_given
  consistent-text v = ground arith

  consistent-file : (v : Bytes) → is_consistent (set_file s v) ≡ true
  unfolding is_consistent same is_given
  consistent-file v = ground arith

  Keeps-proxy :
      (name : Bytes) (value : Option (Bytes × Bool))
      → Keeps
          (check_proxy (require name value (set_args s (λ v. record s.args { proxy = some v }))))
  unfolding is_consistent same is_given has_scheme check_proxy require
  Keeps-proxy name none s' used e = grind arith
  Keeps-proxy name (some (v, u)) s' used e = grind arith

  Keeps-parse_option :
      (option : Option OptionName) (name tok : Bytes) (value : Option (Bytes × Bool))
      → Keeps (parse_option option name tok value s)
  unfolding parse_option apply_option is_consistent
  Keeps-parse_option none name tok value = Keeps-message (lit "unrecognized option: " ++ tok)
  Keeps-parse_option (some text_option) name tok value =
      Keeps-require name value (set_text s) consistent-text
  Keeps-parse_option (some file_option) name tok value =
      Keeps-require name value (set_file s) consistent-file
  Keeps-parse_option (some proxy_option) name tok value = Keeps-proxy name value
  Keeps-parse_option (some voice_option) name tok value =
      Keeps-require name value (set_args s λ v. record s.args { voice = v }) λ v. h
  Keeps-parse_option (some rate_option) name tok value =
      Keeps-require name value (set_args s λ v. record s.args { rate = v }) λ v. h
  Keeps-parse_option (some volume_option) name tok value =
      Keeps-require name value (set_args s λ v. record s.args { volume = v }) λ v. h
  Keeps-parse_option (some pitch_option) name tok value =
      Keeps-require name value (set_args s λ v. record s.args { pitch = v }) λ v. h
  Keeps-parse_option (some media_option) name tok value =
      Keeps-require name value (set_args s λ v. record s.args { write_media = some v }) λ v. h
  Keeps-parse_option (some subtitles_option) name tok value =
      Keeps-require name value (set_args s λ v. record s.args { write_subtitles = some v }) λ v. h

  Keeps-parse_dashed : (tok : Bytes) (rest : List Bytes) → Keeps (parse_dashed tok rest s)
  unfolding parse_dashed
  Keeps-parse_dashed [] rest = λ s' used e. grind arith
  Keeps-parse_dashed (c ∷ []) rest = λ s' used e. grind arith
  Keeps-parse_dashed (c ∷ flag ∷ v) rest = λ s' used e. elim (Bool-cases (c == b'-')) [
    | inl t ↦
        Keeps-parse_option (short_option flag) (c ∷ flag ∷ []) (c ∷ flag ∷ v)
          (option_value (attached v) rest) s' used (rw t at e)
    | inr t ↦ grind arith
  ]

  Keeps-parse_token : (tok : Bytes) (rest : List Bytes) → Keeps (parse_token tok rest s)
  unfolding parse_token is_consistent same is_given
  Keeps-parse_token tok rest s' used e =
      let (key, value) = split_at_equals tok in
      elim (Bool-cases (bytes_eq tok (codes "-l") || bytes_eq tok (codes "--list-voices"))) [
        | inl t ↦ grind arith
        | inr t ↦ elim (Bool-cases (starts_with (codes "--") tok)) [
          | inl l ↦
              Keeps-parse_option (long_option key) key key (option_value value rest) s' used
                (rw l at rw t at e)
          | inr l ↦ Keeps-parse_dashed tok rest s' used (rw l at rw t at e)
        ]
      ]

unfoldable pub one_of : Bool → Bool → Bool
one_of true b = not b
one_of false b = b

-- What a result is, for its action.
unfoldable pub is_outcome : ParseResult → Bool
unfolding is_given has_scheme one_of
is_outcome r =
    let a = r.arguments in
    elim r.action [
      | synthesize ↦
          r.exit_code == 0
          && (one_of (is_given a.text) (is_given a.file)
              && (not a.list_voices && has_scheme a.proxy))
      | list_voices_action ↦
          r.exit_code == 0
          && (a.list_voices
              && (not (is_given a.text) && (not (is_given a.file) && has_scheme a.proxy)))
      | help ↦ r.exit_code == 0 && not (is_given a.proxy)
      | version ↦ r.exit_code == 0 && not (is_given a.proxy)
      | parse_failed ↦ r.exit_code == 2 && not (is_given a.proxy)
    ]

is_outcome-finish : (s : ParseState) → is_consistent s ≡ true → is_outcome (finish s) ≡ true
unfolding is_outcome finish is_consistent same one_of is_given has_scheme
is_outcome-finish s h = ground arith

is_outcome-fast_path :
    (toks : List Bytes) (r : ParseResult) → fast_path toks ≡ some r → is_outcome r ≡ true
unfolding fast_path is_outcome
is_outcome-fast_path [] r e = grind arith
is_outcome-fast_path (tok ∷ toks) r e = grind (arith, is_outcome-fast_path toks r)

consistent-start : is_consistent start_state ≡ true
unfolding is_consistent same is_given has_scheme
consistent-start = refl

-- For every command line, a parse that asks for synthesis has exactly one of a text and a file, one
-- that asks for the voices has neither, a proxy that is given has a scheme in both, and they return
-- the exit code 0, as help and version do; a parse that fails returns 2; these three name no proxy.
pub is_outcome-do_parse : (tokens : List Bytes) → is_outcome (do_parse tokens) ≡ true
unfolding do_parse is_outcome
is_outcome-do_parse tokens = elim (Option-cases (fast_path tokens)) [
  | inr (r, e) ↦
      let q : do_parse tokens ≡ r = rw (e, do_parse) refl in
      ap is_outcome q ∙ is_outcome-fast_path tokens r e
  | inl e ↦ elim (sum-cases (parse_loop parse_token false tokens start_state)) [
    | inl (m, l) ↦
        let q : do_parse tokens ≡ failed m = rw (e, do_parse) (rw (l, do_parse) refl) in
        ap is_outcome q
    | inr (s, l) ↦
        let q : do_parse tokens ≡ finish s = rw (e, do_parse) (rw (l, do_parse) refl) in
        let c =
          parse_loop-keeps is_consistent parse_token
            (λ tok rest s1 s2 used h e1. Keeps-parse_token s1 h tok rest s2 used e1) false tokens
            start_state s consistent-start l in
        ap is_outcome q ∙ is_outcome-finish s c
  ]
]

-- Only a command line that asks for the voices or for a synthesis names a proxy.
pub is_outcome-proxy :
    (r : ParseResult) (proxy : Bytes)
    → is_outcome r ≡ true
    → r.arguments.proxy ≡ some proxy
    → (r.action ≡ list_voices_action) ⊎ (r.action ≡ synthesize)
unfolding is_outcome is_given has_scheme one_of
is_outcome-proxy r proxy h e = ground arith
