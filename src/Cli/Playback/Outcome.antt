-- ===== src/Cli/Playback/Outcome.antt =====
-- PlaybackArgumentParser.cpp: what a parse can return.
use edge_tts_cpp.Base.{
  sum-cases, Bool, true, false, ◌&&◌, Option, none, some, List, [], ◌∷◌, ◌++◌, Bytes, lit, codes,
  bytes_eq, starts_with, ◌==◌, if◌then◌else◌, inl, inr, ◌≡◌, refl, ap, ◌∙◌, arith, Bool-cases,
  Option-cases,
}
use edge_tts_cpp.Cli.Tokens.{
  Parsed, split_at_equals, option_value, attached, require, parse_loop, parse_loop-keeps,
}
use edge_tts_cpp.Cli.EdgeTts.Outcome.{is_given, has_scheme, same, one_of}
use edge_tts_cpp.Cli.Playback.{
  play, help, parse_failed, PlaybackParseResult, failed, ParseState, start_state, set_text,
  set_file, set_args, check_proxy, OptionName, text_option, file_option, voice_option, rate_option,
  volume_option, pitch_option, unsupported_option, list_option, proxy_option, long_option,
  short_option, apply_option, parse_option, parse_dashed, parse_token, fast_path, finish, do_parse,
}

-- The flags say which arguments are there.
is_consistent : ParseState → Bool
unfolding same has_scheme is_given
is_consistent s =
    same s.seen_text (is_given s.args.text)
    && (same s.seen_file (is_given s.args.file) && has_scheme s.args.proxy)

-- A parse that ends in a consistent state, if it ends in one.
abbrev Keeps : Parsed ParseState → Type 0
Keeps r = (s' : ParseState) (used : Bool) → r ≡ inr (s', used) → is_consistent s' ≡ true

Keeps-if : (c : Bool) (r r' : Parsed ParseState) → Keeps r → Keeps r' → Keeps (if c then r else r')
Keeps-if true r r' h h' = h
Keeps-if false r r' h h' = h'

Keeps-message : (m : Bytes) → Keeps (inl m)
Keeps-message m s' used e = grind arith

Keeps-require :
    (name : Bytes) (value : Option (Bytes × Bool)) (set : Bytes → ParseState)
    → ((v : Bytes) → is_consistent (set v) ≡ true)
    → Keeps (require name value set)
unfolding require
Keeps-require name none set h s' used e = grind arith
Keeps-require name (some (v, u)) set h s' used e = grind (arith, h v)

module _ (s : ParseState) (h : is_consistent s ≡ true) where
  consistent-text : (v : Bytes) → is_consistent (set_text s v) ≡ true
  unfolding is_consistent same is_given
  consistent-text v = ground arith

  consistent-file : (v : Bytes) → is_consistent (set_file s v) ≡ true
  unfolding is_consistent same is_given
  consistent-file v = ground arith

  Keeps-proxy :
      (name : Bytes) (value : Option (Bytes × Bool))
      → Keeps
          (check_proxy (require name value (set_args s (λ v. record s.args { proxy = some v }))))
  unfolding is_consistent same is_given has_scheme check_proxy require
  Keeps-proxy name none s' used e = grind arith
  Keeps-proxy name (some (v, u)) s' used e = grind arith

  Keeps-parse_option :
      (option : Option OptionName) (name tok : Bytes) (value : Option (Bytes × Bool))
      → Keeps (parse_option option name tok value s)
  unfolding parse_option apply_option is_consistent
  Keeps-parse_option none name tok value = Keeps-message (lit "unrecognized option: " ++ tok)
  Keeps-parse_option (some text_option) name tok value =
      Keeps-require name value (set_text s) consistent-text
  Keeps-parse_option (some file_option) name tok value =
      Keeps-require name value (set_file s) consistent-file
  Keeps-parse_option (some proxy_option) name tok value = Keeps-proxy name value
  Keeps-parse_option (some voice_option) name tok value =
      Keeps-require name value (set_args s λ v. record s.args { voice = v }) λ v. h
  Keeps-parse_option (some rate_option) name tok value =
      Keeps-require name value (set_args s λ v. record s.args { rate = v }) λ v. h
  Keeps-parse_option (some volume_option) name tok value =
      Keeps-require name value (set_args s λ v. record s.args { volume = v }) λ v. h
  Keeps-parse_option (some pitch_option) name tok value =
      Keeps-require name value (set_args s λ v. record s.args { pitch = v }) λ v. h
  Keeps-parse_option (some unsupported_option) name tok value =
      Keeps-message (name ++ lit " is not supported by edge-playback")
  Keeps-parse_option (some list_option) name tok value =
      Keeps-message (lit "-l / --list-voices is not supported by edge-playback")

  Keeps-parse_dashed : (tok : Bytes) (rest : List Bytes) → Keeps (parse_dashed tok rest s)
  unfolding parse_dashed
  Keeps-parse_dashed [] rest = λ s' used e. grind arith
  Keeps-parse_dashed (c ∷ []) rest = λ s' used e. grind arith
  Keeps-parse_dashed (c ∷ flag ∷ v) rest = λ s' used e. elim (Bool-cases (c == b'-')) [
    | inl t ↦
        Keeps-parse_option (short_option flag) (c ∷ flag ∷ []) (c ∷ flag ∷ v)
          (option_value (attached v) rest) s' used (rw t at e)
    | inr t ↦ grind arith
  ]

  Keeps-parse_token : (tok : Bytes) (rest : List Bytes) → Keeps (parse_token tok rest s)
  unfolding parse_token is_consistent same is_given
  Keeps-parse_token tok rest s' used e =
      let (key, value) = split_at_equals tok in
      elim (Bool-cases (bytes_eq tok (codes "--mpv"))) [
        | inl t ↦ grind arith
        | inr t ↦ elim (Bool-cases (starts_with (codes "--") tok)) [
          | inl l ↦
              Keeps-parse_option (long_option key) key key (option_value value rest) s' used
                (rw l at rw t at e)
          | inr l ↦ Keeps-parse_dashed tok rest s' used (rw l at rw t at e)
        ]
      ]

-- What a result is, for its action.
unfoldable pub is_playback_outcome : PlaybackParseResult → Bool
unfolding is_given has_scheme one_of
is_playback_outcome r =
    let a = r.arguments in
    elim r.action [
      | play ↦
          r.exit_code == 0 && (one_of (is_given a.text) (is_given a.file) && has_scheme a.proxy)
      | help ↦ r.exit_code == 0
      | parse_failed ↦ r.exit_code == 2
    ]

is_playback_outcome-finish :
    (s : ParseState) → is_consistent s ≡ true → is_playback_outcome (finish s) ≡ true
unfolding is_playback_outcome finish is_consistent same one_of is_given has_scheme
is_playback_outcome-finish s h = ground arith

is_playback_outcome-fast_path :
    (toks : List Bytes) (r : PlaybackParseResult)
    → fast_path toks ≡ some r
    → is_playback_outcome r ≡ true
unfolding fast_path is_playback_outcome
is_playback_outcome-fast_path [] r e = grind arith
is_playback_outcome-fast_path (tok ∷ toks) r e = grind (arith, is_playback_outcome-fast_path toks r)

consistent-start : is_consistent start_state ≡ true
unfolding is_consistent same is_given has_scheme
consistent-start = refl

-- For every command line, a parse that asks for playback has exactly one of a text and a file, and a
-- proxy that is given has a scheme; it returns the exit code 0, as help does; a parse that fails
-- returns 2.
pub is_playback_outcome-do_parse :
    (tokens : List Bytes) → is_playback_outcome (do_parse tokens) ≡ true
unfolding do_parse is_playback_outcome
is_playback_outcome-do_parse tokens = elim (Option-cases (fast_path tokens)) [
  | inr (r, e) ↦
      let q : do_parse tokens ≡ r = rw (e, do_parse) refl in
      ap is_playback_outcome q ∙ is_playback_outcome-fast_path tokens r e
  | inl e ↦ elim (sum-cases (parse_loop parse_token false tokens start_state)) [
    | inl (m, l) ↦
        let q : do_parse tokens ≡ failed m = rw (e, do_parse) (rw (l, do_parse) refl) in
        ap is_playback_outcome q
    | inr (s, l) ↦
        let q : do_parse tokens ≡ finish s = rw (e, do_parse) (rw (l, do_parse) refl) in
        let c =
          parse_loop-keeps is_consistent parse_token
            (λ tok rest s1 s2 used h e1. Keeps-parse_token s1 h tok rest s2 used e1) false tokens
            start_state s consistent-start l in
        ap is_playback_outcome q ∙ is_playback_outcome-finish s c
  ]
]
