-- ===== src/Cli/Tokens.antt =====
-- modules/cli: what EdgeTtsArgumentParser.cpp and PlaybackArgumentParser.cpp do with a token.
use edge_tts_cpp.Base.{
  suc, ◌+◌, Bool, true, false, ◌&&◌, Option, none, some, List, [], ◌∷◌, ◌++◌, Bytes, codes, leb,
  ◌==◌, length, take, drop, find_byte, if◌then◌else◌, ◌⊎◌, inl, inr, ◌≡◌, refl, arith,
}

-- The bytes of an em dash.
unfoldable pub em_dash : Bytes
em_dash = 226 ∷ 128 ∷ 148 ∷ []

unfoldable pub concat : List Bytes → Bytes
concat [] = []
concat (x ∷ xs) = x ++ concat xs

unfoldable pub is_option_token : Bytes → Bool
is_option_token [] = false
is_option_token (c ∷ cs) = leb 2 (suc (length cs)) && c == b'-'

-- The key, and the value after '=' if there is one.
unfoldable pub split_at_equals : Bytes → Bytes × Option Bytes
unfolding find_byte
split_at_equals tok = elim (find_byte b'=' tok) [
  | none ↦ (tok, none)
  | some pos ↦ (take pos tok, some (drop (pos + 1) tok))
]

-- The value of an option, attached or in the next token; the flag says that the next token is used.
unfoldable pub option_value : Option Bytes → List Bytes → Option (Bytes × Bool)
unfolding is_option_token
option_value (some value) rest = some (value, false)
option_value none [] = none
option_value none (next ∷ rest) = if is_option_token next then none else some (next, true)

-- The value attached to a short option: what follows the flag, if anything does.
unfoldable pub attached : Bytes → Option Bytes
attached [] = none
attached (c ∷ cs) = some (c ∷ cs)

-- A message, or the new state and whether the next token is used.
abbrev pub Parsed : Type 0 → Type 0
Parsed S = Bytes ⊎ (S × Bool)

unfoldable pub require : {S : Type 0} → Bytes → Option (Bytes × Bool) → (Bytes → S) → Parsed S
require name none set = inl (name ++ codes " requires an argument")
require name (some (value, used)) set = inr (set value, used)

-- The loop over the tokens; the flag says that the last option has used this token.
unfoldable pub parse_loop :
    {S : Type 0} → (Bytes → List Bytes → S → Parsed S) → Bool → List Bytes → S → Bytes ⊎ S
parse_loop parse_token used [] s = inr s
parse_loop parse_token true (tok ∷ rest) s = parse_loop parse_token false rest s
parse_loop parse_token false (tok ∷ rest) s = elim (parse_token tok rest s) [
  | inl message ↦ inl message
  | inr (s', used) ↦ parse_loop parse_token used rest s'
]

-- A property of the state that every token keeps holds when the loop is done.
pub parse_loop-keeps :
    {S : Type 0} (P : S → Bool) (parse_token : Bytes → List Bytes → S → Parsed S)
    → ((tok : Bytes) (rest : List Bytes) (s s' : S) (used : Bool)
        → P s ≡ true
        → parse_token tok rest s ≡ inr (s', used)
        → P s' ≡ true)
    → (used : Bool) (toks : List Bytes) (s s' : S) → P s ≡ true
    → parse_loop parse_token used toks s ≡ inr s'
    → P s' ≡ true
unfolding parse_loop
parse_loop-keeps P parse_token h used [] s s' p e = grind arith
parse_loop-keeps P parse_token h true (tok ∷ rest) s s' p e =
    parse_loop-keeps P parse_token h false rest s s' p e
parse_loop-keeps {S} P parse_token h false (tok ∷ rest) s s' p e =
    go (parse_token tok rest s) refl e
      (λ used s1 p1 e1. parse_loop-keeps P parse_token h used rest s1 s' p1 e1)
  where
    go :
        (r : Parsed S)
        → parse_token tok rest s ≡ r
        → (elim r [
          | inl message ↦ inl message
          | inr (s1, used) ↦ parse_loop parse_token used rest s1
        ])
          ≡ inr s'
        → ((used : Bool) (s1 : S)
            → P s1 ≡ true
            → parse_loop parse_token used rest s1 ≡ inr s'
            → P s' ≡ true)
        → P s' ≡ true
    go (inl message) q e ih = grind arith
    go (inr (s1, used)) q e ih = ih used s1 (h tok rest s s1 used p q) e
