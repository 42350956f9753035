-- ===== src/Common/Cancellation.antt =====
-- modules/common: CancellationToken.hpp. A store holds the flags that tokens share.
use edge_tts_cpp.Base.{
  ℕ, zero, suc, ◌+◌, ◌<◌, Bool, true, false, ◌||◌, ◌==◌, List, [], ◌∷◌, ◌++◌, length, length-append,
  ◌≡◌, refl, arith,
}

-- A token is where its flag stands; a copy of it is the same token.
record CancellationToken : Type 0 where
  flag : ℕ

abbrev Flags : Type 0
Flags = List Bool

-- The constructor: a new flag.
unfoldable make_token : Flags → CancellationToken × Flags
make_token flags = (record { flag = length flags }, flags ++ (false ∷ []))

unfoldable set_flag : ℕ → Flags → Flags
set_flag i [] = []
set_flag zero (b ∷ flags) = true ∷ flags
set_flag (suc i) (b ∷ flags) = b ∷ set_flag i flags

unfoldable cancel : CancellationToken → Flags → Flags
unfolding set_flag
cancel t flags = set_flag t.flag flags

unfoldable read_flag : ℕ → Flags → Bool
read_flag i [] = false
read_flag zero (b ∷ flags) = b
read_flag (suc i) (b ∷ flags) = read_flag i flags

unfoldable is_cancelled : CancellationToken → Flags → Bool
unfolding read_flag
is_cancelled t flags = read_flag t.flag flags

-- The calls on tokens, by any threads, in the order in which their atomic accesses take place.
data TokenStep : Type 0 where
  makes : TokenStep
  cancels : CancellationToken → TokenStep

unfoldable run_tokens : List TokenStep → Flags → Flags
unfolding make_token cancel
run_tokens [] flags = flags
run_tokens (makes ∷ steps) flags = run_tokens steps (make_token flags).1
run_tokens (cancels t ∷ steps) flags = run_tokens steps (cancel t flags)

-- Whether some step cancels a copy of that token.
abbrev was_cancelled : CancellationToken → List TokenStep → Bool
was_cancelled t [] = false
was_cancelled t (makes ∷ steps) = was_cancelled t steps
was_cancelled t (cancels u ∷ steps) = (u.flag == t.flag) || was_cancelled t steps

read_flag-append : (i : ℕ) (flags : Flags) → read_flag i (flags ++ (false ∷ [])) ≡ read_flag i flags
unfolding read_flag
read_flag-append zero [] = refl
read_flag-append (suc i) [] = refl
read_flag-append zero (b ∷ flags) = refl
read_flag-append (suc i) (b ∷ flags) = read_flag-append i flags

read_flag-set_flag :
    (i j : ℕ) (flags : Flags)
    → i < length flags
    → read_flag i (set_flag j flags) ≡ ((j == i) || read_flag i flags)
unfolding read_flag set_flag
read_flag-set_flag i j [] h = grind arith
read_flag-set_flag zero zero (b ∷ flags) h = ground arith
read_flag-set_flag zero (suc j) (b ∷ flags) h = ground arith
read_flag-set_flag (suc i) zero (b ∷ flags) h = ground arith
read_flag-set_flag (suc i) (suc j) (b ∷ flags) h =
    ground (arith, read_flag-set_flag i j flags (omega arith))

length-set_flag : (i : ℕ) (flags : Flags) → length (set_flag i flags) ≡ length flags
unfolding set_flag
length-set_flag i [] = refl
length-set_flag zero (b ∷ flags) = refl
length-set_flag (suc i) (b ∷ flags) = omega (arith, length-set_flag i flags)

-- A token that exists reads as cancelled after any steps if and only if it was before, or one of the
-- steps cancels it or a copy of it: no other token touches its flag, and nothing resets it.
is_cancelled-run_tokens :
    (t : CancellationToken) (steps : List TokenStep) (flags : Flags)
    → t.flag < length flags
    → is_cancelled t (run_tokens steps flags) ≡ (is_cancelled t flags || was_cancelled t steps)
unfolding is_cancelled run_tokens
is_cancelled-run_tokens t [] flags h = ground arith
is_cancelled-run_tokens t (makes ∷ steps) flags h =
    let more : length (make_token flags).1 ≡ length flags + 1 = length-append flags (false ∷ []) in
    ground (
      arith,
      is_cancelled-run_tokens t steps (make_token flags).1 (omega (arith, more)),
      read_flag-append t.flag flags,
    )
is_cancelled-run_tokens t (cancels u ∷ steps) flags h =
    let same = length-set_flag u.flag flags in
    ground (
      arith,
      is_cancelled-run_tokens t steps (cancel u flags) (omega (arith, same)),
      read_flag-set_flag t.flag u.flag flags h,
    )
