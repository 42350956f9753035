-- ===== src/Communication/Effect.antt =====
-- Steps that may fail on a state; `none` means that the fuel of a loop ran out.
use edge_tts_cpp.Base.{Option, none, some}
use edge_tts_cpp.Common.Error.{Result, ok, fail}

abbrev pub Step {ℓ} : Type ℓ → Type 0 → Type ℓ
Step S A = S → Option (Result A × S)

-- The next step runs where this one has ended, unless this one failed or ran out of fuel.
infixl 5 ◌>>=◌ ◌>>◌
abbrev pub ◌>>=◌ {ℓ} : {S : Type ℓ} {A B : Type 0} → Step S A → (A → Step S B) → Step S B
◌>>=◌ m g s = elim (m s) [
  | none ↦ none
  | some (ok a, s') ↦ g a s'
  | some (fail e, s') ↦ some (fail e, s')
]

abbrev pub ◌>>◌ {ℓ} : {S : Type ℓ} {B : Type 0} → Step S (Unit {0}) → Step S B → Step S B
m >> k = m >>= λ _. k

abbrev pub lift {ℓ} : {S : Type ℓ} {A : Type 0} → Result A → Step S A
lift r s = some (r, s)
