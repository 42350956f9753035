-- ===== src/Common/Error.antt =====
-- modules/common: Error.hpp, Error.cpp and Result.hpp. A `Result<void>` is a `Result (Unit {0})`.
use edge_tts_cpp.Base.{
  Bool, [], ◌++◌, Bytes, lit, is_empty, not, if◌then◌else◌, ◌≡◌, refl, ◌⊎◌, inl, inr,
}

pub data ErrorCode : Type 0 where
  no_error invalid_argument invalid_state io_error network_error protocol_error : ErrorCode
  parse_error timeout unsupported external_process_failed service_error : ErrorCode
  drm_error cancelled : ErrorCode

pub to_string : ErrorCode → Bytes
to_string no_error = lit "none"
to_string invalid_argument = lit "invalid_argument"
to_string invalid_state = lit "invalid_state"
to_string io_error = lit "io_error"
to_string network_error = lit "network_error"
to_string protocol_error = lit "protocol_error"
to_string parse_error = lit "parse_error"
to_string timeout = lit "timeout"
to_string unsupported = lit "unsupported"
to_string external_process_failed = lit "external_process_failed"
to_string service_error = lit "service_error"
to_string drm_error = lit "drm_error"
to_string cancelled = lit "cancelled"

pub record Error : Type 0 where
  pub code : ErrorCode
  pub message : Bytes
  pub context : Bytes

-- The two constructors of the class.
abbrev pub error : ErrorCode → Bytes → Error
error c m = record { code = c; message = m; context = [] }

abbrev pub error_in : ErrorCode → Bytes → Bytes → Error
error_in c m x = record { code = c; message = m; context = x }

unfoldable pub has_context : Error → Bool
unfolding is_empty
has_context e = not (is_empty e.context)

unfoldable pub what : Error → Bytes
unfolding has_context to_string
what e =
    lit "["
    ++ to_string e.code
    ++ lit "] "
    ++ e.message
    ++ (if has_context e then lit " (context: " ++ e.context ++ lit ")" else [])

pub data Result {ℓ} (Value : Type ℓ) : Type ℓ where
  fail : Error → Result Value
  ok : Value → Result Value

-- The early return: what follows runs on the value, and an error is passed on.
infixl 5 ◌>>=◌ ◌>>◌
abbrev pub ◌>>=◌ {ℓ ℓ'} :
    {First : Type ℓ} {Next : Type ℓ'} → Result First → (First → Result Next) → Result Next
fail e >>= next = fail e
ok value >>= next = next value

abbrev pub ◌>>◌ {ℓ} : {Next : Type ℓ} → Result (Unit {0}) → Result Next → Result Next
fail e >> next = fail e
ok done >> next = next

-- `if (!test) return fail(e)`.
abbrev pub guard : Bool → Error → Result (Unit {0})
guard test e = if test then ok tt else fail e

pub Result-cases {ℓ} :
    {A : Type ℓ} (r : Result A) → ((a : A) × (r ≡ ok a)) ⊎ ((e : Error) × (r ≡ fail e))
Result-cases (ok a) = inl (a, refl)
Result-cases (fail e) = inr (e, refl)

-- A chain that succeeds has succeeded at its first step.
pub >>=-ok {ℓ ℓ' κ} :
    {First : Type ℓ} {Next : Type ℓ'} {Goal : Type κ} (step : Result First)
    (next : First → Result Next) {result : Next}
    → (step >>= next) ≡ ok result
    → ((value : First) → step ≡ ok value → next value ≡ ok result → Goal)
    → Goal
>>=-ok (ok value) next e goal = goal value refl e
>>=-ok (fail x) next e goal = cc

pub >>-ok {ℓ κ} :
    {Next : Type ℓ} {Goal : Type κ} (step : Result (Unit {0})) (next : Result Next) {result : Next}
    → (step >> next) ≡ ok result
    → (step ≡ ok tt → next ≡ ok result → Goal)
    → Goal
>>-ok (ok done) next e goal = goal refl e
>>-ok (fail x) next e goal = cc
