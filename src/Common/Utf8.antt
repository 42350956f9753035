-- ===== src/Common/Utf8.antt =====
-- modules/common: Utf8.hpp and Utf8.cpp. A mask of high bits is a quotient and a remainder:
-- `(b & 0xC0) == 0x80` is `b / 64 % 4 == 2`. A position and the text are the text from there on.
pub mod Spec
pub mod Sound
pub mod Complete
use edge_tts_cpp.Base.{
  ℕ, zero, suc, ◌+◌, ◌-◌, ◌*◌, ◌/◌, ◌%◌, Bool, true, false, ◌&&◌, ◌||◌, Option, none, some, List,
  [], ◌∷◌, Bytes, ltb, leb, ◌==◌, if◌then◌else◌, length, take, drop, get_elem?, ◌≡◌, refl, lit,
}
use edge_tts_cpp.Common.Error.{Result, ok, fail, error, invalid_argument}

unfoldable pub is_continuation : ℕ → Bool
is_continuation c = c / 64 % 4 == 2

-- `for (j = 0; j < extra; ++j)`: the code point and the text behind it; `none` is `return false`.
unfoldable pub read_continuations : ℕ → ℕ → Bytes → Option (ℕ × Bytes)
unfolding is_continuation
read_continuations zero codepoint s = some (codepoint, s)
read_continuations (suc extra) codepoint [] = none
read_continuations (suc extra) codepoint (b ∷ s) =
    if is_continuation b then read_continuations extra (codepoint * 64 + b % 64) s else none

-- What the lead byte sets: `extra`, `min_cp` and the first bits of `codepoint`.
pub record Lead : Type 0 where
  pub extra : ℕ
  pub min_cp : ℕ
  pub bits : ℕ

unfoldable pub read_lead : ℕ → Option Lead
read_lead b0 =
    if b0 / 32 % 8 == 6
    then (if ltb b0 0xC2 then none else some (record { extra = 1; min_cp = 0x80; bits = b0 % 32 }))
    else if b0 / 16 % 16 == 14
    then some (record { extra = 2; min_cp = 0x800; bits = b0 % 16 })
    else if b0 / 8 % 32 == 30
    then (if ltb 0xF4 b0
        then none
        else some (record { extra = 3; min_cp = 0x10000; bits = b0 % 8 }))
    else none

-- The three tests behind the loop.
unfoldable pub is_acceptable : ℕ → ℕ → Bool
is_acceptable min_cp cp =
    if ltb cp min_cp
    then false
    else if leb 0xD800 cp && leb cp 0xDFFF
    then false
    else if ltb 0x10FFFF cp
    then false
    else true

-- The end of a round: the text behind the sequence, if the code point passes.
unfoldable pub accept : ℕ → Option (ℕ × Bytes) → Option Bytes
unfolding is_acceptable
accept min_cp none = none
accept min_cp (some (cp, rest)) = if is_acceptable min_cp cp then some rest else none

-- One sequence of several bytes: the text behind it, if it is well formed.
unfoldable pub read_sequence : ℕ → Bytes → Option Bytes
unfolding read_lead read_continuations accept
read_sequence b0 s = elim (read_lead b0) [
  | none ↦ none
  | some l ↦ accept l.min_cp (read_continuations l.extra l.bits s)
]

-- The loop over `i`; each round takes a byte or more, so the length is fuel enough.
unfoldable pub valid_loop : ℕ → Bytes → Bool
unfolding read_sequence
valid_loop fuel [] = true
valid_loop zero (b0 ∷ s) = false
valid_loop (suc fuel) (b0 ∷ s) =
    let next = valid_loop fuel s in
    let beyond : Bool = elim (read_sequence b0 s) [
      | none ↦ false
      | some rest ↦ valid_loop fuel rest
    ] in
    if ltb b0 0x80 then next else beyond

unfoldable pub is_valid_utf8 : Bytes → Bool
unfolding valid_loop
is_valid_utf8 text = valid_loop (length text) text

-- `is_continuation(text[pos])`; the callers stay inside the text.
unfoldable pub continuation_at : Bytes → ℕ → Bool
unfolding is_continuation
continuation_at text pos = elim (get_elem? text pos) [ none ↦ false | some c ↦ is_continuation c ]

-- `while (pos > 0 && is_continuation(text[pos])) --pos;`
unfoldable pub walk_back : Bytes → ℕ → ℕ
unfolding continuation_at
walk_back text zero = zero
walk_back text (suc pos) =
    let back = walk_back text pos in if continuation_at text (suc pos) then back else suc pos

unfoldable pub safe_boundary : Bytes → ℕ → ℕ
unfolding walk_back
safe_boundary text pos = if leb (length text) pos then length text else walk_back text pos

unfoldable pub previous_code_point_boundary : Bytes → ℕ → ℕ
unfolding safe_boundary
previous_code_point_boundary text index = safe_boundary text index

-- How many continuation bytes a text starts with.
unfoldable pub count_continuations : Bytes → ℕ
unfolding is_continuation
count_continuations [] = 0
count_continuations (c ∷ s) = if is_continuation c then suc (count_continuations s) else 0

unfoldable pub next_code_point_boundary : Bytes → ℕ → ℕ
unfolding count_continuations
next_code_point_boundary text index =
    if leb (length text) index
    then length text
    else index + 1 + count_continuations (drop (index + 1) text)

-- The loop over `pos`, on `text.substr(pos)`; each round drops a byte or more.
unfoldable pub split_loop : ℕ → Bytes → ℕ → List Bytes
unfolding previous_code_point_boundary next_code_point_boundary
split_loop fuel [] max_bytes = []
split_loop zero (c ∷ s) max_bytes = []
split_loop (suc fuel) (c ∷ s) max_bytes =
    let text : Bytes = c ∷ s in
    let found = previous_code_point_boundary text max_bytes in
    let end = if found == 0 then next_code_point_boundary text 0 else found in
    let rest = take end text ∷ split_loop fuel (drop end text) max_bytes in
    if leb (length text) max_bytes then text ∷ [] else rest

-- `std::invalid_argument` is an error of the model.
unfoldable pub split_utf8_by_byte_limit : Bytes → ℕ → Result (List Bytes)
unfolding split_loop
split_utf8_by_byte_limit text max_bytes =
    if max_bytes == 0
    then fail (error invalid_argument (lit "split_utf8_by_byte_limit: max_bytes must be > 0"))
    else ok (split_loop (length text) text max_bytes)
