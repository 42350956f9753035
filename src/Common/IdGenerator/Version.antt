-- ===== src/Common/IdGenerator/Version.antt =====
-- IdGenerator.cpp: what an identifier looks like.
use mathlib.Core.Path.{subst}
use edge_tts_cpp.Base.{
  ℕ, zero, suc, ◌+◌, ◌/◌, ◌%◌, ◌<◌, ◌≤◌, Option, none, some, [], ◌∷◌, ◌++◌, Bytes, length,
  get_elem?, take, drop, take-append-drop, drop-drop, length-drop, ◌≡◌, refl, sym, ap, ◌∙◌, arith,
  All, All-take, All-drop, ◌⊎◌,
}
use edge_tts_cpp.Common.Hex.{digit, encode, hex_encode_lower}
use edge_tts_cpp.Common.Hex.Digits.{
  IsByte, IsDigit, encode-digits, length-encode, encode-append, get_elem-encode,
}
use edge_tts_cpp.Common.IdGenerator.{
  update_at, set_version, format_groups, strip_hyphens, uuid_v4_without_hyphens,
}

strip-digits : (s : Bytes) → All (IsDigit b'a') s → strip_hyphens s ≡ s
unfolding strip_hyphens
strip-digits [] h = refl
strip-digits (c ∷ s) (h, hs) = ground (arith, strip-digits s hs)

strip-append : (s t : Bytes) → strip_hyphens (s ++ t) ≡ strip_hyphens s ++ strip_hyphens t
unfolding strip_hyphens
strip-append [] t = refl
strip-append (c ∷ s) t = ground (arith, strip-append s t)

update_at-bytes :
    (i : ℕ) (f : ℕ → ℕ) (s : Bytes)
    → ((b : ℕ) → IsByte b → IsByte (f b))
    → All IsByte s
    → All IsByte (update_at i f s)
unfolding update_at
update_at-bytes i f [] k h = tt
update_at-bytes zero f (b ∷ s) k (h, hs) = (k b h, hs)
update_at-bytes (suc i) f (b ∷ s) k (h, hs) = (h, update_at-bytes i f s k hs)

length-update_at : (i : ℕ) (f : ℕ → ℕ) (s : Bytes) → length (update_at i f s) ≡ length s
unfolding update_at
length-update_at i f [] = refl
length-update_at zero f (b ∷ s) = refl
length-update_at (suc i) f (b ∷ s) = ap suc (length-update_at i f s)

get_elem-update_at :
    (i : ℕ) (f : ℕ → ℕ) (s : Bytes)
    → i < length s
    → (b : ℕ) × (get_elem? (update_at i f s) i ≡ some (f b))
unfolding update_at
get_elem-update_at i f [] h = absurd (omega arith)
get_elem-update_at zero f (b ∷ s) h = (b, refl)
get_elem-update_at (suc i) f (b ∷ s) h = get_elem-update_at i f s (omega arith)

set_version-bytes : (r : Bytes) → All IsByte r → All IsByte (set_version r)
unfolding set_version
set_version-bytes r h =
    update_at-bytes 8 (λ x. x % 64 + 0x80) (update_at 6 (λ x. x % 16 + 0x40) r) (λ b k. omega arith)
      (update_at-bytes 6 (λ x. x % 16 + 0x40) r (λ b k. omega arith) h)

length-set_version : (r : Bytes) → length (set_version r) ≡ length r
unfolding set_version
length-set_version r =
    length-update_at 8 _ (update_at 6 (λ x. x % 16 + 0x40) r) ∙ length-update_at 6 _ r

-- An update elsewhere.
get_elem-apart :
    (i j : ℕ) (f : ℕ → ℕ) (s : Bytes) → i < j → get_elem? (update_at j f s) i ≡ get_elem? s i
unfolding update_at
get_elem-apart i j f [] h = refl
get_elem-apart i zero f (b ∷ s) h = absurd (omega arith)
get_elem-apart zero (suc j) f (b ∷ s) h = refl
get_elem-apart (suc i) (suc j) f (b ∷ s) h = get_elem-apart i j f s (omega arith)

-- A group of digits with no hyphen, before the rest.
strip-group :
    (bs : Bytes) (rest : Bytes)
    → All IsByte bs
    → strip_hyphens (hex_encode_lower bs ++ b'-' ∷ rest) ≡ hex_encode_lower bs ++ strip_hyphens rest
unfolding hex_encode_lower strip_hyphens
strip-group bs rest h =
    strip-append (encode b'a' bs) (b'-' ∷ rest)
    ∙ ap (λ s. s ++ strip_hyphens rest) (strip-digits (encode b'a' bs) (encode-digits b'a' bs h))

hex-append : (s t : Bytes) → hex_encode_lower (s ++ t) ≡ hex_encode_lower s ++ hex_encode_lower t
unfolding hex_encode_lower
hex-append s t = encode-append b'a' s t

strip-last :
    (bs : Bytes) → All IsByte bs → strip_hyphens (hex_encode_lower bs) ≡ hex_encode_lower bs
unfolding hex_encode_lower
strip-last bs h = strip-digits (encode b'a' bs) (encode-digits b'a' bs h)

-- The next group and what is behind it.
regroup :
    (n k : ℕ) (b : Bytes)
    → hex_encode_lower (take n (drop k b)) ++ hex_encode_lower (drop (k + n) b)
      ≡ hex_encode_lower (drop k b)
regroup n k b =
    sym (hex-append (take n (drop k b)) (drop (k + n) b))
    ∙ ap hex_encode_lower
        (ap (λ r. take n (drop k b) ++ r) (sym (drop-drop k n b)) ∙ take-append-drop n (drop k b))

take-all : (n : ℕ) (s : Bytes) → length s ≤ n → take n s ≡ s
take-all zero [] h = refl
take-all zero (c ∷ s) h = absurd (omega arith)
take-all (suc n) [] h = refl
take-all (suc n) (c ∷ s) h = ap (λ r. c ∷ r) (take-all n s (omega arith))

strip-groups :
    (b : Bytes)
    → length b ≡ 16
    → All IsByte b
    → strip_hyphens (format_groups b) ≡ hex_encode_lower b
unfolding format_groups
strip-groups b l h =
    let part : (n k : ℕ) → All IsByte (take n (drop k b)) =
      λ n k. All-take IsByte n (drop k b) (All-drop IsByte k b h) in
    strip-group (take 4 b) _ (part 4 0)
    ∙ ap (λ r. hex_encode_lower (take 4 b) ++ r)
        (strip-group (take 2 (drop 4 b)) _ (part 2 4)
          ∙ ap (λ r. hex_encode_lower (take 2 (drop 4 b)) ++ r)
              (strip-group (take 2 (drop 6 b)) _ (part 2 6)
                ∙ ap (λ r. hex_encode_lower (take 2 (drop 6 b)) ++ r)
                    (strip-group (take 2 (drop 8 b)) _ (part 2 8)
                      ∙ ap (λ r. hex_encode_lower (take 2 (drop 8 b)) ++ r)
                          (strip-last (take 6 (drop 10 b)) (part 6 10)
                            ∙ ap hex_encode_lower
                                (take-all 6 (drop 10 b) (omega (arith, length-drop 10 b))))
                      ∙ regroup 2 8 b)
                ∙ regroup 2 6 b)
          ∙ regroup 2 4 b)
    ∙ regroup 4 0 b

-- The digits of the variant of RFC 4122.
abbrev pub IsVariant : Option ℕ → Type 0
IsVariant none = ⊥
IsVariant (some c) = ((c ≡ b'8') ⊎ (c ≡ b'9')) ⊎ ((c ≡ b'a') ⊎ (c ≡ b'b'))

IsVariant-digit : (x : ℕ) → IsVariant (some (digit b'a' ((x % 64 + 0x80) / 16)))
unfolding digit
IsVariant-digit x = ground arith

version_digit : (x : ℕ) → digit b'a' ((x % 16 + 0x40) / 16) ≡ b'4'
unfolding digit
version_digit x = ground arith

version_byte :
    (r : Bytes) → 8 < length r → (x : ℕ) × (get_elem? (set_version r) 6 ≡ some (x % 16 + 0x40))
unfolding set_version
version_byte r h =
    let (x, e) = get_elem-update_at 6 (λ x. x % 16 + 0x40) r (omega arith) in
    (x, get_elem-apart 6 8 _ (update_at 6 (λ x. x % 16 + 0x40) r) (omega arith) ∙ e)

variant_byte :
    (r : Bytes) → 8 < length r → (x : ℕ) × (get_elem? (set_version r) 8 ≡ some (x % 64 + 0x80))
unfolding set_version
variant_byte r h =
    get_elem-update_at 8 (λ x. x % 64 + 0x80) (update_at 6 (λ x. x % 16 + 0x40) r)
      (omega (arith, length-update_at 6 (λ x. x % 16 + 0x40) r))

uuid-digits :
    (random : Bytes)
    → length random ≡ 16
    → All IsByte random
    → uuid_v4_without_hyphens random ≡ hex_encode_lower (set_version random)
unfolding uuid_v4_without_hyphens
uuid-digits random l h =
    strip-groups (set_version random) (length-set_version random ∙ l) (set_version-bytes random h)

hex-parts :
    (b : Bytes) (x y : ℕ)
    → length b ≡ 16
    → All IsByte b
    → get_elem? b 6 ≡ some (x % 16 + 0x40)
    → get_elem? b 8 ≡ some (y % 64 + 0x80)
    → (length (hex_encode_lower b) ≡ 32)
      × All (IsDigit b'a') (hex_encode_lower b)
      × (get_elem? (hex_encode_lower b) 12 ≡ some b'4')
      × IsVariant (get_elem? (hex_encode_lower b) 16)
unfolding hex_encode_lower
hex-parts b x y l h p q = (
  omega (arith, length-encode b'a' b),
  encode-digits b'a' b h,
  get_elem-encode b'a' 6 (x % 16 + 0x40) b p ∙ ap some (version_digit x),
  subst IsVariant (sym (get_elem-encode b'a' 8 (y % 64 + 0x80) b q)) (IsVariant-digit y),
)

-- From 16 random bytes, the identifier without hyphens is their 32 lower-case hexadecimal digits, but
-- for the version and the variant: its digit 12 is 4, and its digit 16 is 8, 9, a or b.
pub uuid_v4_without_hyphens_lem :
    (random : Bytes)
    → length random ≡ 16
    → All IsByte random
    → (uuid_v4_without_hyphens random ≡ hex_encode_lower (set_version random))
      × (length (uuid_v4_without_hyphens random) ≡ 32)
      × All (IsDigit b'a') (uuid_v4_without_hyphens random)
      × (get_elem? (uuid_v4_without_hyphens random) 12 ≡ some b'4')
      × IsVariant (get_elem? (uuid_v4_without_hyphens random) 16)
uuid_v4_without_hyphens_lem random l h =
    let (x, p) = version_byte random (omega arith) in
    let (y, q) = variant_byte random (omega arith) in
    let e = uuid-digits random l h in
    let d =
      hex-parts (set_version random) x y (length-set_version random ∙ l)
        (set_version-bytes random h) p q in
    (e, rw e d.0, rw e d.1, rw e d.2, rw e d.3)
