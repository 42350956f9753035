-- ===== src/Subtitle/Composer/Content.antt =====
-- SrtComposer.cpp: the text of a block cannot be taken for the end of the block.
use edge_tts_cpp.Base.{
  ℕ, Bool, true, false, ◌&&◌, not, [], ◌∷◌, Bytes, ◌==◌, if◌then◌else◌, ◌≡◌, refl, arith, ◌⊎◌, inl,
  inr, Bool-cases,
}
use edge_tts_cpp.Subtitle.Composer.{strip_front, strip_back, collapse, make_legal_content, is_blank}

-- No newline follows a newline, at the front neither, where `prev_nl` says that one came before, and
-- the text does not end with one.
unfoldable pub is_legal : Bool → Bytes → Bool
is_legal prev_nl [] = not prev_nl
is_legal prev_nl (c ∷ cs) =
    let newline = is_legal true cs in
    let other = is_legal false cs in if c == b'\n' then not prev_nl && newline else other

-- What stripping leaves: no newline at the end.
ends_well : Bytes → Bool
ends_well [] = true
ends_well (c ∷ []) = not (c == b'\n')
ends_well (c ∷ d ∷ ds) = ends_well (d ∷ ds)

ends_well-strip_back : (s : Bytes) → ends_well (strip_back s) ≡ true
unfolding strip_back ends_well
ends_well-strip_back [] = refl
ends_well-strip_back (c ∷ cs) = ground (arith, ends_well-strip_back cs)

-- A stripped text is collapsed to a legal one.
is_legal-collapse :
    (prev_nl : Bool) (c : ℕ) (cs : Bytes)
    → ends_well (c ∷ cs) ≡ true
    → is_legal prev_nl (collapse prev_nl (c ∷ cs)) ≡ true
unfolding is_legal collapse ends_well
is_legal-collapse prev_nl c [] h = ground arith
is_legal-collapse prev_nl c (d ∷ ds) h =
    ground (arith, is_legal-collapse true d ds h, is_legal-collapse false d ds h)

List-cases : (s : Bytes) → (s ≡ []) ⊎ ((c : ℕ) × (cs : Bytes) × (s ≡ c ∷ cs))
List-cases [] = inl refl
List-cases (c ∷ cs) = inr (c, cs, refl)

strip_back-cons :
    (c : ℕ) (cs : Bytes) → (c == b'\n') ≡ false → (ds : Bytes) × (strip_back (c ∷ cs) ≡ c ∷ ds)
unfolding strip_back
strip_back-cons c cs h = elim (List-cases (strip_back cs)) [
  | inl e ↦ ([], rw e (rw h refl))
  | inr (d, ds, e) ↦ (d ∷ ds, rw e refl)
]

strip-cons :
    (s : Bytes)
    → is_blank s ≡ false
    → (c : ℕ) × (cs : Bytes) × (strip_back (strip_front s) ≡ c ∷ cs) × ((c == b'\n') ≡ false)
unfolding strip_front is_blank
strip-cons [] h = ground arith
strip-cons (c ∷ cs) h = elim (Bool-cases (c == b'\n')) [
  | inl e ↦ let (d, ds, l, n) = strip-cons cs (ground arith) in (d, ds, rw e l, n)
  | inr e ↦ let (ds, l) = strip_back-cons c cs e in (c, ds, rw e l, e)
]

legal_front :
    (c : ℕ) (cs : Bytes)
    → (c == b'\n') ≡ false
    → is_legal false (collapse false (c ∷ cs)) ≡ true
    → is_legal true (collapse false (c ∷ cs)) ≡ true
unfolding is_legal collapse
legal_front c cs n h = ground arith

-- For every text that is not blank, the text of its block has no newline at its front or at its end,
-- and no two in a row, so that the first empty line after a block's times ends the block.
pub make_legal_content-is_legal :
    (text : Bytes) → is_blank text ≡ false → is_legal true (make_legal_content text) ≡ true
unfolding make_legal_content
make_legal_content-is_legal text h =
    let (c, cs, e, n) = strip-cons text h in
    rw e (
      legal_front c cs n
        (is_legal-collapse false c cs (rw e at (ends_well-strip_back (strip_front text)))))
