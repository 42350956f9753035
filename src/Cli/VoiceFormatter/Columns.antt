-- ===== src/Cli/VoiceFormatter/Columns.antt =====
-- VoiceFormatter.cpp: the columns of the table.
use mathlib.Core.Path.{subst}
use edge_tts_cpp.Base.{
  ℕ, zero, suc, ◌+◌, ◌-◌, ◌≤◌, true, some, List, [], ◌∷◌, ◌++◌, map, append_assoc, append-nil,
  Bytes, codes, length, drop, replicate, get_elem?, leb, length-append, drop-length-append,
  drop-drop, starts_with, ◌≡◌, refl, All, ap, ◌∙◌, sym, arith, Bool-cases, inl, inr,
}
use edge_tts_cpp.Cli.VoiceFormatter.{
  pad, head_or, tail, make_row, max, widen, widen_all, headers, cells_of,
}
use edge_tts_cpp.Core.Voice.{Voice}

-- Where a column starts: behind the columns before it, with two spaces after each.
unfoldable pub column_start : ℕ → List ℕ → ℕ
column_start zero widths = 0
column_start (suc k) [] = 0
column_start (suc k) (w ∷ ws) = w + (2 + column_start k ws)

-- Each cell has a column, and fits it.
abbrev pub Fits : List Bytes → List ℕ → Type 0
Fits [] widths = Unit
Fits (cell ∷ cells) [] = ⊥
Fits (cell ∷ cells) (w ∷ ws) = (length cell ≤ w) × Fits cells ws

starts_with-append : (p s : Bytes) → starts_with p (p ++ s) ≡ true
unfolding starts_with
starts_with-append [] s = refl
starts_with-append (x ∷ xs) s = ground (arith, starts_with-append xs s)

length-replicate : (n c : ℕ) → length (replicate n c) ≡ n
length-replicate zero c = refl
length-replicate (suc n) c = omega (arith, length-replicate n c)

length-pad : (cell : Bytes) (w : ℕ) → length cell ≤ w → length (pad cell w) ≡ w
unfolding pad
length-pad cell w h = elim (Bool-cases (leb w (length cell))) [
  | inl q ↦ rw q (ground arith)
  | inr q ↦ rw q (
      omega (
        arith,
        length-append {0} cell (replicate (w - length cell) b' '),
        length-replicate (w - length cell) b' ',
      ))
]

pad-append : (cell : Bytes) (w : ℕ) → (spaces : Bytes) × (pad cell w ≡ cell ++ spaces)
unfolding pad
pad-append cell w = elim (Bool-cases (leb w (length cell))) [
  | inl q ↦ ([], rw q (sym (append-nil cell)))
  | inr q ↦ (replicate (w - length cell) b' ', rw q refl)
]

drop-append : (n : ℕ) (xs ys : Bytes) → drop (length xs + n) (xs ++ ys) ≡ drop n ys
drop-append n xs ys =
    sym (drop-drop (length xs) n (xs ++ ys)) ∙ ap (drop n) (drop-length-append xs ys)

make_row-start :
    (cell : Bytes) (cells : List Bytes) (widths : List ℕ)
    → (rest : Bytes) × (make_row (cell ∷ cells) widths true ≡ cell ++ rest)
unfolding make_row
make_row-start cell [] widths = ([], sym (append-nil cell))
make_row-start cell (next ∷ cells) widths =
    let (spaces, p) = pad-append cell (head_or 0 widths) in
    (
      spaces ++ (codes "  " ++ make_row (next ∷ cells) (tail widths) true),
      ap (λ t. t ++ (codes "  " ++ make_row (next ∷ cells) (tail widths) true)) p
          ∙ append_assoc cell spaces _,
    )

make_row-column :
    (cells : List Bytes) (widths : List ℕ) (k : ℕ) (cell : Bytes)
    → Fits cells widths
    → get_elem? cells k ≡ some cell
    → starts_with cell (drop (column_start k widths) (make_row cells widths true)) ≡ true
unfolding column_start make_row
make_row-column [] widths k cell f e = cc
make_row-column (c ∷ cells) [] k cell f e = absurd f
make_row-column (c ∷ cells) (w ∷ ws) zero cell f e =
    let (rest, p) = make_row-start c cells (w ∷ ws) in
    let q : c ≡ cell = cc in
    subst (λ (d : Bytes). starts_with d (make_row (c ∷ cells) (w ∷ ws) true) ≡ true) q
      (rw p (starts_with-append c rest))
make_row-column (c ∷ []) (w ∷ ws) (suc k) cell f e = cc
make_row-column (c ∷ next ∷ cells) (w ∷ ws) (suc k) cell f e =
    let row = make_row (next ∷ cells) ws true in
    let s = column_start k ws in
    let skip : drop (w + (2 + s)) (pad c w ++ (codes "  " ++ row)) ≡ drop s row =
      ap (λ n. drop (n + (2 + s)) (pad c w ++ (codes "  " ++ row))) (sym (length-pad c w f.0))
      ∙ drop-append (2 + s) (pad c w) (codes "  " ++ row)
      ∙ drop-append s (codes "  ") row in
    rw skip (make_row-column (next ∷ cells) ws k cell f.1 e)

-- The widths grow, and a row that was counted fits.
abbrev Grows : List ℕ → List ℕ → Type 0
Grows [] [] = Unit
Grows (w ∷ ws) (v ∷ vs) = (w ≤ v) × Grows ws vs
Grows _ _ = ⊥

Grows-refl : (ws : List ℕ) → Grows ws ws
Grows-refl [] = tt
Grows-refl (w ∷ ws) = (omega arith, Grows-refl ws)

Grows-trans : (us vs ws : List ℕ) → Grows us vs → Grows vs ws → Grows us ws
Grows-trans [] [] [] g h = tt
Grows-trans [] [] (w ∷ ws) g h = elim h [ ]
Grows-trans [] (v ∷ vs) ws g h = elim g [ ]
Grows-trans (u ∷ us) [] ws g h = elim g [ ]
Grows-trans (u ∷ us) (v ∷ vs) [] g h = elim h [ ]
Grows-trans (u ∷ us) (v ∷ vs) (w ∷ ws) (g, gs) (h, hs) = (omega arith, Grows-trans us vs ws gs hs)

Fits-Grows : (cells : List Bytes) (vs ws : List ℕ) → Fits cells vs → Grows vs ws → Fits cells ws
Fits-Grows [] vs ws f g = tt
Fits-Grows (c ∷ cells) [] ws f g = elim f [ ]
Fits-Grows (c ∷ cells) (v ∷ vs) [] f g = elim g [ ]
Fits-Grows (c ∷ cells) (v ∷ vs) (w ∷ ws) (f, fs) (g, gs) =
    (omega arith, Fits-Grows cells vs ws fs gs)

Grows-widen : (ws : List ℕ) (cells : List Bytes) → Grows ws (widen ws cells)
unfolding widen max
Grows-widen [] cells = tt
Grows-widen (w ∷ ws) [] = Grows-refl (w ∷ ws)
Grows-widen (w ∷ ws) (c ∷ cells) = (ground arith, Grows-widen ws cells)

Grows-widen_all : (ws : List ℕ) (rows : List (List Bytes)) → Grows ws (widen_all ws rows)
unfolding widen_all
Grows-widen_all ws [] = Grows-refl ws
Grows-widen_all ws (row ∷ rows) =
    Grows-trans ws (widen ws row) (widen_all (widen ws row) rows) (Grows-widen ws row)
      (Grows-widen_all (widen ws row) rows)

-- A row of as many cells as there are columns.
abbrev SameLength : List Bytes → List ℕ → Type 0
SameLength [] [] = Unit
SameLength (c ∷ cells) (w ∷ ws) = SameLength cells ws
SameLength _ _ = ⊥

Fits-widen : (cells : List Bytes) (ws : List ℕ) → SameLength cells ws → Fits cells (widen ws cells)
unfolding widen max
Fits-widen [] ws l = tt
Fits-widen (c ∷ cells) [] l = elim l [ ]
Fits-widen (c ∷ cells) (w ∷ ws) l = (ground arith, Fits-widen cells ws l)

SameLength-Grows :
    (cells : List Bytes) (vs ws : List ℕ) → SameLength cells vs → Grows vs ws → SameLength cells ws
SameLength-Grows [] [] [] l g = tt
SameLength-Grows [] [] (w ∷ ws) l g = elim g [ ]
SameLength-Grows [] (v ∷ vs) ws l g = elim l [ ]
SameLength-Grows (c ∷ cells) [] ws l g = elim l [ ]
SameLength-Grows (c ∷ cells) (v ∷ vs) [] l g = elim g [ ]
SameLength-Grows (c ∷ cells) (v ∷ vs) (w ∷ ws) l (g, gs) = SameLength-Grows cells vs ws l gs

Fits-widen_all :
    (ws : List ℕ) (rows : List (List Bytes)) (i : ℕ) (row : List Bytes)
    → All (λ r. SameLength r ws) rows
    → get_elem? rows i ≡ some row
    → Fits row (widen_all ws rows)
unfolding widen_all
Fits-widen_all ws [] i row l e = cc
Fits-widen_all ws (r ∷ rows) zero row (l, ls) e =
    subst (λ (r' : List Bytes). Fits r' (widen_all (widen ws r) rows)) {x = r} {y = row} (cc)
      (Fits-Grows r (widen ws r) (widen_all (widen ws r) rows) (Fits-widen r ws l)
        (Grows-widen_all (widen ws r) rows))
Fits-widen_all ws (r ∷ rows) (suc i) row (l, ls) e =
    Fits-widen_all (widen ws r) rows i row (same rows ls) e
  where
    same :
        (rs : List (List Bytes))
        → All (λ t. SameLength t ws) rs
        → All (λ t. SameLength t (widen ws r)) rs
    same [] k = tt
    same (t ∷ ts) (k, ks) = (SameLength-Grows t ws (widen ws r) k (Grows-widen ws r), same ts ks)

-- The widths that `table` finds for some voices.
unfoldable pub widths_of : List Voice → List ℕ
widths_of vs = widen_all (map length headers) (map cells_of vs)

same_length : (vs : List Voice) → All (λ r. SameLength r (map length headers)) (map cells_of vs)
unfolding cells_of
same_length [] = tt
same_length (v ∷ vs) = (tt, same_length vs)

headers-widths : (vs : List Voice) → Fits headers (widths_of vs)
unfolding widths_of
headers-widths vs =
    Fits-Grows headers (map length headers) (widths_of vs) (omega arith)
      (Grows-widen_all (map length headers) (map cells_of vs))

rows-Fits :
    (vs : List Voice) (i : ℕ) (row : List Bytes)
    → get_elem? (headers ∷ map cells_of vs) i ≡ some row
    → Fits row (widths_of vs)
unfolding widths_of
rows-Fits vs zero row e =
    subst (λ (r : List Bytes). Fits r (widths_of vs)) {x = headers} {y = row} (cc)
      (headers-widths vs)
rows-Fits vs (suc i) row e =
    Fits-widen_all (map length headers) (map cells_of vs) i row (same_length vs) e

-- In the table of some voices every column starts at one position in the header's line and in the
-- line of each voice: cell k of the line stands at the start of column k, which depends only on the
-- widths of the columns.
pub make_row-aligned :
    (vs : List Voice) (i k : ℕ) (row : List Bytes) (cell : Bytes)
    → get_elem? (headers ∷ map cells_of vs) i ≡ some row
    → get_elem? row k ≡ some cell
    → starts_with cell (drop (column_start k (widths_of vs)) (make_row row (widths_of vs) true))
      ≡ true
make_row-aligned vs i k row cell at has =
    make_row-column row (widths_of vs) k cell (rows-Fits vs i row at) has
