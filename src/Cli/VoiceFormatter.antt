-- ===== src/Cli/VoiceFormatter.antt =====
-- modules/cli: VoiceFormatter.cpp. `std::sort` leaves open how voices with the same short name are
-- ordered; here they keep the order in which they came.
pub mod Sorting
pub mod Columns
use edge_tts_cpp.Base.{
  ℕ, ◌-◌, Bool, true, false, List, [], ◌∷◌, ◌++◌, map, Bytes, lit, codes, length, replicate, leb,
  ltb, ◌==◌, if◌then◌else◌,
}
use edge_tts_cpp.Core.Voice.{Voice, gender_to_string}

unfoldable pub join : List Bytes → Bytes
join [] = []
join (part ∷ []) = part
join (part ∷ parts) = part ++ (lit ", " ++ join parts)

unfoldable pub pad : Bytes → ℕ → Bytes
pad str width = if leb width (length str) then str else str ++ replicate (width - length str) b' '

-- `widths[i]`: the loops index within their size.
abbrev pub head_or : ℕ → List ℕ → ℕ
head_or d [] = d
head_or d (w ∷ ws) = w

abbrev pub tail : List ℕ → List ℕ
tail [] = []
tail (w ∷ ws) = ws

-- The cells from one on, with the separator between two of them.
unfoldable pub make_row : List Bytes → List ℕ → Bool → Bytes
unfolding pad
make_row [] widths last_col_raw = []
make_row (cell ∷ []) widths last_col_raw =
    if last_col_raw then cell else pad cell (head_or 0 widths)
make_row (cell ∷ next ∷ cells) widths last_col_raw =
    pad cell (head_or 0 widths)
    ++ (codes "  " ++ make_row (next ∷ cells) (tail widths) last_col_raw)

-- `a < b` of two strings.
unfoldable pub bytes_lt : Bytes → Bytes → Bool
bytes_lt [] [] = false
bytes_lt [] (y ∷ ys) = true
bytes_lt (x ∷ xs) [] = false
bytes_lt (x ∷ xs) (y ∷ ys) = if ltb x y then true else if ltb y x then false else bytes_lt xs ys

unfoldable pub insert_voice : Voice → List Voice → List Voice
unfolding bytes_lt
insert_voice v [] = v ∷ []
insert_voice v (w ∷ ws) =
    if bytes_lt w.short_name v.short_name then w ∷ insert_voice v ws else v ∷ w ∷ ws

unfoldable pub sort_voices : List Voice → List Voice
unfolding insert_voice
sort_voices [] = []
sort_voices (v ∷ vs) = insert_voice v (sort_voices vs)

abbrev pub headers : List Bytes
headers =
    codes "Name" ∷ codes "Gender" ∷ codes "ContentCategories" ∷ codes "VoicePersonalities" ∷ []

unfoldable pub cells_of : Voice → List Bytes
unfolding gender_to_string join
cells_of v =
    v.short_name
    ∷ gender_to_string v.gender
    ∷ join v.content_categories
    ∷ join v.voice_personalities
    ∷ []

unfoldable pub max : ℕ → ℕ → ℕ
max a b = if ltb a b then b else a

-- `widths[c] = std::max(widths[c], row[c].size())` for each column.
unfoldable pub widen : List ℕ → List Bytes → List ℕ
unfolding max
widen [] cells = []
widen (w ∷ ws) [] = w ∷ ws
widen (w ∷ ws) (cell ∷ cells) = max w (length cell) ∷ widen ws cells

unfoldable pub widen_all : List ℕ → List (List Bytes) → List ℕ
unfolding widen
widen_all widths [] = widths
widen_all widths (row ∷ rows) = widen_all (widen widths row) rows

unfoldable pub lines : List ℕ → List (List Bytes) → Bytes
unfolding make_row
lines widths [] = []
lines widths (row ∷ rows) = make_row row widths true ++ (b'\n' ∷ lines widths rows)

-- The header, the dashes and the rows.
unfoldable pub table : List (List Bytes) → Bytes
unfolding widen_all lines
table rows =
    let widths = widen_all (map length headers) rows in
    lines widths (headers ∷ map (λ w. replicate w b'-') widths ∷ rows)

unfoldable pub format : List Voice → Bytes
unfolding sort_voices cells_of table
format voices = table (map cells_of (sort_voices voices))
