-- ===== src/Subtitle/Composer/Order.antt =====
-- SrtComposer.cpp: the sort orders the cues and keeps equal ones in place; the loop prints, numbered
-- from 1, those that have a duration and a text.
use edge_tts_cpp.Base.{
  ℕ, suc, Bool, true, ◌||◌, leb, ◌&&◌, not, List, [], ◌∷◌, ◌++◌, Bytes, ◌==◌, ltb, if◌then◌else◌,
  ◌≡◌, refl, ap, ◌∙◌, arith, codes, to_decimal, false,
}
use edge_tts_cpp.Common.Error.{ok}
use edge_tts_cpp.Subtitle.Composer.{
  cue_before, insert_cue, stable_sort, print_block, compose_from, compose, is_blank,
  make_legal_content,
}
use edge_tts_cpp.Subtitle.Time.{SubtitleCue, to_srt_timestamp}

-- Each cue starts before the next one, or with it and then does not end behind it.
unfoldable pub is_sorted : List SubtitleCue → Bool
is_sorted [] = true
is_sorted (c ∷ []) = true
is_sorted (c ∷ d ∷ ds) =
    (ltb c.start.millis d.start.millis
      || (c.start.millis == d.start.millis && leb c.end.millis d.end.millis))
    && is_sorted (d ∷ ds)

-- The cues with a start and an end, in their order.
unfoldable pub with_times : ℕ → ℕ → List SubtitleCue → List SubtitleCue
with_times a b [] = []
with_times a b (c ∷ cs) =
    let rest = with_times a b cs in
    if c.start.millis == a && c.end.millis == b then c ∷ rest else rest

is_sorted-insert_cue :
    (c : SubtitleCue) (cs : List SubtitleCue)
    → is_sorted cs ≡ true
    → is_sorted (insert_cue c cs) ≡ true
unfolding is_sorted insert_cue cue_before
is_sorted-insert_cue c [] h = refl
is_sorted-insert_cue c (d ∷ []) h = ground arith
is_sorted-insert_cue c (d ∷ e ∷ es) h = ground (arith, is_sorted-insert_cue c (e ∷ es))

is_sorted-stable_sort : (cs : List SubtitleCue) → is_sorted (stable_sort cs) ≡ true
unfolding stable_sort is_sorted
is_sorted-stable_sort [] = refl
is_sorted-stable_sort (c ∷ cs) = is_sorted-insert_cue c (stable_sort cs) (is_sorted-stable_sort cs)

with_times-insert_cue :
    (a b : ℕ) (c : SubtitleCue) (cs : List SubtitleCue)
    → with_times a b (insert_cue c cs) ≡ with_times a b (c ∷ cs)
unfolding with_times insert_cue cue_before
with_times-insert_cue a b c [] = refl
with_times-insert_cue a b c (d ∷ ds) = ground (arith, with_times-insert_cue a b c ds)

with_times-stable_sort :
    (a b : ℕ) (cs : List SubtitleCue) → with_times a b (stable_sort cs) ≡ with_times a b cs
unfolding with_times stable_sort
with_times-stable_sort a b [] = refl
with_times-stable_sort a b (c ∷ cs) =
    with_times-insert_cue a b c (stable_sort cs) ∙ ground (arith, with_times-stable_sort a b cs)

-- A byte that is no space, tab, carriage return or line feed.
unfoldable pub has_text : Bytes → Bool
has_text [] = false
has_text (c ∷ cs) =
    let rest = has_text cs in
    if c == 32
    then rest
    else if c == 9
    then rest
    else if c == 13
    then rest
    else if c == 10
    then rest
    else true

has_text_lem : (s : Bytes) → is_blank s ≡ not (has_text s)
unfolding has_text is_blank
has_text_lem [] = refl
has_text_lem (c ∷ cs) = ground (arith, has_text_lem cs)

-- The cues that are printed.
unfoldable pub shown : List SubtitleCue → List SubtitleCue
unfolding has_text
shown [] = []
shown (c ∷ cs) =
    let rest = shown cs in
    if ltb c.start.millis c.end.millis && has_text c.text then c ∷ rest else rest

-- A block: its number, its times and its text, each on its own line, and an empty line.
unfoldable pub block : ℕ → SubtitleCue → Bytes
block idx c =
    to_decimal idx
    ++ (codes "\n"
        ++ (to_srt_timestamp c.start
            ++ (codes " --> "
                ++ (to_srt_timestamp c.end
                    ++ (codes "\n" ++ (make_legal_content c.text ++ codes "\n\n"))))))

-- The blocks of cues, numbered from `idx`.
unfoldable pub blocks : ℕ → List SubtitleCue → Bytes
unfolding block
blocks idx [] = []
blocks idx (c ∷ cs) = block idx c ++ blocks (suc idx) cs

print_block_lem : (idx : ℕ) (c : SubtitleCue) → print_block idx c ≡ block idx c
unfolding print_block block
print_block_lem idx c = refl

compose_from-shown : (idx : ℕ) (cs : List SubtitleCue) → compose_from idx cs ≡ blocks idx (shown cs)
unfolding compose_from shown blocks
compose_from-shown idx [] = refl
compose_from-shown idx (c ∷ cs) = ground (
  arith,
  compose_from-shown idx cs,
  compose_from-shown (suc idx) cs,
  has_text_lem c.text,
  print_block_lem idx c,
)

-- For all cues, `compose` succeeds with the blocks, numbered from 1 without a gap, of the cues that
-- have a duration and a text that is not blank, taken from a list that ascends by start and, for equal
-- starts, by end and in which, for every start and end, the cues with these times are the given ones
-- in their order.
pub compose_lem :
    (cues : List SubtitleCue)
    → (sorted : List SubtitleCue) × (compose cues ≡ ok (blocks 1 (shown sorted)))
      × (is_sorted sorted ≡ true)
      × ((a b : ℕ) → with_times a b sorted ≡ with_times a b cues)
unfolding compose
compose_lem cues = (
  stable_sort cues,
  ap ok (compose_from-shown 1 (stable_sort cues)),
  is_sorted-stable_sort cues,
  λ a b. with_times-stable_sort a b cues,
)
