-- ===== src/Subtitle/Composer.antt =====
-- modules/subtitle: SrtComposer.cpp.
pub mod Content
pub mod Order
use edge_tts_cpp.Base.{
  ℕ, suc, Bool, true, false, ◌||◌, ◌&&◌, not, List, [], ◌∷◌, ◌++◌, Bytes, codes, ltb, leb, ◌==◌,
  if◌then◌else◌, to_decimal,
}
use edge_tts_cpp.Common.Error.{Result, ok}
use edge_tts_cpp.Subtitle.Time.{SubtitleTime, SubtitleCue, to_srt_timestamp}

-- The text from the first byte that is not a newline: `find_first_not_of('\n')` and `substr`.
unfoldable pub strip_front : Bytes → Bytes
strip_front [] = []
strip_front (c ∷ cs) = let rest = strip_front cs in if c == b'\n' then rest else c ∷ cs

-- The text to the last byte that is not a newline.
unfoldable pub strip_back : Bytes → Bytes
strip_back [] = []
strip_back (c ∷ cs) =
    let rest = strip_back cs in
    elim rest [ [] ↦ if c == b'\n' then [] else c ∷ [] | d ∷ ds ↦ c ∷ d ∷ ds ]

-- The loop over the stripped text; the flag is `prev_nl`.
unfoldable pub collapse : Bool → Bytes → Bytes
collapse prev_nl [] = []
collapse prev_nl (c ∷ cs) =
    let newline = collapse true cs in
    let other = collapse false cs in
    if c == b'\n' then (if prev_nl then newline else c ∷ newline) else c ∷ other

unfoldable pub make_legal_content : Bytes → Bytes
unfolding strip_front strip_back collapse
make_legal_content text = collapse false (strip_back (strip_front text))

unfoldable pub is_blank : Bytes → Bool
is_blank [] = true
is_blank (c ∷ cs) = (c == b' ' || c == b'\t' || c == b'\r' || c == b'\n') && is_blank cs

-- The comparison of the sort: by start, then by end.
unfoldable pub cue_before : SubtitleCue → SubtitleCue → Bool
cue_before a b =
    if not (a.start.millis == b.start.millis)
    then ltb a.start.millis b.start.millis
    else ltb a.end.millis b.end.millis

-- `std::stable_sort` with that comparison: a cue goes before the first one that it is not after.
unfoldable pub insert_cue : SubtitleCue → List SubtitleCue → List SubtitleCue
unfolding cue_before
insert_cue c [] = c ∷ []
insert_cue c (d ∷ ds) =
    let rest = insert_cue c ds in if cue_before d c then d ∷ rest else c ∷ d ∷ ds

unfoldable pub stable_sort : List SubtitleCue → List SubtitleCue
unfolding insert_cue
stable_sort [] = []
stable_sort (c ∷ cs) = insert_cue c (stable_sort cs)

unfoldable pub print_block : ℕ → SubtitleCue → Bytes
unfolding make_legal_content
print_block idx cue =
    to_decimal idx
    ++ (b'\n'
        ∷ (to_srt_timestamp cue.start
            ++ (codes " --> "
                ++ (to_srt_timestamp cue.end
                    ++ (b'\n' ∷ (make_legal_content cue.text ++ codes "\n\n"))))))

-- The loop over the sorted cues, with its two `continue`s.
unfoldable pub compose_from : ℕ → List SubtitleCue → Bytes
unfolding is_blank print_block
compose_from idx [] = []
compose_from idx (cue ∷ cues) =
    let skipped = compose_from idx cues in
    let printed = print_block idx cue ++ compose_from (suc idx) cues in
    if leb cue.end.millis cue.start.millis
    then skipped
    else if is_blank cue.text
    then skipped
    else printed

unfoldable pub compose : List SubtitleCue → Result Bytes
unfolding stable_sort compose_from
compose cues = ok (compose_from 1 (stable_sort cues))
