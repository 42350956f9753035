-- ===== src/Cli/VoiceFormatter/Sorting.antt =====
-- VoiceFormatter.cpp: the order of the rows.
use mathlib.Core.List.{Perm}
use mathlib.Core.List.Perm
use edge_tts_cpp.Base.{
  true, false, List, [], ◌∷◌, Bytes, ◌≡◌, refl, arith, Bool-cases, inl, inr, All,
}
use edge_tts_cpp.Cli.VoiceFormatter.{bytes_lt, insert_voice, sort_voices}
use edge_tts_cpp.Core.Voice.{Voice}

-- No voice stands before one with a smaller short name.
abbrev pub IsSorted : List Voice → Type 0
IsSorted [] = Unit
IsSorted (v ∷ vs) = All (λ w. bytes_lt w.short_name v.short_name ≡ false) vs × IsSorted vs

bytes_lt_asym : (a b : Bytes) → bytes_lt a b ≡ true → bytes_lt b a ≡ false
unfolding bytes_lt
bytes_lt_asym [] [] h = refl
bytes_lt_asym [] (y ∷ ys) h = refl
bytes_lt_asym (x ∷ xs) [] h = ground arith
bytes_lt_asym (x ∷ xs) (y ∷ ys) h = ground (arith, bytes_lt_asym xs ys)

-- Not greater is transitive.
bytes_le_trans :
    (a b c : Bytes) → bytes_lt b a ≡ false → bytes_lt c b ≡ false → bytes_lt c a ≡ false
unfolding bytes_lt
bytes_le_trans [] [] [] h k = refl
bytes_le_trans [] (y ∷ ys) [] h k = refl
bytes_le_trans [] b (z ∷ zs) h k = refl
bytes_le_trans (x ∷ xs) [] c h k = ground arith
bytes_le_trans (x ∷ xs) (y ∷ ys) [] h k = ground arith
bytes_le_trans (x ∷ xs) (y ∷ ys) (z ∷ zs) h k = ground (arith, bytes_le_trans xs ys zs)

abbrev Above : Bytes → Voice → Type 0
Above a w = bytes_lt w.short_name a ≡ false

All-Above :
    (a b : Bytes) (ws : List Voice) → bytes_lt b a ≡ false → All (Above b) ws → All (Above a) ws
All-Above a b [] h k = tt
All-Above a b (w ∷ ws) h (k, ks) = (bytes_le_trans a b w.short_name h k, All-Above a b ws h ks)

All-insert_voice :
    (a : Bytes) (v : Voice) (ws : List Voice)
    → Above a v
    → All (Above a) ws
    → All (Above a) (insert_voice v ws)
unfolding insert_voice
All-insert_voice a v [] h k = (h, tt)
All-insert_voice a v (w ∷ ws) h (k, ks) = elim (Bool-cases (bytes_lt w.short_name v.short_name)) [
  | inl q ↦ rw q (k, All-insert_voice a v ws h ks)
  | inr q ↦ rw q (h, (k, ks))
]

insert_voice-IsSorted : (v : Voice) (ws : List Voice) → IsSorted ws → IsSorted (insert_voice v ws)
unfolding insert_voice
insert_voice-IsSorted v [] s = (tt, tt)
insert_voice-IsSorted v (w ∷ ws) (k, s) = elim (Bool-cases (bytes_lt w.short_name v.short_name)) [
  | inl q ↦ rw q (
    All-insert_voice w.short_name v ws (bytes_lt_asym w.short_name v.short_name q) k,
    insert_voice-IsSorted v ws s,
  )
  | inr q ↦ rw q ((q, All-Above v.short_name w.short_name ws q k), (k, s))
]

insert_voice-perm : (v : Voice) (ws : List Voice) → Perm (insert_voice v ws) (v ∷ ws)
unfolding insert_voice
insert_voice-perm v [] = Perm.refl (v ∷ [])
insert_voice-perm v (w ∷ ws) = elim (Bool-cases (bytes_lt w.short_name v.short_name)) [
  | inl q ↦ rw q (Perm.trans (Perm.cons w (insert_voice-perm v ws)) (Perm.swap v w ws))
  | inr q ↦ rw q (Perm.refl (v ∷ w ∷ ws))
]

-- The voices of a table are the given ones, each as often as it was given, and stand in the order of
-- their short names, compared byte by byte.
pub sort_voices-IsSorted : (vs : List Voice) → Perm (sort_voices vs) vs × IsSorted (sort_voices vs)
unfolding sort_voices
sort_voices-IsSorted [] = (Perm.refl [], tt)
sort_voices-IsSorted (v ∷ vs) =
    let (p, s) = sort_voices-IsSorted vs in
    (
      Perm.trans (insert_voice-perm v (sort_voices vs)) (Perm.cons v p),
      insert_voice-IsSorted v (sort_voices vs) s,
    )
