-- ===== src/Subtitle/Time/RoundTrip.antt =====
-- SubtitleTime.cpp: the timestamp reads back as the time.
use edge_tts_cpp.Base.{
  ℕ, zero, suc, ◌+◌, ◌-◌, ◌*◌, ◌/◌, ◌%◌, ◌<◌, ◌≡◌, refl, sym, ap, ◌∙◌, [], ◌∷◌, ◌++◌, Bytes,
  decimal_loop, decimal_loop-append, to_decimal, padded, replicate, length, ◌==◌, if◌then◌else◌,
  arith, append_assoc, append-nil,
}
use edge_tts_cpp.Subtitle.Time.{SubtitleTime, to_srt_timestamp}

-- A reader of timestamps: `total` is what the fields before this one are worth in its unit, and
-- `field` is what its digits are worth so far.
unfoldable pub read_from : ℕ → ℕ → Bytes → ℕ
read_from total field [] = total + field
read_from total field (c ∷ cs) =
    let next_field = read_from ((total + field) * 60) 0 cs in
    let fraction = read_from ((total + field) * 1000) 0 cs in
    let next_digit = read_from total (field * 10 + (c - b'0')) cs in
    if c == b':' then next_field else if c == b',' then fraction else next_digit

unfoldable pub read_timestamp : Bytes → ℕ
unfolding read_from
read_timestamp s = read_from 0 0 s

read_digit :
    (t n d : ℕ) (s : Bytes) → d < 10 → read_from t n ((b'0' + d) ∷ s) ≡ read_from t (n * 10 + d) s
unfolding read_from
read_digit t n d s h = ground arith

read_decimal_loop :
    (fuel t n : ℕ) (out : Bytes)
    → n < fuel
    → read_from t 0 (decimal_loop fuel n out) ≡ read_from t n out
unfolding decimal_loop
read_decimal_loop zero t n out h = ground arith
read_decimal_loop (suc fuel) t n out h = ground (
  arith,
  read_digit t 0 n out,
  read_decimal_loop fuel t (n / 10) ((b'0' + n % 10) ∷ out),
  read_digit t (n / 10) (n % 10) out,
)

read_zeros : (k t : ℕ) (s : Bytes) → read_from t 0 (replicate k b'0' ++ s) ≡ read_from t 0 s
read_zeros zero t s = refl
read_zeros (suc k) t s = read_digit t 0 0 _ (omega arith) ∙ read_zeros k t s

read_padded : (w t n : ℕ) (s : Bytes) → read_from t 0 (padded w n ++ s) ≡ read_from t n s
unfolding padded to_decimal
read_padded w t n s =
    let d = to_decimal n in
    let zeros = replicate (w - length d) b'0' in
    ap (read_from t 0) (append_assoc zeros d s)
    ∙ read_zeros (w - length d) t (d ++ s)
    ∙ ap (read_from t 0) (decimal_loop-append (suc n) n [] s)
    ∙ read_decimal_loop (suc n) t n s (omega arith)

-- Every time reads back from its timestamp.
pub read_timestamp-to_srt_timestamp :
    (t : SubtitleTime) → read_timestamp (to_srt_timestamp t) ≡ t.millis
unfolding read_timestamp to_srt_timestamp read_from
read_timestamp-to_srt_timestamp t =
    let m = t.millis in
    let h = m / 3600000 in
    let mm = m % 3600000 / 60000 in
    let ss = m % 60000 / 1000 in
    read_padded 2 0 h
      (b':' ∷ (padded 2 mm ++ (b':' ∷ (padded 2 ss ++ (b',' ∷ padded 3 (m % 1000))))))
    ∙ read_padded 2 ((0 + h) * 60) mm (b':' ∷ (padded 2 ss ++ (b',' ∷ padded 3 (m % 1000))))
    ∙ read_padded 2 (((0 + h) * 60 + mm) * 60) ss (b',' ∷ padded 3 (m % 1000))
    ∙ ap (read_from ((((0 + h) * 60 + mm) * 60 + ss) * 1000) 0)
        (sym (append-nil (padded 3 (m % 1000))))
    ∙ read_padded 3 ((((0 + h) * 60 + mm) * 60 + ss) * 1000) (m % 1000) []
    ∙ omega arith
