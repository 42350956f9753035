-- ===== src/Serialization/Protocol/RoundTrip.antt =====
-- ProtocolParser.cpp and ProtocolSerializer.cpp: a frame is read back as it was written.
use mathlib.Core.List.{cons-ne-nil}
use edge_tts_cpp.Base.{
  ℕ, zero, suc, ◌+◌, ◌≤◌, none, some, List, [], ◌∷◌, ◌++◌, Bytes, length, length-append, take, drop,
  All-append, take-length-append, drop-length-append, find, find_byte, starts_with, All, ◌≡◌, ◌≢◌,
  refl, ap, ap₂, sym, drop-drop, ◌∙◌, append_assoc, append-nil, arith,
}
use edge_tts_cpp.Common.Error.{ok}
use edge_tts_cpp.Serialization.Protocol.{
  crlf, separator, parse_line, add_line, parse_headers, parse, serialize_headers, serialize,
}

-- No carriage return.
abbrev pub IsLine : Bytes → Type 0
IsLine = All (λ c. c ≢ 13)

abbrev pub IsHeader : Bytes × Bytes → Type 0
IsHeader (name, value) = IsLine name × All (λ c. c ≢ b':') name × IsLine value

pub find_byte-append :
    (c : ℕ) (s t : Bytes) → All (λ x. x ≢ c) s → find_byte c (s ++ c ∷ t) ≡ some (length s)
unfolding find_byte
find_byte-append c [] t h = ground arith
find_byte-append c (x ∷ s) t (h, hs) = ground (arith, find_byte-append c s t hs)

-- The first line ends at the first carriage return.
find-crlf-append : (s t : Bytes) → IsLine s → find crlf (s ++ (crlf ++ t)) ≡ some (length s)
unfolding find starts_with
find-crlf-append [] t h = refl
find-crlf-append (x ∷ s) t (h, hs) = ground (arith, find-crlf-append s t hs)

find-crlf-none : (s : Bytes) → IsLine s → find crlf s ≡ none
unfolding find starts_with
find-crlf-none [] h = refl
find-crlf-none (x ∷ s) (h, hs) = ground (arith, find-crlf-none s hs)

abbrev line_of : Bytes × Bytes → Bytes
line_of (name, value) = name ++ b':' ∷ value

-- The header section: the lines with `crlf` between them.
abbrev pub section_of : Bytes × Bytes → List (Bytes × Bytes) → Bytes
section_of h [] = line_of h
section_of h (k ∷ hs) = line_of h ++ (crlf ++ section_of k hs)

serialize_headers-section :
    (h : Bytes × Bytes) (hs : List (Bytes × Bytes)) (t : Bytes)
    → serialize_headers (h ∷ hs) ++ t ≡ section_of h hs ++ (crlf ++ t)
unfolding serialize_headers
serialize_headers-section (n, v) [] t = append_assoc (n ++ b':' ∷ v) crlf t
serialize_headers-section (n, v) (k ∷ hs) t =
    append_assoc (n ++ b':' ∷ v) (crlf ++ serialize_headers (k ∷ hs)) t
    ∙ ap (λ w. (n ++ b':' ∷ v) ++ (crlf ++ w)) (serialize_headers-section k hs t)
    ∙ sym (append_assoc (n ++ b':' ∷ v) (crlf ++ section_of k hs) (crlf ++ t))

line_of-IsLine : (h : Bytes × Bytes) → IsHeader h → IsLine (line_of h)
line_of-IsLine (n, v) (hn, hc, hv) = All-append _ n (b':' ∷ v) hn (ground arith, hv)

line_of-head :
    (h : Bytes × Bytes) → IsHeader h → (c : ℕ) × (s : Bytes) × (line_of h ≡ c ∷ s) × (c ≢ 13)
line_of-head ([], v) h = (b':', v, refl, ground arith)
line_of-head (x ∷ n, v) h = (x, n ++ b':' ∷ v, refl, h.0.0)

drop_behind : (s t : Bytes) (k : ℕ) → drop (length s + k) (s ++ t) ≡ drop k t
drop_behind s t k = rw (← drop-drop (length s) k (s ++ t), drop-length-append)

parse_line-line_of : (h : Bytes × Bytes) → IsHeader h → parse_line (line_of h) ≡ ok h
unfolding parse_line
parse_line-line_of (n, v) (hn, hc, hv) =
    rw (find_byte-append b':' n v hc, parse_line)
      (ap ok (ap₂ (λ a b. (a, b)) (take-length-append n _) (drop_behind n (b':' ∷ v) 1)))

find-separator-skip :
    (s t : Bytes) (i : ℕ)
    → IsLine s
    → find separator t ≡ some i
    → find separator (s ++ t) ≡ some (length s + i)
unfolding find starts_with
find-separator-skip [] t i h e = e ∙ ap some (omega arith)
find-separator-skip (x ∷ s) t i (h, hs) e = ground (arith, find-separator-skip s t i hs e)

find-separator-crlf :
    (c : ℕ) (t : Bytes) (i : ℕ)
    → c ≢ 13
    → find separator (c ∷ t) ≡ some i
    → find separator (13 ∷ 10 ∷ c ∷ t) ≡ some (suc (suc i))
unfolding find starts_with
find-separator-crlf c t i h e = ground arith

find-separator-here : (t : Bytes) → find separator (separator ++ t) ≡ some 0
unfolding find starts_with
find-separator-here t = refl

section_of-head :
    (h : Bytes × Bytes) (hs : List (Bytes × Bytes)) (t : Bytes)
    → IsHeader h
    → (c : ℕ) × (s : Bytes) × (section_of h hs ++ t ≡ c ∷ s) × (c ≢ 13)
section_of-head h [] t a = let (c, s, e, n) = line_of-head h a in (c, s ++ t, rw e, n)
section_of-head h (k ∷ hs) t a =
    let (c, s, e, n) = line_of-head h a in (c, (s ++ (crlf ++ section_of k hs)) ++ t, rw e, n)

-- The separator is found behind the last header.
find-separator :
    (h : Bytes × Bytes) (hs : List (Bytes × Bytes)) (body : Bytes)
    → All IsHeader (h ∷ hs)
    → find separator (section_of h hs ++ (separator ++ body)) ≡ some (length (section_of h hs))
find-separator h [] body (a, as') =
    find-separator-skip (line_of h) (separator ++ body) 0 (line_of-IsLine h a)
      (find-separator-here body)
    ∙ ap some (omega arith)
find-separator h (k ∷ hs) body (a, as') =
    let t = section_of k hs ++ (separator ++ body) in
    let (c, s, e, n) = section_of-head k hs (separator ++ body) as'.0 in
    let later : find separator (13 ∷ 10 ∷ t) ≡ some (suc (suc (length (section_of k hs)))) =
      rw e (find-separator-crlf c s _ n (rw e at (find-separator k hs body as'))) in
    ap (find separator) (append_assoc (line_of h) (crlf ++ section_of k hs) (separator ++ body))
    ∙ find-separator-skip (line_of h) (13 ∷ 10 ∷ t) _ (line_of-IsLine h a) later
    ∙ ap some (sym (length-append (line_of h) (crlf ++ section_of k hs)))

parse_headers-last :
    (fuel : ℕ) (w : Bytes)
    → w ≢ []
    → find crlf w ≡ none
    → parse_headers (suc fuel) w ≡ add_line w (ok [])
unfolding parse_headers
parse_headers-last fuel [] h e = absurd (h refl)
parse_headers-last fuel (c ∷ s) h e = rw (e, parse_headers)

parse_headers-next :
    (fuel : ℕ) (w : Bytes) (p : ℕ)
    → w ≢ []
    → find crlf w ≡ some p
    → parse_headers (suc fuel) w ≡ add_line (take p w) (parse_headers fuel (drop (p + 2) w))
unfolding parse_headers
parse_headers-next fuel [] p h e = absurd (h refl)
parse_headers-next fuel (c ∷ s) p h e = rw (e, parse_headers)

section_of-ne-nil :
    (h : Bytes × Bytes) (hs : List (Bytes × Bytes)) → IsHeader h → section_of h hs ≢ []
section_of-ne-nil h hs a e =
    let (c, s, q, n) = section_of-head h hs [] a in
    cons-ne-nil c s (sym q ∙ append-nil (section_of h hs) ∙ e)

add_line-ok :
    {h : Bytes × Bytes} (c : ℕ) (s : Bytes) (hs : List (Bytes × Bytes))
    → parse_line (c ∷ s) ≡ ok h
    → add_line (c ∷ s) (ok hs) ≡ ok (h ∷ hs)
unfolding add_line
add_line-ok c s hs p = rw (p, add_line)

add_line-line_of :
    (h : Bytes × Bytes) (hs : List (Bytes × Bytes))
    → IsHeader h
    → add_line (line_of h) (ok hs) ≡ ok (h ∷ hs)
add_line-line_of h hs a =
    let (c, s, e, n) = line_of-head h a in
    let p : parse_line (c ∷ s) ≡ ok h = rw e at (parse_line-line_of h a) in
    rw e (add_line-ok c s hs p)

parse_headers-section :
    (fuel : ℕ) (h : Bytes × Bytes) (hs : List (Bytes × Bytes))
    → All IsHeader (h ∷ hs)
    → length (section_of h hs) ≤ fuel
    → parse_headers fuel (section_of h hs) ≡ ok (h ∷ hs)
parse_headers-section zero h hs a l =
    let (c, s, e, n) = section_of-head h hs [] a.0 in
    absurd (omega (arith, ap length e, length-append (section_of h hs) []))
parse_headers-section (suc fuel) h [] (a, as') l =
    parse_headers-last fuel (line_of h) (section_of-ne-nil h [] a)
      (find-crlf-none (line_of h) (line_of-IsLine h a))
    ∙ add_line-line_of h [] a
parse_headers-section (suc fuel) h (k ∷ hs) (a, as') l =
    let rest = section_of k hs in
    parse_headers-next fuel (line_of h ++ (crlf ++ rest)) (length (line_of h))
      (section_of-ne-nil h (k ∷ hs) a) (find-crlf-append (line_of h) rest (line_of-IsLine h a))
    ∙ ap₂ add_line (take-length-append (line_of h) (crlf ++ rest)) (
        ap (parse_headers fuel) (drop_behind (line_of h) (crlf ++ rest) 2)
        ∙ parse_headers-section fuel k hs as'
            (omega (arith, length-append (line_of h) (crlf ++ rest))))
    ∙ add_line-line_of h (k ∷ hs) a

parse-found :
    (frame section body : Bytes) (hs : List (Bytes × Bytes))
    → frame ≡ section ++ (separator ++ body)
    → find separator frame ≡ some (length section)
    → parse_headers (length section) section ≡ ok hs
    → parse frame ≡ ok (record { headers = hs; body = body })
unfolding parse
parse-found frame section body hs e f g =
    rw (f, parse, e, take-length-append, drop_behind section (separator ++ body) 4, g)

-- A message with at least one header, whose names and values hold no carriage return and whose
-- names hold no colon, is read back from its frame, whatever the body.
pub parse-serialize :
    (h : Bytes × Bytes) (hs : List (Bytes × Bytes)) (body : Bytes)
    → All IsHeader (h ∷ hs)
    → parse (serialize (record { headers = h ∷ hs; body = body }))
      ≡ ok (record { headers = h ∷ hs; body = body })
parse-serialize h hs body a =
    let e : serialize (record { headers = h ∷ hs; body = body })
        ≡ section_of h hs ++ (separator ++ body) =
      unfold serialize in serialize_headers-section h hs (crlf ++ body) in
    parse-found _ (section_of h hs) body (h ∷ hs) e
      (ap (find separator) e ∙ find-separator h hs body a)
      (parse_headers-section (length (section_of h hs)) h hs a (omega arith))

-- A header section alone, with the separator behind it.
pub parse_section :
    (h : Bytes × Bytes) (hs : List (Bytes × Bytes))
    → All IsHeader (h ∷ hs)
    → parse (section_of h hs ++ separator) ≡ ok (record { headers = h ∷ hs; body = [] })
parse_section h hs a =
    ap (λ t. parse (section_of h hs ++ t)) (sym (append-nil separator))
    ∙ parse-found _ (section_of h hs) [] (h ∷ hs) refl (find-separator h hs [] a)
        (parse_headers-section (length (section_of h hs)) h hs a (omega arith))
