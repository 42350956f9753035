-- ===== src/Core/TtsConfig/Normalization.antt =====
-- TtsConfig.cpp: normalized names of voices.
use edge_tts_cpp.Base.{
  ℕ, zero, suc, ◌+◌, ◌-◌, ◌≤◌, ◌<◌, Bool, true, ◌&&◌, some, [], ◌∷◌, ◌++◌, Bytes, codes, length,
  length-append, take, drop, take-append-drop, length-drop, length-take, length-take-le,
  drop-length-append, find_byte, starts_with, bytes_eq_refl, bytes_eq_sound, append_assoc, ◌≡◌,
  refl, sym, ap, ◌∙◌, inl, inr, arith, leb, Bool-cases, Option-cases, &&_true,
}
use edge_tts_cpp.Core.TtsConfig.{
  TtsConfig, is_dot, all_dots, comma_later, ends_with, matches_full_voice, is_lower, is_upper, span,
  group_dash, is_neural, ShortVoice, match_short_voice, move_dash, full_name, normalize_voice_name,
  validate_tts_config, validate,
}
use edge_tts_cpp.Common.Error.{ok, Result-cases}

all_dots-append : (s t : Bytes) → all_dots s ≡ true → all_dots t ≡ true → all_dots (s ++ t) ≡ true
unfolding all_dots
all_dots-append [] t h k = k
all_dots-append (c ∷ s) t h k = ground (arith, all_dots-append s t)

all_dots-take : (n : ℕ) (s : Bytes) → all_dots s ≡ true → all_dots (take n s) ≡ true
unfolding all_dots
all_dots-take zero s h = refl
all_dots-take (suc n) [] h = refl
all_dots-take (suc n) (c ∷ s) h = ground (arith, all_dots-take n s)

all_dots-drop : (n : ℕ) (s : Bytes) → all_dots s ≡ true → all_dots (drop n s) ≡ true
unfolding all_dots
all_dots-drop zero s h = h
all_dots-drop (suc n) [] h = refl
all_dots-drop (suc n) (c ∷ s) h = ground (arith, all_dots-drop n s)

span_dots :
    (p : ℕ → Bool) (s : Bytes)
    → ((c : ℕ) → p c ≡ true → is_dot c ≡ true)
    → all_dots (span p s).0 ≡ true
unfolding span all_dots
span_dots p [] h = refl
span_dots p (c ∷ s) h = elim (Bool-cases (p c)) [
  | inl e ↦ rw e (ground (arith, h c e, span_dots p s h))
  | inr e ↦ rw e refl
]

lower_dots : (c : ℕ) → is_lower c ≡ true → is_dot c ≡ true
unfolding is_lower is_dot
lower_dots c h = ground arith

upper_dots : (c : ℕ) → is_upper c ≡ true → is_dot c ≡ true
unfolding is_upper is_dot
upper_dots c h = ground arith

-- A group of the expression: two bytes or more, each a dot.
abbrev IsGroup : Bytes → Type 0
IsGroup g = (all_dots g ≡ true) × (2 ≤ length g)

group_dash-IsGroup :
    (p : ℕ → Bool) (s g rest : Bytes)
    → ((c : ℕ) → p c ≡ true → is_dot c ≡ true)
    → group_dash p s ≡ some (g, rest)
    → IsGroup g
unfolding group_dash
group_dash-IsGroup p s g rest h e =
    let dots = span_dots p s h in
    elim (Bool-cases (leb 2 (length (span p s).0) && starts_with (codes "-") (span p s).1)) [
      | inl t ↦ grind arith
      | inr t ↦ grind arith
    ]

ends_with-append : (s t : Bytes) → ends_with (s ++ t) t ≡ true
unfolding ends_with
ends_with-append s t =
    let n : length (s ++ t) - length t ≡ length s = omega (arith, length-append s t) in
    let l : leb (length t) (length (s ++ t)) ≡ true = ground (arith, length-append s t) in
    rw (n, l, drop-length-append s t) (bytes_eq_refl t)

ends_with-split : (s t : Bytes) → ends_with s t ≡ true → s ≡ take (length s - length t) s ++ t
unfolding ends_with
ends_with-split s t h =
    let (l, e) = &&_true _ _ h in
    sym (take-append-drop (length s - length t) s)
    ∙ ap (λ x. take (length s - length t) s ++ x) (bytes_eq_sound _ t e)

-- The first dash of a name that ends in "Neural" stands before that.
find_byte-neural :
    (pre : Bytes) (i : ℕ) → find_byte b'-' (pre ++ codes "Neural") ≡ some i → i < length pre
unfolding find_byte
find_byte-neural [] i e = grind arith
find_byte-neural (c ∷ pre) i e = elim (Option-cases (find_byte b'-' (pre ++ codes "Neural"))) [
  | inl q ↦ ground arith
  | inr (j, q) ↦ ground (arith, find_byte-neural pre j q)
]

comma_later-append :
    (s name : Bytes) (c : ℕ) → comma_later (s ++ (codes ", " ++ ((c ∷ name) ++ codes ")"))) ≡ true
unfolding comma_later starts_with
comma_later-append [] name c = ground (arith, length-append name (codes ")"))
comma_later-append (x ∷ s) name c = ground (arith, comma_later-append s name c)

-- What a full name needs of its parts.
abbrev IsVoice : ShortVoice → Type 0
IsVoice v =
    IsGroup v.lang × (all_dots v.region ≡ true) × (all_dots v.name ≡ true) × (1 ≤ length v.name)

neural_name :
    (name : Bytes)
    → is_neural name ≡ true
    → (all_dots name ≡ true) × (ends_with name (codes "Neural") ≡ true) × (7 ≤ length name)
unfolding is_neural
neural_name name h = ground arith

match_short_voice-IsVoice :
    (voice : Bytes) (v : ShortVoice)
    → match_short_voice voice ≡ some v
    → IsVoice v × (is_neural v.name ≡ true)
unfolding match_short_voice
match_short_voice-IsVoice voice v e = elim (Option-cases (group_dash is_lower voice)) [
  | inl q ↦ grind arith
  | inr ((lang, rest), q) ↦ elim (Option-cases (group_dash is_upper rest)) [
    | inl q1 ↦ grind arith
    | inr ((region, name), q1) ↦
        let l = group_dash-IsGroup is_lower voice lang rest lower_dots q in
        let r = group_dash-IsGroup is_upper rest region name upper_dots q1 in
        elim (Bool-cases (is_neural name)) [
          | inl n ↦
              let (d, e1, long) = neural_name name n in
              let same : v ≡ record { lang = lang; region = region; name = name } = ground arith in
              rw same ((l, r.0, d, omega arith), n)
          | inr n ↦ grind arith
        ]
  ]
]

dash-dots : (s : Bytes) → all_dots s ≡ true → all_dots (b'-' ∷ s) ≡ true
unfolding all_dots is_dot
dash-dots s h = h

move_dash-IsVoice : (v : ShortVoice) → IsVoice v → is_neural v.name ≡ true → IsVoice (move_dash v)
unfolding move_dash
move_dash-IsVoice v h n = elim (Option-cases (find_byte b'-' v.name)) [
  | inl q ↦ rw (q, move_dash) h
  | inr (i, q) ↦
      let (d, e, long) = neural_name v.name n in
      let pre = take (length v.name - 6) v.name in
      let split : v.name ≡ pre ++ codes "Neural" = ends_with-split v.name (codes "Neural") e in
      let early : i < length pre = find_byte-neural pre i (sym (ap (find_byte b'-') split) ∙ q) in
      rw (q, move_dash)
        (
          h.0,
          all_dots-append v.region (b'-' ∷ take i v.name) h.1
              (dash-dots (take i v.name) (all_dots-take i v.name d)),
          all_dots-drop (i + 1) v.name d,
          omega (
            arith,
            length-drop (i + 1) v.name,
            length-take-le (length v.name - 6) v.name,
            length-take (length v.name - 6) v.name,
          ),
        )
]

-- The part of a full name behind the bracket.
abbrev inner : Bytes → Bytes → Bytes → Bytes
inner lang region name = lang ++ (b'-' ∷ (region ++ (codes ", " ++ (name ++ codes ")"))))

inner_ends : (lang region name : Bytes) → ends_with (inner lang region name) (codes ")") ≡ true
inner_ends lang region name =
    let regroup =
      ap (λ x. lang ++ b'-' ∷ x) (append_assoc region (codes ", " ++ name) (codes ")")) in
    ap (λ s. ends_with s (codes ")"))
      (sym (append_assoc lang (b'-' ∷ (region ++ (codes ", " ++ name))) (codes ")") ∙ regroup))
    ∙ ends_with-append (lang ++ b'-' ∷ (region ++ (codes ", " ++ name))) (codes ")")

comma-dots : (s : Bytes) → all_dots s ≡ true → all_dots (codes ", " ++ s) ≡ true
unfolding all_dots is_dot
comma-dots s h = h

bracket_dots : all_dots (codes ")") ≡ true
unfolding all_dots is_dot
bracket_dots = refl

inner_dots :
    (lang region name : Bytes)
    → all_dots lang ≡ true
    → all_dots region ≡ true
    → all_dots name ≡ true
    → all_dots (inner lang region name) ≡ true
inner_dots lang region name hl hr hn = all_dots-append lang _ hl (
    dash-dots _
      (all_dots-append region _ hr (comma-dots _ (all_dots-append name _ hn bracket_dots))))

inner_comma :
    (lang region name : Bytes)
    → 2 ≤ length lang
    → 1 ≤ length name
    → comma_later (drop 1 (inner lang region name)) ≡ true
inner_comma [] region name h k = absurd (omega arith)
inner_comma lang region [] h k = absurd (omega arith)
inner_comma (c ∷ lang) region (d ∷ name) h k =
    ap comma_later
      (sym (append_assoc lang (b'-' ∷ region) (codes ", " ++ ((d ∷ name) ++ codes ")"))))
    ∙ comma_later-append (lang ++ b'-' ∷ region) name d

full_name-matches : (v : ShortVoice) → IsVoice v → matches_full_voice (full_name v) ≡ true
unfolding matches_full_voice full_name starts_with
full_name-matches v h =
    rw
      (
        inner_dots v.lang v.region v.name h.0.0 h.1 h.2,
        inner_ends v.lang v.region v.name,
        inner_comma v.lang v.region v.name h.0.1 h.3,
      )
      refl

normalize-full :
    (voice : Bytes) → matches_full_voice voice ≡ true → normalize_voice_name voice ≡ some voice
unfolding normalize_voice_name
normalize-full voice h = rw h refl

normalize-cases :
    (voice full : Bytes) → normalize_voice_name voice ≡ some full → matches_full_voice full ≡ true
unfolding normalize_voice_name
normalize-cases voice full e = elim (Bool-cases (matches_full_voice voice)) [
  | inl m ↦
      let same : some voice ≡ some full = rw m at e in let s : full ≡ voice = ground arith in rw s m
  | inr m ↦ elim (Option-cases (match_short_voice voice)) [
    | inl q ↦ grind arith
    | inr (v, q) ↦
        let (h, n) = match_short_voice-IsVoice voice v q in
        let found : some (full_name (move_dash v)) ≡ some full = rw q at rw m at e in
        let s : full ≡ full_name (move_dash v) = ground arith in
        rw s (full_name-matches (move_dash v) (move_dash-IsVoice v h n))
  ]
]

-- A config that `validate` leaves has a full voice name, is accepted by `validate_tts_config`, differs
-- from the one before in its voice alone, and is left as it is by another `validate`.
pub validate-validate :
    (config valid : TtsConfig)
    → validate config ≡ inr valid
    → (matches_full_voice valid.voice ≡ true)
      × (validate_tts_config valid ≡ ok tt)
      × (valid ≡ record config { voice = valid.voice })
      × (validate valid ≡ inr valid)
unfolding validate
validate-validate config valid e = elim (Option-cases (normalize_voice_name config.voice)) [
  | inl q ↦ grind arith
  | inr (voice, q) ↦
      let m = normalize-cases config.voice voice q in
      let left = record config { voice = voice } in
      elim (Result-cases (validate_tts_config left)) [
        | inr (x, r) ↦ grind arith
        | inl (u, r) ↦
            let found : inr left ≡ inr valid = rw r at rw (q, validate) at e in
            let same : valid ≡ left = ground arith in
            rw same (m, r, refl, rw (normalize-full voice m, validate) (rw (r, validate) refl))
      ]
]
