-- ===== src/Communication/VoiceService/Filter.antt =====
-- VoiceService.cpp: which voices pass a filter.
use mathlib.Core.List.{Mem, Sublist, filter, mem-filter, filter-sublist}
use mathlib.Core.Path.{subst}
use mathlib.Core.Logic.{if_pos, if_neg}
use edge_tts_cpp.Base.{
  Bool, true, false, Option, none, some, List, [], ◌∷◌, bytes_eq, bytes_eq_refl, bytes_eq_sound,
  if◌then◌else◌, ◌≡◌, ◌↔◌, inl, inr, refl, ◌∙◌, sym, arith, Bool-cases,
}
use edge_tts_cpp.Common.Error.{Result, ok, fail, Result-cases}
use edge_tts_cpp.Communication.Config.{EdgeServiceConfig}
use edge_tts_cpp.Communication.Platform.{Float}
use edge_tts_cpp.Communication.VoiceService.{
  HttpResponse, HttpHost, VoiceFilter, ServiceState, differs, is_removed, remove, is_set,
  read_voices, list_voices,
}
use edge_tts_cpp.Communication.VoiceService.Requests.{Answers, list_voices-requests}
use edge_tts_cpp.Core.Voice.{Voice, gender_eq, gender_eq_sound, gender_eq_refl}
use edge_tts_cpp.Serialization.Json.{JsonLibrary}
use edge_tts_cpp.Serialization.VoiceJson.{parse_voice_list}

-- A condition holds if it is not set.
abbrev pub Meets : {A : Type 0} → Option A → A → Type 0
Meets none a = Unit
Meets (some wanted) a = a ≡ wanted

abbrev pub Matches : VoiceFilter → Voice → Type 0
Matches wanted v =
    Meets wanted.locale v.locale
    × Meets wanted.gender v.gender
    × Meets wanted.short_name v.short_name

differs_iff :
    {A : Type 0} (eq : A → A → Bool)
    → ((a b : A) → eq a b ≡ true → a ≡ b)
    → ((a : A) → eq a a ≡ true)
    → (o : Option A) (a : A) → (differs eq o a ≡ false) ↔ Meets o a
unfolding differs
differs_iff eq sound same none a = (λ h. tt, λ h. refl)
differs_iff eq sound same (some b) a = (λ h. ground (arith, sound a b), λ e. ground (arith, same a))

is_removed_iff :
    (wanted : VoiceFilter) (v : Voice) → (is_removed wanted v ≡ false) ↔ Matches wanted v
unfolding is_removed
is_removed_iff wanted v =
    let l = differs_iff bytes_eq bytes_eq_sound bytes_eq_refl wanted.locale v.locale in
    let g = differs_iff gender_eq gender_eq_sound gender_eq_refl wanted.gender v.gender in
    let n = differs_iff bytes_eq bytes_eq_sound bytes_eq_refl wanted.short_name v.short_name in
    (
      λ h. (l.0 (ground arith), g.0 (ground arith), n.0 (ground arith)),
      λ (hl, hg, hn). ground (arith, l.1 hl, g.1 hg, n.1 hn),
    )

module _ (wanted : VoiceFilter) where
  decide : (v : Voice) → Dec (Matches wanted v)
  decide v = elim (Bool-cases (is_removed wanted v)) [
    | inr kept ↦ yes ((is_removed_iff wanted v).0 kept)
    | inl removed ↦ no λ m. let kept = (is_removed_iff wanted v).1 m in ground arith
  ]

  remove-filter : (vs : List Voice) → remove wanted vs ≡ filter decide vs
  unfolding remove
  remove-filter [] = refl
  remove-filter (v ∷ vs) = elim (decide v) [
    | yes m ↦
        rw (if_pos (decide v) m) (ground (arith, (is_removed_iff wanted v).1 m, remove-filter vs))
    | no n ↦ elim (Bool-cases (is_removed wanted v)) [
      | inl r ↦ rw (if_neg (decide v) n) (ground (arith, remove-filter vs))
      | inr k ↦ absurd (n ((is_removed_iff wanted v).0 k))
    ]
  ]

  remove-unset : (vs : List Voice) → is_set wanted ≡ false → remove wanted vs ≡ vs
  unfolding is_set remove is_removed differs
  remove-unset [] h = refl
  remove-unset (v ∷ vs) h = ground (arith, remove-unset vs h)

  filtered : (vs : List Voice) → (if is_set wanted then remove wanted vs else vs) ≡ filter decide vs
  filtered vs = elim (Bool-cases (is_set wanted)) [
    | inl q ↦ rw q (remove-filter vs)
    | inr q ↦ rw q (sym (remove-unset vs q) ∙ remove-filter vs)
  ]

  read_voices-voices :
      (J : JsonLibrary) (last : Result HttpResponse) (vs : List Voice)
      → read_voices J wanted last ≡ ok vs
      → (response : HttpResponse) × (all : List Voice) × (last ≡ ok response)
        × (parse_voice_list J response.body ≡ ok all)
        × (vs ≡ filter decide all)
  unfolding read_voices
  read_voices-voices J (fail x) vs e = cc
  read_voices-voices J (ok response) vs e = elim (Result-cases (parse_voice_list J response.body)) [
    | inr (x, q) ↦ grind arith
    | inl (all, q) ↦ (response, all, refl, q, ground (arith, filtered all))
  ]

-- When `list_voices` returns voices, its last request is answered by a response. The voices are voices
-- of the list in the body of that response, in the order of that list, and a voice is among them
-- exactly when it is in the list and meets each condition of the filter that is set: its locale, its
-- gender and its short name.
pub list_voices-Matches :
    (f : Float) (h : HttpHost f) (config : EdgeServiceConfig) (J : JsonLibrary)
    (wanted : VoiceFilter) (s : ServiceState f h) (vs : List Voice)
    → (list_voices f h config J wanted s).0 ≡ ok vs
    → (response : HttpResponse) × (all : List Voice) × Answers f h config s.log
        (list_voices f h config J wanted s).1.log
        (ok response)
      × (parse_voice_list J response.body ≡ ok all)
      × Sublist vs all
      × ((v : Voice) → Mem v vs ↔ (Mem v all × Matches wanted v))
list_voices-Matches f h config J wanted s vs e =
    let (last, answers, read, status) = list_voices-requests f h config J wanted s in
    let (response, all, q, parsed, kept) = read_voices-voices wanted J last vs (sym read ∙ e) in
    (
      response,
      all,
      subst (Answers f h config s.log (list_voices f h config J wanted s).1.log) q answers,
      parsed,
      rw kept (filter-sublist (decide wanted)),
      λ v. rw kept (mem-filter (decide wanted)),
    )
