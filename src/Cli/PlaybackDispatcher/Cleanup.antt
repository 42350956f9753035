-- ===== src/Cli/PlaybackDispatcher/Cleanup.antt =====
-- PlaybackCommandDispatcher.cpp: the temporary files.
use edge_tts_cpp.Base.{
  ℕ, Bool, true, false, Option, none, some, List, [], ◌∷◌, ◌++◌, append_assoc, append-nil, Bytes,
  ◌≡◌, refl, ap, ◌∙◌, sym, arith, Option-cases, ◌⊎◌, inl, inr, codes, lit, Bool-cases,
}
use edge_tts_cpp.Api.Host.{Host}
use edge_tts_cpp.Api.SpeechSynthesizer.{Event, SpeechSynthesizer, construct}
use edge_tts_cpp.Api.SpeechSynthesizer
use edge_tts_cpp.Cli.Console.{
  Terminal, Console, Action, synthesized, played, removed, complain, act, exit_with, load,
  config_of, options_of,
}
use edge_tts_cpp.Cli.Playback.{PlaybackArguments}
use edge_tts_cpp.Cli.PlaybackDispatcher.{
  remove, clean_up, play_file, save_and_play, guarded, with_temp_files, dispatch_play,
}
use edge_tts_cpp.Common.Error.{ok, fail}

-- The removals of the guard.
unfoldable pub removals : Bool → Bytes → Option Bytes → List Action
removals true mp3 srt = []
removals false mp3 none = removed mp3 ∷ []
removals false mp3 (some path) = removed mp3 ∷ removed path ∷ []

module _ (h : Host) (t : Terminal h) where
  clean_up-log :
      (keep_temp : Bool) (mp3 : Bytes) (srt : Option Bytes) (c : Console h t)
      → (clean_up h t keep_temp mp3 srt c).log ≡ c.log ++ removals keep_temp mp3 srt
  unfolding clean_up remove act removals
  clean_up-log true mp3 srt c = sym (append-nil c.log)
  clean_up-log false mp3 none c = refl
  clean_up-log false mp3 (some path) c = append_assoc c.log (removed mp3 ∷ []) (removed path ∷ [])

  -- What is done before the removals: the synthesis, and the playing only after a save that succeeded.
  abbrev pub Runs : Bytes → List Action → List Action → ℕ → Type 0
  Runs mp3 before after code =
      (events : List Event) × (((code ≡ 1) × (after ≡ before ++ synthesized events ∷ []))
        ⊎ (after ≡ before ++ synthesized events ∷ played mp3 ∷ []))

  play_file-log :
      (mp3 : Bytes) (c : Console h t) → (play_file h t mp3 c).1.log ≡ c.log ++ played mp3 ∷ []
  unfolding play_file exit_with complain act
  play_file-log mp3 c = ground arith

  save_and_play-Runs :
      (mp3 : Bytes) (srt : Option Bytes) (s : SpeechSynthesizer h) (c c' : Console h t) (code : ℕ)
      → save_and_play h t mp3 srt s c ≡ some (code, c')
      → Runs mp3 c.log c'.log code
  unfolding save_and_play exit_with complain act
  save_and_play-Runs mp3 srt s c c' code e =
      elim (Option-cases (SpeechSynthesizer.save h mp3 srt (record s { world = c.world }))) [
        | inl q ↦ grind arith
        | inr ((fail x, s1), q) ↦ (s1.log, inl (ground arith, ground arith))
        | inr ((ok u, s1), q) ↦
            let c1 = act h t (synthesized s1.log) s1.world c in
            let p : play_file h t mp3 c1 ≡ (code, c') = ground arith in
            (
              s1.log,
              inr (
                  sym (ap (λ k. k.1.log) p)
                  ∙ play_file-log mp3 c1
                  ∙ append_assoc c.log (synthesized s1.log ∷ []) (played mp3 ∷ [])),
            )
      ]

  -- A run behind the construction of the guard, with its destructor.
  abbrev pub IsCleaned : Bool → Bytes → Option Bytes → List Action → List Action → ℕ → Type 0
  IsCleaned keep_temp mp3 srt before after code =
      (run : List Action) × Runs mp3 before run code × (after ≡ run ++ removals keep_temp mp3 srt)

  guarded-IsCleaned :
      (keep_temp : Bool) (mp3 : Bytes) (srt : Option Bytes) (s : SpeechSynthesizer h)
      (c c' : Console h t) (code : ℕ)
      → guarded h t keep_temp mp3 srt s c ≡ some (code, c')
      → IsCleaned keep_temp mp3 srt c.log c'.log code
  unfolding guarded
  guarded-IsCleaned keep_temp mp3 srt s c c' code e =
      elim (Option-cases (save_and_play h t mp3 srt s c)) [
        | inl q ↦ grind arith
        | inr ((code1, c1), q) ↦
            let same : code1 ≡ code = ground arith in
            let cleaned : clean_up h t keep_temp mp3 srt c1 ≡ c' = ground arith in
            (
              c1.log,
              save_and_play-Runs mp3 srt s c c1 code (rw (← same) q),
              sym (ap (λ (k : Console h t). k.log) cleaned) ∙ clean_up-log keep_temp mp3 srt c1,
            )
      ]

  -- The provider has given these paths, one after the other.
  abbrev pub AreGiven : h.World → Bytes → Option Bytes → Type 0
  AreGiven w mp3 srt =
      ((t.temp_path (codes ".mp3") w).0 ≡ some (some mp3))
      × ((t.temp_path (codes ".srt") (t.temp_path (codes ".mp3") w).1).0 ≡ some srt)

  with_temp_files-IsCleaned :
      (keep_temp : Bool) (text : Bytes) (args : PlaybackArguments) (c c' : Console h t) (code : ℕ)
      → with_temp_files h t keep_temp text args c ≡ some (code, c')
      → ((code ≡ 1) × (c'.log ≡ c.log))
        ⊎ ((mp3 : Bytes) × (srt : Option Bytes) × AreGiven c.world mp3 srt
            × IsCleaned keep_temp mp3 srt c.log c'.log code)
  unfolding with_temp_files complain
  with_temp_files-IsCleaned keep_temp text args c c' code e =
      elim (Option-cases (t.temp_path (codes ".mp3") c.world).0) [
        | inl q ↦ grind arith
        | inr (none, q) ↦ inl (ground arith, ground arith)
        | inr (some mp3, q) ↦
            let w = (t.temp_path (codes ".srt") (t.temp_path (codes ".mp3") c.world).1).1 in
            elim (Option-cases
              (t.temp_path (codes ".srt") (t.temp_path (codes ".mp3") c.world).1).0) [
                | inl p ↦ grind arith
                | inr (srt, p) ↦
                    let synthesizer =
                      construct h text (config_of args.voice args.rate args.volume args.pitch)
                        (options_of args.proxy) w in
                    inr (
                      mp3,
                      srt,
                      (q, p),
                      guarded-IsCleaned keep_temp mp3 srt synthesizer (record c { world = w }) c'
                          code (ground arith),
                    )
              ]
      ]

-- A playback command that returns has either failed with the code 1 before it had a temporary path,
-- and then has done nothing to the files, or it has got its paths from the provider, has synthesized,
-- has played the media file or returns 1, and as its last actions has removed the media file and the
-- subtitle file, if it had a path for one; if the files are to be kept it removes nothing.
pub dispatch_play-IsCleaned :
    (h : Host) (t : Terminal h) (keep_temp : Bool) (args : PlaybackArguments) (c c' : Console h t)
    (code : ℕ)
    → dispatch_play h t keep_temp args c ≡ some (code, c')
    → ((code ≡ 1) × (c'.log ≡ c.log))
      ⊎ ((w : h.World) × (mp3 : Bytes) × (srt : Option Bytes) × AreGiven h t w mp3 srt
          × IsCleaned h t keep_temp mp3 srt c.log c'.log code)
unfolding dispatch_play complain exit_with
dispatch_play-IsCleaned h t keep_temp args c c' code e = elim (Bool-cases args.use_mpv) [
  | inl q ↦ inl (ground arith, ground arith)
  | inr q ↦
      let loaded =
        load h t (lit "No input: provide --text or --file") args.text args.file c.world in
      elim (Option-cases loaded.0) [
        | inl l ↦ grind arith
        | inr (fail x, l) ↦ inl (ground arith, ground arith)
        | inr (ok text, l) ↦
            elim (with_temp_files-IsCleaned h t keep_temp text args (record c { world = loaded.1 })
              c' code (ground arith)) [
                | inl failed ↦ inl failed
                | inr (mp3, srt, given, cleaned) ↦ inr (loaded.1, mp3, srt, given, cleaned)
              ]
      ]
]
