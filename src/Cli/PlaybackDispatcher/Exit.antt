-- ===== src/Cli/PlaybackDispatcher/Exit.antt =====
-- PlaybackCommandDispatcher.cpp: the exit codes, and what they come with.
use edge_tts_cpp.Base.{
  ℕ, ◌≤◌, ◌<◌, Bool, true, false, Option, none, some, ◌++◌, Bytes, lit, codes, length,
  length-append, ◌≡◌, inl, inr, refl, ap, arith, Bool-cases, Option-cases,
}
use edge_tts_cpp.Api.Host.{Host}
use edge_tts_cpp.Api.SpeechSynthesizer
use edge_tts_cpp.Api.SpeechSynthesizer.{SpeechSynthesizer, construct}
use edge_tts_cpp.Cli.Console.{
  Terminal, Console, synthesized, played, print, complain, act, load, config_of, options_of,
  in_world,
}
use edge_tts_cpp.Cli.EdgeTtsDispatcher.Exit.{Says, complain-length, exit_with-Says}
use edge_tts_cpp.Cli.Playback.{
  PlaybackArguments, PlaybackParseAction, PlaybackParseResult, play, help, parse_failed,
}
use edge_tts_cpp.Cli.PlaybackDispatcher.{
  remove, clean_up, play_file, save_and_play, guarded, with_temp_files, dispatch_play,
  dispatch_action,
}
use edge_tts_cpp.Common.Error.{ok, fail, Result-cases}

module _ (h : Host) (t : Terminal h) where
  -- A command that returns has said what it returns.
  abbrev SaysWhen : Console h t → Option (ℕ × Console h t) → Type 0
  SaysWhen c o = (code : ℕ) (c' : Console h t) → o ≡ some (code, c') → Says h t c code c'

  Says-some : (c c1 : Console h t) (code : ℕ) → Says h t c code c1 → SaysWhen c (some (code, c1))
  Says-some c c1 code s code' c' e = ground arith

  clean_up-err :
      (keep_temp : Bool) (mp3 : Bytes) (srt : Option Bytes) (c : Console h t)
      → (clean_up h t keep_temp mp3 srt c).err ≡ c.err
  unfolding clean_up remove act
  clean_up-err true mp3 srt c = refl
  clean_up-err false mp3 none c = refl
  clean_up-err false mp3 (some path) c = refl

  play_file-Says :
      (mp3 : Bytes) (c c1 : Console h t)
      → length c.err ≤ length c1.err
      → Says h t c (play_file h t mp3 c1).0 (play_file h t mp3 c1).1
  unfolding play_file act
  play_file-Says mp3 c c1 g = elim (Result-cases (t.play_mp3 mp3 c1.world).0) [
    | inl (u, q) ↦ rw (q, play_file) (inl (refl, g))
    | inr (x, q) ↦
        rw (q, play_file)
          (exit_with-Says h t x c (act h t (played mp3) (t.play_mp3 mp3 c1.world).1 c1) g)
  ]

  save_and_play-Says :
      (mp3 : Bytes) (srt : Option Bytes) (s : SpeechSynthesizer h) (c : Console h t)
      → SaysWhen c (save_and_play h t mp3 srt s c)
  unfolding save_and_play act
  save_and_play-Says mp3 srt s c =
      elim (Option-cases (SpeechSynthesizer.save h mp3 srt (record s { world = c.world }))) [
        | inl q ↦ rw (q, save_and_play) λ code c' e. cc
        | inr ((fail x, s1), q) ↦
            rw (q, save_and_play)
              (Says-some c _ _
                (exit_with-Says h t x c (act h t (synthesized s1.log) s1.world c) (omega arith)))
        | inr ((ok u, s1), q) ↦
            rw (q, save_and_play)
              (Says-some c _ _
                (play_file-Says mp3 c (act h t (synthesized s1.log) s1.world c) (omega arith)))
      ]

  guarded-Says :
      (keep_temp : Bool) (mp3 : Bytes) (srt : Option Bytes) (s : SpeechSynthesizer h)
      (c : Console h t)
      → SaysWhen c (guarded h t keep_temp mp3 srt s c)
  unfolding guarded
  guarded-Says keep_temp mp3 srt s c = elim (Option-cases (save_and_play h t mp3 srt s c)) [
    | inl q ↦ rw (q, guarded) λ code c' e. cc
    | inr ((code1, c1), q) ↦
        let said = save_and_play-Says mp3 srt s c code1 c1 q in
        let same = ap length (clean_up-err keep_temp mp3 srt c1) in
        rw (q, guarded) (Says-some c (clean_up h t keep_temp mp3 srt c1) code1 (ground arith))
  ]

  with_temp_files-Says :
      (keep_temp : Bool) (text : Bytes) (args : PlaybackArguments) (c : Console h t)
      → SaysWhen c (with_temp_files h t keep_temp text args c)
  unfolding with_temp_files
  with_temp_files-Says keep_temp text args c =
      elim (Option-cases (t.temp_path (codes ".mp3") c.world).0) [
        | inl q ↦ rw (q, with_temp_files) λ code c' e. cc
        | inr (none, q) ↦
            let w = (t.temp_path (codes ".mp3") c.world).1 in
            let text = codes "error: temp file provider returned no path for .mp3\n" in
            let grown = complain-length h t text (in_world h t w c) in
            rw (q, with_temp_files)
              (Says-some c (complain h t text (in_world h t w c)) 1
                (inr (refl, omega (arith, grown))))
        | inr (some path, q) ↦
            let second = t.temp_path (codes ".srt") (t.temp_path (codes ".mp3") c.world).1 in
            elim (Option-cases second.0) [
              | inl p ↦ rw (q, with_temp_files) (rw (p, with_temp_files) λ code c' e. cc)
              | inr (srt, p) ↦
                  rw (q, with_temp_files)
                    (rw (p, with_temp_files)
                      (guarded-Says keep_temp path srt
                        (construct h text (config_of args.voice args.rate args.volume args.pitch)
                          (options_of args.proxy) second.1)
                        (in_world h t second.1 c)))
            ]
      ]

  dispatch_play-Says :
      (keep_temp : Bool) (args : PlaybackArguments) (c : Console h t)
      → SaysWhen c (dispatch_play h t keep_temp args c)
  unfolding dispatch_play
  dispatch_play-Says keep_temp args c = elim (Bool-cases args.use_mpv) [
    | inl q ↦
        let text =
          codes
            "error: --mpv is not supported in this build; only ffplay is available. Remove --mpv to use ffplay.\n" in
        rw (q, dispatch_play)
          (Says-some c (complain h t text c) 1
            (inr (refl, omega (arith, complain-length h t text c))))
    | inr q ↦
        let loaded =
          load h t (lit "No input: provide --text or --file") args.text args.file c.world in
        elim (Option-cases loaded.0) [
          | inl l ↦ rw (q, dispatch_play) (rw (l, dispatch_play) λ code c' e. cc)
          | inr (ok input, l) ↦
              rw (q, dispatch_play)
                (rw (l, dispatch_play)
                  (with_temp_files-Says keep_temp input args (in_world h t loaded.1 c)))
          | inr (fail x, l) ↦
              rw (q, dispatch_play)
                (rw (l, dispatch_play)
                  (Says-some c _ _
                    (exit_with-Says h t x c (in_world h t loaded.1 c) (omega arith))))
        ]
  ]

  -- The exit code 2 is for command lines that do not parse, and only for them.
  abbrev pub PlaybackExits : PlaybackParseAction → Console h t → ℕ → Console h t → Type 0
  PlaybackExits parse_failed c code c' = (code ≡ 2) × (length c.err < length c'.err)
  PlaybackExits help c code c' = (code ≡ 0) × (c'.err ≡ c.err)
  PlaybackExits play c code c' = Says h t c code c'

  pub PlaybackExits-dispatch_action :
      (a : PlaybackParseAction) (keep_temp : Bool) (r : PlaybackParseResult) (c c' : Console h t)
      (code : ℕ)
      → dispatch_action h t a keep_temp r c ≡ some (code, c')
      → PlaybackExits a c code c'
  unfolding dispatch_action print
  PlaybackExits-dispatch_action help keep_temp r c c' code e = ground arith
  PlaybackExits-dispatch_action parse_failed keep_temp r c c' code e =
      let text = codes "edge-playback: " ++ (r.message ++ codes "\n") in
      let grown = complain-length h t text c in
      let more : 1 ≤ length text =
        omega (arith, length-append {0} (codes "edge-playback: ") (r.message ++ codes "\n")) in
      let same : c' ≡ complain h t text c = ground arith in
      (ground arith, omega (arith, grown, more, ap (λ (k : Console h t). length k.err) same))
  PlaybackExits-dispatch_action play keep_temp r c c' code e =
      dispatch_play-Says keep_temp r.arguments c code c' e
