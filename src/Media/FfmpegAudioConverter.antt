-- ===== src/Media/FfmpegAudioConverter.antt =====
-- modules/media: FfmpegAudioConverter.cpp, over a process runner.
use edge_tts_cpp.Base.{
  suc, ℤ, pos, negsuc, false, Bool, none, some, List, [], ◌∷◌, ◌++◌, Bytes, lit, codes, to_decimal,
  ◌==◌, if◌then◌else◌,
}
use edge_tts_cpp.Common.Error.{Result, ok, fail, error, error_in, external_process_failed}
use edge_tts_cpp.Media.ExecutableDiscovery.{FileSystem, find_on_path}
use edge_tts_cpp.Media.ProcessRunner.{ProcessCommand, ProcessResult}

-- `std::to_string` of an int.
unfoldable pub int_text : ℤ → Bytes
unfolding to_decimal
int_text (pos n) = to_decimal n
int_text (negsuc n) = codes "-" ++ to_decimal (suc n)

unfoldable pub is_zero : ℤ → Bool
is_zero (pos n) = n == 0
is_zero (negsuc n) = false

-- The two operations differ in the name of the program, its arguments and its name in the messages.
unfoldable pub run_program :
    {W : Type 0}
    → FileSystem
    → (ProcessCommand → W → Result ProcessResult × W)
    → Bytes
    → Bytes
    → List Bytes
    → W
    → Result (Unit {0}) × W
unfolding find_on_path int_text is_zero
run_program fs run path_env name arguments w = elim (find_on_path fs name path_env) [
  | none ↦ (fail (error external_process_failed (name ++ lit " not found on PATH")), w)
  | some program ↦
      let (result, w') = run (record { executable = program; arguments = arguments }) w in
      elim result [
        | fail e ↦ (fail e, w')
        | ok r ↦ if is_zero r.exit_code then (ok tt, w') else (
          fail (
              error_in external_process_failed
                (name ++ (lit " exited with code " ++ int_text r.exit_code)) r.stderr_text),
          w',
        )
      ]
]

module _ {W : Type 0} (fs : FileSystem) (run : ProcessCommand → W → Result ProcessResult × W)
    (path_env : Bytes) where
  unfoldable pub play_mp3 : Bytes → W → Result (Unit {0}) × W
  unfolding run_program
  play_mp3 input =
      run_program fs run path_env (codes "ffplay")
        (codes "-nodisp" ∷ codes "-autoexit" ∷ input ∷ [])

  unfoldable pub convert : Bytes → Bytes → W → Result (Unit {0}) × W
  unfolding run_program
  convert input output =
      run_program fs run path_env (codes "ffmpeg") (codes "-y" ∷ codes "-i" ∷ input ∷ output ∷ [])
