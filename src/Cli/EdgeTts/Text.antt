-- ===== src/Cli/EdgeTts/Text.antt =====
-- EdgeTtsArgumentParser.cpp: the texts of `--help` and `--version`.
use edge_tts_cpp.Cli.Tokens.{concat, em_dash}
use edge_tts_cpp.Base.{[], ◌∷◌, Bytes, lit}

abbrev pub version_string : Bytes
version_string = lit "edge-tts-cpp 0.1.0"

unfoldable pub help_text : Bytes → Bytes
unfolding concat em_dash
help_text program_name = concat (
    lit "Usage: "
    ∷ program_name
    ∷ lit " [OPTIONS]\n"
    ∷ lit "\n"
    ∷ lit "Text-to-speech using Microsoft Edge's online TTS service.\n"
    ∷ lit "\n"
    ∷ lit "Options:\n"
    ∷ lit "  -h, --help                    Show this help message and exit\n"
    ∷ lit "      --version                 Show version information and exit\n"
    ∷ lit "  -t, --text TEXT               What TTS will say\n"
    ∷ lit "  -f, --file PATH               Same as --text but read from file;\n"
    ∷ lit "                                  use - or /dev/stdin for stdin\n"
    ∷ lit "  -l, --list-voices             List available voices and exit\n"
    ∷ lit "  -v, --voice VOICE             Voice for TTS.\n"
    ∷ lit "                                  Default: "
    ∷ lit "en-US-EmmaMultilingualNeural"
    ∷ lit "\n"
    ∷ lit "      --rate RATE               Set TTS rate. Default +0%.\n"
    ∷ lit "      --volume VOL              Set TTS volume. Default +0%.\n"
    ∷ lit "      --pitch PITCH             Set TTS pitch. Default +0Hz.\n"
    ∷ lit "      --write-media PATH        Send media output to file instead of stdout\n"
    ∷ lit "      --write-subtitles PATH    Send subtitle output to file;\n"
    ∷ lit "                                  use - to send to stderr\n"
    ∷ lit "      --proxy URL               Proxy URL "
    ∷ em_dash
    ∷ lit " parsed and validated but not\n"
    ∷ lit "                                  supported at runtime (returns exit 1 if set)\n"
    ∷ lit "\n"
    ∷ lit "Note: --text, --file, and --list-voices are mutually exclusive;\n"
    ∷ lit "      exactly one must be provided.\n"
    ∷ lit "\n"
    ∷ lit "Note: Use --rate=-50% syntax (not --rate -50%) for negative values.\n"
    ∷ [])
