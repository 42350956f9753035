-- ===== src/Cli/Playback/Text.antt =====
-- PlaybackArgumentParser.cpp: the text of `--help`.
use edge_tts_cpp.Base.{[], ◌∷◌, Bytes, lit}
use edge_tts_cpp.Cli.Tokens.{concat, em_dash}

unfoldable pub help_text : Bytes → Bytes
unfolding concat em_dash
help_text program_name = concat (
    lit "Usage: "
    ∷ program_name
    ∷ lit " [OPTIONS]\n"
    ∷ lit "\n"
    ∷ lit "Speak text using Microsoft Edge's online text-to-speech API.\n"
    ∷ lit "See `edge-tts` for additional details on TTS options.\n"
    ∷ lit "\n"
    ∷ lit "Options:\n"
    ∷ lit "  -h, --help          Show this help message and exit\n"
    ∷ lit "  -t, --text TEXT     What TTS will say\n"
    ∷ lit "  -f, --file PATH     Same as --text but read from file;\n"
    ∷ lit "                        use - or /dev/stdin for stdin\n"
    ∷ lit "  -v, --voice VOICE   Voice for TTS.\n"
    ∷ lit "                        Default: "
    ∷ lit "en-US-EmmaMultilingualNeural"
    ∷ lit "\n"
    ∷ lit "      --rate RATE     Set TTS rate. Default +0%.\n"
    ∷ lit "      --volume VOL    Set TTS volume. Default +0%.\n"
    ∷ lit "      --pitch PITCH   Set TTS pitch. Default +0Hz.\n"
    ∷ lit "      --proxy URL     Proxy URL "
    ∷ em_dash
    ∷ lit " parsed and validated but not supported\n"
    ∷ lit "                        at runtime (returns exit 1 if set)\n"
    ∷ lit "      --mpv           Not supported in this build (only ffplay is available);\n"
    ∷ lit "                        passing this flag returns an error\n"
    ∷ lit "\n"
    ∷ lit "Note: --text and --file are mutually exclusive; exactly one must be provided.\n"
    ∷ lit "Note: Use --rate=-50% syntax (not --rate -50%) for negative values.\n"
    ∷ [])
