-- ===== src/Cli/EdgeTts.antt =====
-- modules/cli: EdgeTtsArguments.hpp, EdgeTtsArgumentParser.hpp and EdgeTtsArgumentParser.cpp.
pub mod Text
pub mod Outcome
use edge_tts_cpp.Base.{
  ℕ, ◌+◌, Bool, true, false, ◌||◌, Option, none, some, List, [], ◌∷◌, ◌++◌, Bytes, lit, codes,
  bytes_eq, starts_with, find, is_empty, leb, ltb, ◌==◌, if◌then◌else◌, ◌⊎◌, inl, inr, ◌≡◌, refl,
}
use edge_tts_cpp.Cli.Tokens.{Parsed, split_at_equals, option_value, attached, require, parse_loop}
use edge_tts_cpp.Cli.EdgeTts.Text.{help_text, version_string}

pub record EdgeTtsArguments : Type 0 where
  pub text : Option Bytes
  pub file : Option Bytes
  pub list_voices : Bool
  pub voice : Bytes
  pub rate : Bytes
  pub volume : Bytes
  pub pitch : Bytes
  pub write_media : Option Bytes
  pub write_subtitles : Option Bytes
  pub proxy : Option Bytes

abbrev pub default_arguments : EdgeTtsArguments
default_arguments = record {
  text = none;
  file = none;
  list_voices = false;
  voice = lit "en-US-EmmaMultilingualNeural";
  rate = lit "+0%";
  volume = lit "+0%";
  pitch = lit "+0Hz";
  write_media = none;
  write_subtitles = none;
  proxy = none;
}

pub data ParseAction : Type 0 where
  synthesize list_voices_action help version parse_failed : ParseAction

pub record ParseResult : Type 0 where
  pub action : ParseAction
  pub arguments : EdgeTtsArguments
  pub message : Bytes
  pub exit_code : ℕ

-- A `ParseResult r` with its message set.
abbrev pub failed : Bytes → ParseResult
failed m = record {
  action = parse_failed;
  arguments = default_arguments;
  message = m;
  exit_code = 2;
}

-- The local variables of `do_parse`.
pub record ParseState : Type 0 where
  pub args : EdgeTtsArguments
  pub seen_text : Bool
  pub seen_file : Bool
  pub seen_list_voices : Bool

abbrev pub start_state : ParseState
start_state = record {
  args = default_arguments;
  seen_text = false;
  seen_file = false;
  seen_list_voices = false;
}

abbrev pub set_text : ParseState → Bytes → ParseState
set_text s v = record s { args = record s.args { text = some v }; seen_text = true }

abbrev pub set_file : ParseState → Bytes → ParseState
set_file s v = record s { args = record s.args { file = some v }; seen_file = true }

abbrev pub set_args : ParseState → (Bytes → EdgeTtsArguments) → Bytes → ParseState
set_args s args v = record s { args = args v }

-- The two tests on the value of `--proxy`.
unfoldable pub check_proxy : Parsed ParseState → Parsed ParseState
unfolding is_empty find
check_proxy (inl message) = inl message
check_proxy (inr (s, used)) = elim s.args.proxy [
  | none ↦ inr (s, used)
  | some url ↦
      if is_empty url
      then inl (lit "--proxy URL must not be empty")
      else elim (find (codes "://") url) [
        | none ↦ inl (lit "--proxy URL must include a scheme (example: http://host:port)")
        | some pos ↦ inr (s, used)
      ]
]

-- The options with a value.
pub data OptionName : Type 0 where
  text_option file_option voice_option rate_option volume_option pitch_option : OptionName
  media_option subtitles_option proxy_option : OptionName

-- The chain of comparisons of the key of a long option.
unfoldable pub long_option : Bytes → Option OptionName
unfolding bytes_eq
long_option key =
    if bytes_eq key (codes "--text")
    then some text_option
    else if bytes_eq key (codes "--file")
    then some file_option
    else if bytes_eq key (codes "--voice")
    then some voice_option
    else if bytes_eq key (codes "--rate")
    then some rate_option
    else if bytes_eq key (codes "--volume")
    then some volume_option
    else if bytes_eq key (codes "--pitch")
    then some pitch_option
    else if bytes_eq key (codes "--write-media")
    then some media_option
    else if bytes_eq key (codes "--write-subtitles")
    then some subtitles_option
    else if bytes_eq key (codes "--proxy")
    then some proxy_option
    else none

-- `switch (flag)`.
unfoldable pub short_option : ℕ → Option OptionName
short_option flag =
    if flag == b't'
    then some text_option
    else if flag == b'f'
    then some file_option
    else if flag == b'v'
    then some voice_option
    else none

-- What the branch of an option does; `name` is the option as its message has it.
unfoldable pub apply_option :
    OptionName → Bytes → Option (Bytes × Bool) → ParseState → Parsed ParseState
unfolding require check_proxy
apply_option text_option name value s = require name value (set_text s)
apply_option file_option name value s = require name value (set_file s)
apply_option voice_option name value s =
    require name value (set_args s λ v. record s.args { voice = v })
apply_option rate_option name value s =
    require name value (set_args s λ v. record s.args { rate = v })
apply_option volume_option name value s =
    require name value (set_args s λ v. record s.args { volume = v })
apply_option pitch_option name value s =
    require name value (set_args s λ v. record s.args { pitch = v })
apply_option media_option name value s =
    require name value (set_args s λ v. record s.args { write_media = some v })
apply_option subtitles_option name value s =
    require name value (set_args s λ v. record s.args { write_subtitles = some v })
apply_option proxy_option name value s =
    check_proxy (require name value (set_args s λ v. record s.args { proxy = some v }))

-- The branch of an option, or a message with the token that is none.
unfoldable pub parse_option :
    Option OptionName → Bytes → Bytes → Option (Bytes × Bool) → ParseState → Parsed ParseState
unfolding apply_option
parse_option none name tok value s = inl (lit "unrecognized option: " ++ tok)
parse_option (some option) name tok value s = apply_option option name value s

-- A token of at least two bytes that starts with '-', or a positional argument.
unfoldable pub parse_dashed : Bytes → List Bytes → ParseState → Parsed ParseState
unfolding option_value attached short_option parse_option
parse_dashed (dash ∷ flag ∷ value) rest s =
    if dash == b'-'
    then parse_option (short_option flag) (dash ∷ flag ∷ []) (dash ∷ flag ∷ value)
        (option_value (attached value) rest) s
    else inl (lit "unexpected positional argument: " ++ (dash ∷ flag ∷ value))
parse_dashed (c ∷ []) rest s = inl (lit "unexpected positional argument: " ++ (c ∷ []))
parse_dashed [] rest s = inl (lit "unexpected positional argument: " ++ [])

-- The body of the loop.
unfoldable pub parse_token : Bytes → List Bytes → ParseState → Parsed ParseState
unfolding bytes_eq starts_with split_at_equals option_value long_option parse_option parse_dashed
parse_token tok rest s =
    if bytes_eq tok (codes "-l") || bytes_eq tok (codes "--list-voices")
    then inr
        (record s { seen_list_voices = true; args = record s.args { list_voices = true } }, false)
    else if starts_with (codes "--") tok
    then (let (key, value) = split_at_equals tok in
        parse_option (long_option key) key key (option_value value rest) s)
    else parse_dashed tok rest s

-- The loop before the main one.
unfoldable pub fast_path : List Bytes → Option ParseResult
unfolding bytes_eq
fast_path [] = none
fast_path (tok ∷ toks) =
    if bytes_eq tok (codes "-h") || bytes_eq tok (codes "--help")
    then some (record {
      action = help;
      arguments = default_arguments;
      message = help_text (lit "edge-tts");
      exit_code = 0;
    })
    else if bytes_eq tok (codes "--version")
    then some (record {
      action = version;
      arguments = default_arguments;
      message = version_string;
      exit_code = 0;
    })
    else fast_path toks

abbrev pub to_int : Bool → ℕ
to_int b = if b then 1 else 0

unfoldable pub finish : ParseState → ParseResult
finish s =
    let group_count = to_int s.seen_text + to_int s.seen_file + to_int s.seen_list_voices in
    if group_count == 0
    then failed (lit "one of --text/-t, --file/-f, or --list-voices/-l is required")
    else if ltb 1 group_count
    then failed (lit "--text, --file, and --list-voices are mutually exclusive")
    else record {
      action = if s.seen_list_voices then list_voices_action else synthesize;
      arguments = s.args;
      message = [];
      exit_code = 0;
    }

unfoldable pub do_parse : List Bytes → ParseResult
unfolding fast_path parse_loop parse_token finish
do_parse tokens = elim (fast_path tokens) [
  | some r ↦ r
  | none ↦ elim (parse_loop parse_token false tokens start_state) [
    | inl message ↦ failed message
    | inr s ↦ finish s
  ]
]
