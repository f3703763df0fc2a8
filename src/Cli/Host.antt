-- ===== src/Cli/Host.antt =====
-- Text, the errors and the configuration of src/cli.rs, and what the parser takes from its host.
use mux_runtime.Common.{ℕ, Bool, true, false, ◌&&◌, ◌==◌, Option, List, [], ◌∷◌, Result}

abbrev pub Str : Type 0
Str = List ℕ

unfoldable pub str_eq : Str → Str → Bool
str_eq [] [] = true
str_eq [] (d ∷ ds) = false
str_eq (c ∷ cs) [] = false
str_eq (c ∷ cs) (d ∷ ds) = (c == d) && str_eq cs ds

-- Each error message of the parser, with the names it shows
pub data CliError : Type 0 where
  ends_with_escape : CliError
  unterminated_quote : CliError
  aggregate_byte_limit : Str → CliError
  argument_limit : ℕ → CliError
  file_limit : Str → ℕ → CliError
  unreadable_file : Str → CliError
  read_limit_too_large : CliError
  not_utf8 : Str → CliError
  invalid_file : Str → CliError → CliError
  nesting_limit : CliError
  unknown_long : Str → CliError
  unknown_short : ℕ → CliError
  long_needs_value : Str → CliError
  long_takes_no_value : Str → CliError
  short_needs_value : ℕ → CliError
  repeated_option : Str → CliError
  unavailable_subcommand : Str → CliError
  missing_option : Str → CliError
  callback_error : Str → CliError
  invalid_value : Str → CliError → CliError
  option_conflict : Str → Str → CliError
  option_requires : Str → Str → CliError
  missing_positional : Str → CliError
  out_of_fuel : CliError

abbrev pub Parsed : Type 0 → Type 0
Parsed A = Result CliError A

-- A callback is the address of a compiled closure. The group of an option only serves the help text.
pub record OptionSpec : Type 0 where
  pub name : Str
  pub short : Option ℕ
  pub takes_value : Bool
  pub required : Bool
  pub env : Option Str
  pub default : Option Str
  pub multiple : Bool
  pub conflicts : List Str
  pub requires : List Str
  pub aliases : List Str
  pub parser : Option ℕ

-- The configuration that parsing reads: the program's name, its description and its version only
-- serve the help text.
pub record ParserEntry : Type 0 where
  pub options : List OptionSpec
  pub positionals : List (Str × Bool)
  pub children : List (Str × ℕ)
  pub response_files : Bool

-- `file_contents` is `none` where a file cannot be opened or read; `apply_parser` runs a callback.
pub record Host : Type 0 where
  pub is_whitespace : ℕ → Bool
  pub file_contents : Str → Option (List ℕ)
  pub from_utf8 : List ℕ → Option Str
  pub env_var : Str → Option Str
  pub apply_parser : ℕ → Str → Parsed Str
  pub parsers : ℕ → Option ParserEntry
