-- ===== src/Cli/Tests.antt =====
-- Tests of the command-line parser of src/cli.rs, over a host with one response file.
use mux_runtime.Common.{
  true, suc, false, err, arith, ◌+◌, ◌≡◌, refl, ◌≤◌, ◌==◌, none, some, List, [], ◌∷◌, length, ok,
}
use mux_runtime.Cli.Host.{out_of_fuel, Parsed, OptionSpec, ParserEntry, Str, Host}
use mux_runtime.Cli.Token
use mux_runtime.Cli.Options
use mux_runtime.Cli.Finish
use mux_runtime.Cli.Finish.{apply_option_defaults}
use mux_runtime.Cli.Finish.Laws.{apply_option_defaults-Defaulted, Defaulted}
use mux_runtime.Cli.Parse
use mux_runtime.Cli.Parse.{MatchesEntry, ParseState, parse_argument_loop}
use mux_runtime.Cli.Parse.Laws.{parse_argument_loop-enough}
use mux_runtime.Cli.Response.{
  ResponseBudget, expand_levels, expand_loop, expand_argument, expand_response_files, new, classify,
  consume_argument, consume_bytes, read_response_file, read_limit, required_or, map_err,
  max_response_arguments,
}
use mux_runtime.Cli.Response.Budget.{expand_levels-Paid, expand_response_files-bound}

-- The file reads `a b`.
abbrev host : Host
host = record {
  is_whitespace = λ c. c == 32;
  file_contents = λ p. some (97 ∷ 32 ∷ 98 ∷ []);
  from_utf8 = λ b. some b;
  env_var = λ n. none;
  apply_parser = λ c s. ok s;
  parsers = λ i. none;
}

-- `@f c`
abbrev line : List Str
line = (64 ∷ 102 ∷ []) ∷ (99 ∷ []) ∷ []

abbrev words : List Str
words = (97 ∷ []) ∷ (98 ∷ []) ∷ (99 ∷ []) ∷ []

abbrev before : ResponseBudget
before = record { remaining_bytes = 9; remaining_arguments = 5; argument_limit = 5 }

abbrev after : ResponseBudget
after = record { remaining_bytes = 6; remaining_arguments = 2; argument_limit = 5 }

expanded : expand_levels host 9 8 line before ≡ ok (words, after)
unfolding expand_levels expand_loop expand_argument classify consume_argument consume_bytes
    read_response_file read_limit required_or map_err Token.tokenize_response_file Token.finish_scan
    Token.scan_loop Token.scan_character Token.peek Token.scan_plain Token.scan_quoted Token.flush
    Token.push Token.escapes
expanded = refl

expand_levels-Paid_example :
    (length words + after.remaining_arguments ≡ before.remaining_arguments)
    × (after.remaining_bytes ≤ before.remaining_bytes)
expand_levels-Paid_example = expand_levels-Paid host 9 8 line words before after expanded

expanded_line : expand_response_files host line 0 ≡ ok words
unfolding expand_response_files new expand_levels expand_loop expand_argument classify
    consume_argument consume_bytes read_response_file read_limit required_or map_err
    Token.tokenize_response_file Token.finish_scan Token.scan_loop Token.scan_character Token.peek
    Token.scan_plain Token.scan_quoted Token.flush Token.push Token.escapes
expanded_line = refl

expand_response_files-bound_test : length words ≤ max_response_arguments
expand_response_files-bound_test = expand_response_files-bound host line words 0 expanded_line

-- one flag, `-v`
abbrev verbose : OptionSpec
verbose = record {
  name = 118 ∷ [];
  short = some 118;
  takes_value = false;
  required = false;
  env = none;
  default = none;
  multiple = false;
  conflicts = [];
  requires = [];
  aliases = [];
  parser = none;
}

abbrev entry : ParserEntry
entry = record { options = verbose ∷ []; positionals = []; children = []; response_files = false }

abbrev no_child : ParserEntry → List Str → Parsed MatchesEntry
no_child e a = err out_of_fuel

abbrev flags : List Str
flags = (45 ∷ 118 ∷ []) ∷ (120 ∷ []) ∷ []

abbrev start : ParseState
start = record { values = []; positionals = []; subcommand = none }

parse_argument_loop-enough_example :
    (r : Parsed ParseState) × (parse_argument_loop host no_child (suc 2) entry flags 0 false start
      ≡ some r)
    × (parse_argument_loop host no_child (suc (2 + 5)) entry flags 0 false start ≡ some r)
parse_argument_loop-enough_example =
    parse_argument_loop-enough host no_child 2 5 entry flags 0 false start (omega arith)

-- `-v x` gives the flag and a positional.
loop_test :
    parse_argument_loop host no_child 3 entry flags 0 false start
    ≡ some (
        ok (record {
          values = ((118 ∷ []), (116 ∷ 114 ∷ 117 ∷ 101 ∷ []) ∷ []) ∷ [];
          positionals = (120 ∷ []) ∷ [];
          subcommand = none;
        }))
unfolding parse_argument_loop Parse.parse_argument Parse.parse_option Parse.shape
    Parse.parse_short_options Parse.record_short Parse.parse_positional Parse.expects_subcommand
    Parse.child_named Options.find_short_option Options.short_option_value Options.record_option
    Options.contains_key Options.values_of Options.push_value Options.or_error Options.has_short
    Options.first_option
loop_test = refl

-- a required option with the default `x`
abbrev needed : OptionSpec
needed = record verbose { required = true; default = some (120 ∷ []) }

abbrev filled : Options.Values
filled = ((118 ∷ []), (120 ∷ []) ∷ []) ∷ []

filled_in : apply_option_defaults host (needed ∷ []) [] ≡ ok filled
unfolding apply_option_defaults Finish.default_one Finish.fallback Finish.from_env
    Options.contains_key Options.values_of Options.push_value
filled_in = refl

apply_option_defaults-Defaulted_example : Defaulted host (needed ∷ []) (118 ∷ []) [] filled
apply_option_defaults-Defaulted_example =
    apply_option_defaults-Defaulted host (needed ∷ []) [] filled (118 ∷ []) filled_in
