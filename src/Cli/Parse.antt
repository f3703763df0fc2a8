-- ===== src/Cli/Parse.antt =====
-- `parse_args` of src/cli.rs and the argument loop. The help text that a match carries is left out.
pub mod Laws
use mux_runtime.Common.{
  ℕ, zero, suc, ◌+◌, Bool, true, false, ◌&&◌, ltb, ◌==◌, if◌then◌else◌, Option, none, some, List,
  [], ◌∷◌, ◌++◌, length, get_elem?, drop, Result, ok, err, ◌>>=◌,
}
use mux_runtime.Cli.Host.{
  Str, str_eq, CliError, unavailable_subcommand, out_of_fuel, Parsed, OptionSpec, ParserEntry, Host,
}
use mux_runtime.Cli.Response.{expand_response_files, required_or}
use mux_runtime.Cli.Options.{
  Values, push_value, find_long_option, long_option_value, find_short_option, short_option_value,
  record_option, or_error,
}
use mux_runtime.Cli.Finish.{
  apply_option_defaults, normalize_options, validate_option_relationships, validate_positionals,
  Checked,
}

-- `MatchesEntry`: the values, the positionals, and the subcommand with its own match
pub data MatchesEntry : Type 0 where
  matched : Values → List Str → MatchesEntry
  matched_under : Values → List Str → Str → MatchesEntry → MatchesEntry

-- the subcommand and its match are set together
pub record ParseState : Type 0 where
  pub values : Values
  pub positionals : List Str
  pub subcommand : Option (Str × MatchesEntry)

-- `starts_with("--")` with more behind it, `starts_with('-')` with more behind it, and the rest
pub data Shape : Type 0 where
  double_dash : Shape
  long : Str → Shape
  short : Str → Shape
  plain : Shape

unfoldable pub shape : Str → Shape
shape [] = plain
shape (c ∷ []) = plain
shape (c ∷ d ∷ []) = if c == 45 then (if d == 45 then double_dash else short (d ∷ [])) else plain
shape (c ∷ d ∷ x ∷ cs) =
    if c == 45 then (if d == 45 then long (x ∷ cs) else short (d ∷ x ∷ cs)) else plain

-- `split_once('=')`: the text before the first `=`, and the text behind it if there is one
unfoldable pub split_value : Str → Str × Option Str
split_value [] = ([], none)
split_value (c ∷ cs) =
    let (name, v) = split_value cs in if c == 61 then ([], some cs) else (c ∷ name, v)

unfoldable pub parse_long_option :
    ParserEntry → List Str → ℕ → Str → ParseState → Parsed (ℕ × ParseState)
unfolding find_long_option long_option_value record_option split_value
parse_long_option entry args index raw state =
    let (name, inline) = split_value raw in
    do
      o ← find_long_option entry name
      (v, index') ← long_option_value o inline args index name
      vals ← record_option state.values o (45 ∷ 45 ∷ name) v
      ok (index', record state { values = vals })

-- One option of a cluster, with what is left of the cluster: a flag that is not the last one is pushed
-- without the check of `record_option`.
unfoldable pub record_short : OptionSpec → ℕ → Str → Str → ParseState → Parsed ParseState
unfolding push_value record_option
record_short o c v [] state = do
  vals ← record_option state.values o (45 ∷ c ∷ []) v
  ok (record state { values = vals })
record_short o c v (d ∷ rest) state =
    ok (record state { values = push_value o.name v state.values })

-- The loop of `parse_short_options`. What is left of a cluster is the tail of it, or nothing once an
-- option has taken the tail for its value.
unfoldable pub parse_short_options :
    ParserEntry → List Str → ℕ → Str → ParseState → Parsed (ℕ × ParseState)
unfolding find_short_option short_option_value record_short
parse_short_options entry args index [] state = ok (index, state)
parse_short_options entry args index (c ∷ cs) state = do
  o ← find_short_option entry c
  (v, left, index') ← short_option_value o.takes_value cs args index c
  state' ← record_short o c v left state
  elim left [ [] ↦ ok (index', state') | d ∷ ds ↦ parse_short_options entry args index' cs state' ]

-- the child parser of a name
unfoldable pub child_named : Str → List (Str × ℕ) → Option (Str × ℕ)
unfolding str_eq
child_named arg [] = none
child_named arg ((name, id) ∷ rest) =
    if str_eq name arg then some (name, id) else child_named arg rest

-- `state.subcommand.is_none() && state.positionals.is_empty()`
unfoldable pub expects_subcommand : ParseState → Bool
expects_subcommand state = elim state.subcommand [
  | some s ↦ false
  | none ↦ elim state.positionals [ [] ↦ true | p ∷ ps ↦ false ]
]

module _ (H : Host) where
  -- `parse_child` is `parse_args`, which a subcommand is parsed with.
  module _ (parse_child : ParserEntry → List Str → Parsed MatchesEntry) where
    unfoldable pub run_subcommand : Str × ℕ → List Str → ℕ → ParseState → Parsed (Bool × ParseState)
    unfolding required_or
    run_subcommand (name, id) args index state = do
      child ← required_or (unavailable_subcommand name) (H.parsers id)
      m ← parse_child child (drop (index + 1) args)
      ok (false, record state { subcommand = some (name, m) })

    unfoldable pub parse_positional :
        ParserEntry → Str → List Str → ℕ → ParseState → Parsed (Bool × ParseState)
    unfolding expects_subcommand child_named run_subcommand
    parse_positional entry arg args index state =
        let kept = record state { positionals = state.positionals ++ arg ∷ [] } in
        if expects_subcommand state
        then elim (child_named arg entry.children) [
          | none ↦ ok (true, kept)
          | some child ↦ run_subcommand child args index state
        ]
        else ok (true, kept)

    -- whether the loop goes on, the index of the last argument that was read, and the state
    abbrev pub Step : Type 0
    Step = Bool × ℕ × Bool × ParseState

    unfoldable pub parse_option :
        Shape → ParserEntry → Str → List Str → ℕ → Bool → ParseState → Parsed Step
    unfolding parse_long_option parse_short_options parse_positional
    parse_option double_dash entry arg args index end_options state = ok (true, index, true, state)
    parse_option (long raw) entry arg args index end_options state = do
      (index', state') ← parse_long_option entry args index raw state
      ok (true, index', end_options, state')
    parse_option (short cluster) entry arg args index end_options state = do
      (index', state') ← parse_short_options entry args index cluster state
      ok (true, index', end_options, state')
    parse_option plain entry arg args index end_options state = do
      (goes_on, state') ← parse_positional entry arg args index state
      ok (goes_on, index, end_options, state')

    unfoldable pub parse_argument :
        ParserEntry → Str → List Str → ℕ → Bool → ParseState → Parsed Step
    unfolding parse_option shape
    parse_argument entry arg args index end_options state =
        parse_option (if end_options then plain else shape arg) entry arg args index end_options
          state

    -- The loop `while index < args.len()`, which moves the index on in every round. It is `none` where
    -- it has not ended by the fuel; as many rounds as there are arguments, and one, are enough.
    unfoldable pub parse_argument_loop :
        ℕ → ParserEntry → List Str → ℕ → Bool → ParseState → Option (Parsed ParseState)
    unfolding parse_argument
    parse_argument_loop zero entry args index end_options state = none
    parse_argument_loop (suc fuel) entry args index end_options state =
        elim (get_elem? args index) [
          | none ↦ some (ok state)
          | some arg ↦ elim (parse_argument entry arg args index end_options state) [
            | err e ↦ some (err e)
            | ok (goes_on, index', ended, state') ↦
                if goes_on
                then parse_argument_loop fuel entry args (index' + 1) ended state'
                else some (ok state')
          ]
        ]

    unfoldable pub parse_argument_list : ParserEntry → List Str → Option (Parsed ParseState)
    unfolding parse_argument_loop
    parse_argument_list entry args =
        parse_argument_loop (suc (length args)) entry args 0 false
          (record { values = []; positionals = []; subcommand = none })

  unfoldable pub matches_of : Values → ParseState → MatchesEntry
  matches_of vals state = elim state.subcommand [
    | none ↦ matched vals state.positionals
    | some (name, m) ↦ matched_under vals state.positionals name m
  ]

  -- the part of `parse_args` behind the argument list
  unfoldable pub finish_parse : ParserEntry → ParseState → Parsed MatchesEntry
  unfolding apply_option_defaults normalize_options validate_option_relationships
      validate_positionals matches_of
  finish_parse entry state = do
    vals ← apply_option_defaults H entry.options state.values
    vals' ← normalize_options H entry.options vals
    elim (validate_option_relationships entry.options vals') [
      | err e ↦ err e
      | ok u ↦ elim (validate_positionals entry state.positionals) [
        | err e ↦ err e
        | ok w ↦ ok (matches_of vals' state)
      ]
    ]

  -- The fuel counts the levels of subcommands; the argument list of a level always ends.
  unfoldable pub parse_args : ℕ → ParserEntry → List Str → Parsed MatchesEntry
  unfolding expand_response_files parse_argument_list finish_parse or_error
  parse_args zero entry args = err out_of_fuel
  parse_args (suc fuel) entry args = do
    args' ← if entry.response_files then expand_response_files H args 0 else ok args
    state ← or_error out_of_fuel (parse_argument_list (parse_args fuel) entry args')
    state' ← state
    finish_parse entry state'
