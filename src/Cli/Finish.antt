-- ===== src/Cli/Finish.antt =====
-- What src/cli.rs does behind the arguments: environment values and defaults, the option callbacks,
-- and the checks of conflicts, requirements and positionals.
pub mod Laws
use mux_runtime.Common.{
  ℕ, suc, Bool, true, false, ◌&&◌, not, if◌then◌else◌, Option, none, some, List, [], ◌∷◌, get_elem?,
  Result, ok, err, ◌>>=◌,
}
use mux_runtime.Cli.Host.{
  Str, CliError, missing_option, invalid_value, option_conflict, option_requires,
  missing_positional, Parsed, OptionSpec, ParserEntry, Host,
}
use mux_runtime.Cli.Response.{map_err}
use mux_runtime.Cli.Options.{Values, contains_key, values_of, replace_values, push_value}

-- `Result<(), String>`
abbrev pub Checked : Type 0
Checked = Result {0, 0} CliError Unit

module _ (H : Host) where
  -- `std::env::var` of the option's variable, if it names one
  unfoldable pub from_env : Option Str → Option Str
  from_env none = none
  from_env (some name) = H.env_var name

  -- the value that an option without one gets: the environment's, else the default
  unfoldable pub fallback : OptionSpec → Option Str
  unfolding from_env
  fallback o = elim (from_env o.env) [ none ↦ o.default | some v ↦ some v ]

  -- one round of `apply_option_defaults`; the insertion is under a name that has no values
  unfoldable pub default_one : OptionSpec → Values → Parsed Values
  unfolding contains_key fallback push_value
  default_one o vals = if contains_key o.name vals then ok vals else elim (fallback o) [
    | some v ↦ ok (push_value o.name v vals)
    | none ↦ if o.required then err (missing_option o.name) else ok vals
  ]

  unfoldable pub apply_option_defaults : List OptionSpec → Values → Parsed Values
  unfolding default_one
  apply_option_defaults [] vals = ok vals
  apply_option_defaults (o ∷ os) vals = do
    vals' ← default_one o vals
    apply_option_defaults os vals'

  -- the loop of `normalize_option_values` over the raw values
  unfoldable pub parse_values : ℕ → List Str → Parsed (List Str)
  parse_values callback [] = ok []
  parse_values callback (raw ∷ raws) = do
    v ← H.apply_parser callback raw
    vs ← parse_values callback raws
    ok (v ∷ vs)

  -- `normalize_option_values` at the callback and the raw values
  unfoldable pub normalize_found :
      Option ℕ → Option (List Str) → OptionSpec → Values → Parsed Values
  unfolding map_err parse_values replace_values
  normalize_found none raws o vals = ok vals
  normalize_found (some callback) none o vals = ok vals
  normalize_found (some callback) (some raws) o vals = do
    new ← map_err (invalid_value o.name) (parse_values callback raws)
    ok (replace_values o.name new vals)

  unfoldable pub normalize_option_values : OptionSpec → Values → Parsed Values
  unfolding normalize_found values_of
  normalize_option_values o vals = normalize_found o.parser (values_of o.name vals) o vals

  unfoldable pub normalize_options : List OptionSpec → Values → Parsed Values
  unfolding normalize_option_values
  normalize_options [] vals = ok vals
  normalize_options (o ∷ os) vals = do
    vals' ← normalize_option_values o vals
    normalize_options os vals'

unfoldable pub validate_conflicts : OptionSpec → List Str → Values → Checked
unfolding contains_key
validate_conflicts o [] vals = ok tt
validate_conflicts o (c ∷ cs) vals =
    if contains_key c vals then err (option_conflict o.name c) else validate_conflicts o cs vals

unfoldable pub validate_requirements : OptionSpec → List Str → Values → Checked
unfolding contains_key
validate_requirements o [] vals = ok tt
validate_requirements o (r ∷ rs) vals =
    if contains_key r vals then validate_requirements o rs vals else err (option_requires o.name r)

-- one round of `validate_option_relationships`
unfoldable pub validate_option : OptionSpec → Values → Checked
unfolding contains_key validate_conflicts validate_requirements
validate_option o vals =
    if not (contains_key o.name vals) then ok tt else elim (validate_conflicts o o.conflicts vals) [
      | err e ↦ err e
      | ok u ↦ validate_requirements o o.requires vals
    ]

unfoldable pub validate_option_relationships : List OptionSpec → Values → Checked
unfolding validate_option
validate_option_relationships [] vals = ok tt
validate_option_relationships (o ∷ os) vals = elim (validate_option o vals) [
  | err e ↦ err e
  | ok u ↦ validate_option_relationships os vals
]

abbrev pub is_none : Option Str → Bool
is_none none = true
is_none (some s) = false

-- the declared positionals from an index on
unfoldable pub validate_from : List (Str × Bool) → ℕ → List Str → Checked
validate_from [] index given = ok tt
validate_from ((name, required) ∷ rest) index given =
    if required && is_none (get_elem? given index)
    then err (missing_positional name)
    else validate_from rest (suc index) given

unfoldable pub validate_positionals : ParserEntry → List Str → Checked
unfolding validate_from
validate_positionals entry given = validate_from entry.positionals 0 given
