-- ===== src/Cli/Options.antt =====
-- The option table of src/cli.rs: the values that a parse has recorded, and finding, reading and
-- recording one option.
use mux_runtime.Common.{
  ℕ, ◌+◌, Bool, true, false, ◌&&◌, ◌||◌, not, ◌==◌, if◌then◌else◌, Option, none, some, List, [],
  ◌∷◌, ◌++◌, get_elem?, ok, err, ◌>>=◌,
}
use mux_runtime.Cli.Host.{
  Str, str_eq, CliError, unknown_long, unknown_short, long_needs_value, long_takes_no_value,
  short_needs_value, repeated_option, Parsed, OptionSpec, ParserEntry,
}

-- `HashMap<String, Vec<String>>`
abbrev pub Values : Type 0
Values = List (Str × List Str)

unfoldable pub values_of : Str → Values → Option (List Str)
unfolding str_eq
values_of name [] = none
values_of name ((k, vs) ∷ rest) = if str_eq k name then some vs else values_of name rest

unfoldable pub contains_key : Str → Values → Bool
unfolding values_of
contains_key name vals = elim (values_of name vals) [ none ↦ false | some vs ↦ true ]

-- `values.entry(name).or_default().push(value)`
unfoldable pub push_value : Str → Str → Values → Values
unfolding str_eq
push_value name v [] = (name, v ∷ []) ∷ []
push_value name v ((k, vs) ∷ rest) =
    let below = push_value name v rest in
    if str_eq k name then (k, vs ++ v ∷ []) ∷ rest else (k, vs) ∷ below

-- the write of all values of a name that has some
unfoldable pub replace_values : Str → List Str → Values → Values
unfolding str_eq
replace_values name new [] = []
replace_values name new ((k, vs) ∷ rest) =
    let below = replace_values name new rest in
    if str_eq k name then (k, new) ∷ rest else (k, vs) ∷ below

unfoldable pub any_is : Str → List Str → Bool
unfolding str_eq
any_is name [] = false
any_is name (a ∷ rest) = str_eq a name || any_is name rest

-- `Iterator::find` over the options
unfoldable pub first_option : (OptionSpec → Bool) → List OptionSpec → Option OptionSpec
first_option test [] = none
first_option test (o ∷ os) = if test o then some o else first_option test os

unfoldable pub or_error : {A : Type 0} → CliError → Option A → Parsed A
or_error e none = err e
or_error e (some a) = ok a

unfoldable pub find_long_option : ParserEntry → Str → Parsed OptionSpec
unfolding or_error any_is str_eq
find_long_option entry name =
    or_error (unknown_long name)
      (first_option (λ o. str_eq o.name name || any_is name o.aliases) entry.options)

unfoldable pub has_short : ℕ → Option ℕ → Bool
has_short c none = false
has_short c (some d) = d == c

unfoldable pub find_short_option : ParserEntry → ℕ → Parsed OptionSpec
unfolding or_error has_short
find_short_option entry short =
    or_error (unknown_short short) (first_option (λ o. has_short short o.short) entry.options)

-- the value behind the index, and the index moved on
unfoldable pub next_option_value : List Str → ℕ → CliError → Parsed (Str × ℕ)
next_option_value args index e = elim (get_elem? args (index + 1)) [
  | none ↦ err e
  | some v ↦ ok (v, index + 1)
]

-- the text `true`
abbrev pub true_text : Str
true_text = 116 ∷ 114 ∷ 117 ∷ 101 ∷ []

unfoldable pub long_option_value : OptionSpec → Option Str → List Str → ℕ → Str → Parsed (Str × ℕ)
unfolding next_option_value
long_option_value o (some v) args index name =
    if o.takes_value then ok (v, index) else err (long_takes_no_value name)
long_option_value o none args index name =
    if o.takes_value
    then next_option_value args index (long_needs_value name)
    else ok (true_text, index)

-- the value of a short option, the characters of the cluster that are left, and the index
unfoldable pub short_option_value : Bool → Str → List Str → ℕ → ℕ → Parsed (Str × Str × ℕ)
unfolding next_option_value
short_option_value false rest args index short = ok (true_text, rest, index)
short_option_value true [] args index short = do
  (v, index') ← next_option_value args index (short_needs_value short)
  ok (v, [], index')
short_option_value true (c ∷ cs) args index short = ok (c ∷ cs, [], index)

unfoldable pub record_option : Values → OptionSpec → Str → Str → Parsed Values
unfolding contains_key push_value
record_option vals o display_name v =
    if not o.multiple && contains_key o.name vals
    then err (repeated_option display_name)
    else ok (push_value o.name v vals)
