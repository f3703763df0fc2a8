-- ===== src/Cli/Response.antt =====
-- The expansion of response files in src/cli.rs: an argument `@path` is replaced by the words of the
-- file, within one budget of bytes and arguments and at most eight levels deep.
pub mod Budget
use mux_runtime.Common.{
  ℕ, zero, suc, ◌+◌, ◌-◌, Bool, true, false, ltb, leb, ◌==◌, if◌then◌else◌, min, Option, none, some,
  List, [], ◌∷◌, ◌++◌, length, take, Result, ok, err, ◌>>=◌,
}
use mux_runtime.Cli.Host.{
  Str, CliError, aggregate_byte_limit, argument_limit, file_limit, unreadable_file,
  read_limit_too_large, not_utf8, invalid_file, nesting_limit, Parsed, Host,
}
use mux_runtime.Cli.Token.{tokenize_response_file, is_empty}

pub record ResponseBudget : Type 0 where
  pub remaining_bytes : ℕ
  pub remaining_arguments : ℕ
  pub argument_limit : ℕ

abbrev pub max_response_depth : ℕ
max_response_depth = 8

abbrev pub max_response_file_bytes : ℕ
max_response_file_bytes = 16777216

abbrev pub max_response_arguments : ℕ
max_response_arguments = 1000000

unfoldable pub new : ℕ → ℕ → ResponseBudget
new max_bytes max_arguments = record {
  remaining_bytes = max_bytes;
  remaining_arguments = max_arguments;
  argument_limit = max_arguments;
}

unfoldable pub consume_bytes : Str → ℕ → ResponseBudget → Parsed ResponseBudget
consume_bytes path n b =
    if ltb b.remaining_bytes n
    then err (aggregate_byte_limit path)
    else ok (record b { remaining_bytes = b.remaining_bytes - n })

unfoldable pub consume_argument : ResponseBudget → Parsed ResponseBudget
consume_argument b =
    if b.remaining_arguments == 0
    then err (argument_limit b.argument_limit)
    else ok (record b { remaining_arguments = b.remaining_arguments - 1 })

-- `max_file_bytes.min(budget.remaining_bytes).checked_add(1)`
unfoldable pub read_limit : ℕ → ℕ → Parsed ℕ
read_limit max_file_bytes remaining =
    if ltb (min max_file_bytes remaining) 18446744073709551615
    then ok (min max_file_bytes remaining + 1)
    else err read_limit_too_large

-- what an absent result is reported as
unfoldable pub required_or : {A : Type 0} → CliError → Option A → Parsed A
required_or e none = err e
required_or e (some a) = ok a

-- `map_err`
unfoldable pub map_err : {A : Type 0} → (CliError → CliError) → Parsed A → Parsed A
map_err f (ok a) = ok a
map_err f (err e) = err (f e)

-- an argument, told apart by its prefix
pub data Argument : Type 0 where
  literal : Str → Argument
  file : Str → Argument

-- `@@rest` stands for the word `@rest`, `@` alone for itself, and `@path` for a file.
unfoldable pub classify : Str → Argument
classify [] = literal []
classify (c ∷ []) = literal (c ∷ [])
classify (c ∷ d ∷ cs) =
    if c == 64 then (if d == 64 then literal (64 ∷ cs) else file (d ∷ cs)) else literal (c ∷ d ∷ cs)

module _ (H : Host) where
  unfoldable pub read_response_file : Str → ℕ → ResponseBudget → Parsed (Str × ResponseBudget)
  unfolding read_limit consume_bytes required_or
  read_response_file path max_file_bytes b = do
    contents ← required_or (unreadable_file path) (H.file_contents path)
    limit ← read_limit max_file_bytes b.remaining_bytes
    source ← ok (take limit contents)
    b' ←
        if ltb max_file_bytes (length source)
        then err (file_limit path max_file_bytes)
        else consume_bytes path (length source) b
    text ← required_or (not_utf8 path) (H.from_utf8 source)
    ok (text, b')

  -- one argument of the loop; `nested` expands the words of a file one level deeper
  unfoldable pub expand_argument :
      (List Str → ResponseBudget → Parsed (List Str × ResponseBudget))
      → ℕ
      → Argument
      → ResponseBudget
      → Parsed (List Str × ResponseBudget)
  unfolding consume_argument read_response_file map_err
  expand_argument nested max_file_bytes (literal word) b = do
    b' ← consume_argument b
    ok (word ∷ [], b')
  expand_argument nested max_file_bytes (file path) b = do
    (source, b') ← read_response_file path max_file_bytes b
    words ← map_err (invalid_file path) (tokenize_response_file H.is_whitespace source)
    nested words b'

  unfoldable pub expand_loop :
      (List Str → ResponseBudget → Parsed (List Str × ResponseBudget))
      → ℕ
      → List Str
      → ResponseBudget
      → Parsed (List Str × ResponseBudget)
  unfolding expand_argument classify
  expand_loop nested max_file_bytes [] b = ok ([], b)
  expand_loop nested max_file_bytes (a ∷ rest) b = do
    (first, b1) ← expand_argument nested max_file_bytes (classify a) b
    (others, b2) ← expand_loop nested max_file_bytes rest b1
    ok (first ++ others, b2)

  -- The first argument is the number of levels that are left: `depth` is eight less it, plus one.
  unfoldable pub expand_levels :
      ℕ → ℕ → List Str → ResponseBudget → Parsed (List Str × ResponseBudget)
  unfolding expand_loop
  expand_levels zero max_file_bytes args b = err nesting_limit
  expand_levels (suc levels) max_file_bytes args b =
      expand_loop (expand_levels levels max_file_bytes) max_file_bytes args b

  unfoldable pub expand_response_files : List Str → ℕ → Parsed (List Str)
  unfolding expand_levels new
  expand_response_files args depth = do
    (words, b) ←
        expand_levels (suc max_response_depth - depth) max_response_file_bytes args
          (new max_response_file_bytes max_response_arguments)
    ok words
