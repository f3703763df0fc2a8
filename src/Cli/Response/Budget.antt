-- ===== src/Cli/Response/Budget.antt =====
-- The budget of a response-file expansion: every word it yields is paid for, and the bytes it read.
use mux_runtime.Common.{
  ℕ, zero, suc, ◌+◌, ◌≤◌, ◌≡◌, arith, Bool-cases, inl, inr, subst, if◌then◌else◌, take, ltb, List,
  [], ◌∷◌, ◌++◌, length, length-append, ok, err, >>=-eq-ok,
}
use mux_runtime.Cli.Host.{Str, Parsed, Host, file_limit, invalid_file}
use mux_runtime.Cli.Token.{tokenize_response_file}
use mux_runtime.Cli.Response.{
  ResponseBudget, new, consume_bytes, consume_argument, Argument, literal, file, classify,
  read_response_file, read_limit, required_or, map_err, expand_argument, expand_loop, expand_levels,
  expand_response_files, max_response_file_bytes, max_response_arguments,
}

-- A step from one budget to another pays for `n` words, and for bytes.
abbrev Paid : ℕ → ResponseBudget → ResponseBudget → Type 0
Paid n b b' =
    (n + b'.remaining_arguments ≡ b.remaining_arguments) × (b'.remaining_bytes ≤ b.remaining_bytes)

consume_argument-Paid : (b b' : ResponseBudget) → consume_argument b ≡ ok b' → Paid 1 b b'
unfolding consume_argument
consume_argument-Paid b b' h = ground arith

consume_bytes-Paid :
    (path : Str) (n : ℕ) (b b' : ResponseBudget) → consume_bytes path n b ≡ ok b' → Paid 0 b b'
unfolding consume_bytes
consume_bytes-Paid path n b b' h = ground arith

abbrev checked_size : ℕ → ℕ → Str → List ℕ → ResponseBudget → Parsed ResponseBudget
checked_size max n path source b =
    if ltb max n then err (file_limit path max) else consume_bytes path n b

checked_size-Paid :
    (max n : ℕ) (path source : Str) (b b' : ResponseBudget)
    → checked_size max n path source b ≡ ok b'
    → Paid 0 b b'
checked_size-Paid max n path source b b' h = elim (Bool-cases (ltb max n)) [
  | inl t ↦ absurd (grind (arith, t, h))
  | inr f ↦ consume_bytes-Paid path n b b' (grind (arith, f, h))
]

abbrev ok_pair : Str → ResponseBudget → Parsed (Str × ResponseBudget)
ok_pair t b = ok (t, b)

abbrev ok_words_pair : List Str → ResponseBudget → Parsed (List Str × ResponseBudget)
ok_words_pair t b = ok (t, b)

abbrev parsed_words : List Str → Parsed (List Str)
parsed_words t = ok t

-- what equal results share
pair_inj : (t u : Str) (b c : ResponseBudget) → ok_pair t b ≡ ok (u, c) → b ≡ c
pair_inj t u b c h = cc

budget_inj : (t u : List Str) (b c : ResponseBudget) → ok_words_pair t b ≡ ok (u, c) → b ≡ c
budget_inj t u b c h = cc

words_inj : (t u : List Str) (b c : ResponseBudget) → ok_words_pair t b ≡ ok (u, c) → t ≡ u
words_inj t u b c h = cc

ok_words : (t u : List Str) → parsed_words t ≡ ok u → t ≡ u
ok_words t u h = cc

module _ (H : Host) where
  read_response_file-Paid :
      (path text : Str) (max : ℕ) (b b' : ResponseBudget)
      → read_response_file H path max b ≡ ok (text, b')
      → Paid 0 b b'
  unfolding read_response_file
  read_response_file-Paid path text max b b' h =
      let (contents, e1, h1) = >>=-eq-ok (required_or _ (H.file_contents path)) _ h in
      let (limit, e2, h2) = >>=-eq-ok (read_limit max b.remaining_bytes) _ h1 in
      let (b1, e3, h3) =
        >>=-eq-ok (checked_size max (length (take limit contents)) path (take limit contents) b) _
          h2 in
      let (t, e4, h4) = >>=-eq-ok (required_or _ (H.from_utf8 (take limit contents))) _ h3 in
      let paid =
        checked_size-Paid max (length (take limit contents)) path (take limit contents) b b1 e3 in
      subst (λ z. Paid 0 b z) (pair_inj t text b1 b' h4) paid

  module _ (nested : List Str → ResponseBudget → Parsed (List Str × ResponseBudget))
      (nested-Paid : (args words : List Str) (b b' : ResponseBudget)
        → nested args b ≡ ok (words, b')
        → Paid (length words) b b') where
    expand_argument-Paid :
        (max : ℕ) (a : Argument) (words : List Str) (b b' : ResponseBudget)
        → expand_argument H nested max a b ≡ ok (words, b')
        → Paid (length words) b b'
    unfolding expand_argument
    expand_argument-Paid max (literal word) words b b' h =
        let (b1, e1, h1) = >>=-eq-ok (consume_argument b) _ h in
        let paid = consume_argument-Paid b b1 e1 in
        subst (λ z. Paid (length z) b b') (words_inj (word ∷ []) words b1 b' h1)
          (subst (λ z. Paid 1 b z) (budget_inj (word ∷ []) words b1 b' h1) paid)
    expand_argument-Paid max (file path) words b b' h =
        let ((source, b1), e1, h1) = >>=-eq-ok (read_response_file H path max b) _ h in
        let (inner, e2, h2) =
          >>=-eq-ok (map_err (invalid_file path) (tokenize_response_file H.is_whitespace source))
            (λ ws. nested ws b1) h1 in
        let read = read_response_file-Paid path source max b b1 e1 in
        let rest = nested-Paid inner words b1 b' h2 in (omega arith, omega arith)

    expand_loop-Paid :
        (max : ℕ) (args words : List Str) (b b' : ResponseBudget)
        → expand_loop H nested max args b ≡ ok (words, b')
        → Paid (length words) b b'
    unfolding expand_loop
    expand_loop-Paid max [] words b b' h =
        subst (λ z. Paid (length z) b b') (words_inj [] words b b' h)
          (subst (λ z. Paid 0 b z) (budget_inj [] words b b' h) (omega arith, omega arith))
    expand_loop-Paid max (a ∷ rest) words b b' h =
        let ((first, b1), e1, h1) = >>=-eq-ok (expand_argument H nested max (classify a) b) _ h in
        let ((others, b2), e2, h2) = >>=-eq-ok (expand_loop H nested max rest b1) _ h1 in
        let one = expand_argument-Paid max (classify a) first b b1 e1 in
        let all = expand_loop-Paid max rest others b1 b2 e2 in
        subst (λ z. Paid (length z) b b') (words_inj (first ++ others) words b2 b' h2)
          (subst (λ z. Paid (length (first ++ others)) b z)
            (budget_inj (first ++ others) words b2 b' h2)
            (omega (arith, length-append first others), omega arith))

  -- At any number of levels that are left, a successful expansion takes from the budget one argument
  -- for each word that it yields, nested files included, and never adds bytes to it.
  pub expand_levels-Paid :
      (levels max : ℕ) (args words : List Str) (b b' : ResponseBudget)
      → expand_levels H levels max args b ≡ ok (words, b')
      → (length words + b'.remaining_arguments ≡ b.remaining_arguments)
        × (b'.remaining_bytes ≤ b.remaining_bytes)
  unfolding expand_levels
  expand_levels-Paid zero max args words b b' h = absurd (cc)
  expand_levels-Paid (suc levels) max args words b b' h =
      expand_loop-Paid (expand_levels H levels max) (expand_levels-Paid levels max) max args words b
        b' h

  -- The expansion of a command line, at any depth, yields at most one million words.
  pub expand_response_files-bound :
      (args words : List Str) (depth : ℕ)
      → expand_response_files H args depth ≡ ok words
      → length words ≤ max_response_arguments
  unfolding expand_response_files new
  expand_response_files-bound args words depth h =
      let ((ws, b), e1, h1) =
        >>=-eq-ok
          (expand_levels H _ max_response_file_bytes args
            (new max_response_file_bytes max_response_arguments))
          _ h in
      let paid =
        expand_levels-Paid _ max_response_file_bytes args ws
          (new max_response_file_bytes max_response_arguments) b e1 in
      subst (λ z. length z ≤ max_response_arguments) (ok_words ws words h1) (omega (arith, paid.0))
