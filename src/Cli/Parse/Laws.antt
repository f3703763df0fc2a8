-- ===== src/Cli/Parse/Laws.antt =====
-- The argument loop of `parse_argument_list` in src/cli.rs ends: every round moves the index on.
use mux_runtime.Common.{
  ℕ, zero, suc, ◌+◌, ◌≤◌, ◌≡◌, refl, ap, ◌∙◌, subst, arith, Bool, true, false, inl, inr,
  if◌then◌else◌, Option, none, some, Option-cases, List, [], ◌∷◌, length, get_elem?,
  lt_of_get_elem?, ok, err, >>=-eq-ok,
}
use mux_runtime.Cli.Host.{Str, CliError, Parsed, OptionSpec, ParserEntry, Host}
use mux_runtime.Cli.Options.{
  next_option_value, long_option_value, short_option_value, find_long_option, find_short_option,
  record_option,
}
use mux_runtime.Cli.Parse.{
  MatchesEntry, ParseState, Shape, double_dash, long, short, plain, split_value, parse_long_option,
  parse_short_options, record_short, parse_positional, parse_option, parse_argument,
  parse_argument_loop,
}

next_option_value-index :
    (args : List Str) (index j : ℕ) (e : CliError) (v : Str)
    → next_option_value args index e ≡ ok (v, j)
    → index ≤ j
unfolding next_option_value
next_option_value-index args index j e v h = ground arith

long_option_value-index :
    (o : OptionSpec) (inline : Option Str) (args : List Str) (index j : ℕ) (name v : Str)
    → long_option_value o inline args index name ≡ ok (v, j)
    → index ≤ j
unfolding long_option_value next_option_value
long_option_value-index o (some x) args index j name v h = ground arith
long_option_value-index o none args index j name v h = ground arith

short_option_value-index :
    (takes : Bool) (cs : Str) (args : List Str) (index c j : ℕ) (v left : Str)
    → short_option_value takes cs args index c ≡ ok (v, left, j)
    → index ≤ j
unfolding short_option_value next_option_value
short_option_value-index false cs args index c j v left h = ground arith
short_option_value-index true [] args index c j v left h = ground arith
short_option_value-index true (x ∷ cs) args index c j v left h = ground arith

abbrev moved_to : ℕ → ParseState → Parsed (ℕ × ParseState)
moved_to i s = ok (i, s)

index_inj : (i j : ℕ) (s t : ParseState) → moved_to i s ≡ ok (j, t) → i ≡ j
index_inj i j s t h = cc

abbrev Round : Type 0
Round = Bool × ℕ × Bool × ParseState

abbrev round : Bool → ℕ → Bool → ParseState → Parsed Round
round g i e s = ok (g, i, e, s)

step_inj :
    (g g' : Bool) (i j : ℕ) (e e' : Bool) (s t : ParseState)
    → round g i e s ≡ ok (g', j, e', t)
    → i ≡ j
step_inj g g' i j e e' s t h = cc

-- what follows an option of a cluster
cluster_rest :
    (i j : ℕ) (s t : ParseState) (more : Parsed (ℕ × ParseState))
    → (more ≡ ok (j, t) → i ≤ j)
    → (left : Str) → elim left [ [] ↦ moved_to i s | d ∷ ds ↦ more ] ≡ ok (j, t)
    → i ≤ j
cluster_rest i j s t more ih [] h = subst (λ z. i ≤ z) (index_inj i j s t h) (omega arith)
cluster_rest i j s t more ih (d ∷ ds) h = ih h

-- what a round of the loop is followed by
abbrev after_round :
    (ℕ → Bool → ParseState → Option (Parsed ParseState)) → Parsed Round → Option (Parsed ParseState)
after_round f (err x) = some (err x)
after_round f (ok (goes_on, i, e, s)) = if goes_on then f i e s else some (ok s)

-- Two loops end alike behind a round if they do so at its state.
abbrev EndAlike : (a b : Option (Parsed ParseState)) → Type 0
EndAlike a b = (r : Parsed ParseState) × (a ≡ some r) × (b ≡ some r)

rounds_agree :
    (r : Parsed Round) (f g : ℕ → Bool → ParseState → Option (Parsed ParseState))
    → ((i : ℕ) (e : Bool) (s : ParseState) → r ≡ ok (true, i, e, s) → EndAlike (f i e s) (g i e s))
    → EndAlike (after_round f r) (after_round g r)
rounds_agree (err x) f g h = (err x, refl, refl)
rounds_agree (ok (true, i, e, s)) f g h = h i e s refl
rounds_agree (ok (false, i, e, s)) f g h = (ok s, refl, refl)

parse_long_option-index :
    (entry : ParserEntry) (args : List Str) (index j : ℕ) (raw : Str) (state state' : ParseState)
    → parse_long_option entry args index raw state ≡ ok (j, state')
    → index ≤ j
unfolding parse_long_option
parse_long_option-index entry args index j raw state state' h =
    let (name, inline) = split_value raw in
    let (o, e1, h1) = >>=-eq-ok (find_long_option entry (split_value raw).0) _ h in
    let ((v, i), e2, h2) =
      >>=-eq-ok (long_option_value o (split_value raw).1 args index (split_value raw).0) _ h1 in
    let (vals, e3, h3) = >>=-eq-ok (record_option state.values o _ v) _ h2 in
    let moved =
      long_option_value-index o (split_value raw).1 args index i (split_value raw).0 v e2 in
    subst (λ z. index ≤ z) (index_inj i j _ state' h3) moved

parse_short_options-index :
    (entry : ParserEntry) (args : List Str) (cluster : Str) (index j : ℕ)
    (state state' : ParseState)
    → parse_short_options entry args index cluster state ≡ ok (j, state')
    → index ≤ j
unfolding parse_short_options
parse_short_options-index entry args [] index j state state' h =
    subst (λ z. index ≤ z) (index_inj index j state state' h) (omega arith)
parse_short_options-index entry args (c ∷ cs) index j state state' h =
    let (o, e1, h1) = >>=-eq-ok (find_short_option entry c) _ h in
    let ((v, left, i), e2, h2) =
      >>=-eq-ok (short_option_value o.takes_value cs args index c) _ h1 in
    let (s, e3, h3) = >>=-eq-ok (record_short o c v left state) _ h2 in
    let first = short_option_value-index o.takes_value cs args index c i v left e2 in
    let rest =
      cluster_rest i j s state' (parse_short_options entry args i cs s)
        (λ k. parse_short_options-index entry args cs i j s state' k) left h3 in
    omega (arith, first, rest)

module _ (H : Host) (parse_child : ParserEntry → List Str → Parsed MatchesEntry) where
  parse_option-index :
      (sh : Shape) (entry : ParserEntry) (arg : Str) (args : List Str) (index j : ℕ)
      (ends ended goes_on : Bool) (state state' : ParseState)
      → parse_option H parse_child sh entry arg args index ends state
        ≡ ok (goes_on, j, ended, state')
      → index ≤ j
  unfolding parse_option
  parse_option-index double_dash entry arg args index j ends ended goes_on state state' h =
      subst (λ z. index ≤ z) (step_inj true goes_on index j true ended state state' h) (omega arith)
  parse_option-index (long raw) entry arg args index j ends ended goes_on state state' h =
      let ((i, s), e1, h1) = >>=-eq-ok (parse_long_option entry args index raw state) _ h in
      subst (λ z. index ≤ z) (step_inj true goes_on i j ends ended s state' h1)
        (parse_long_option-index entry args index i raw state s e1)
  parse_option-index (short cluster) entry arg args index j ends ended goes_on state state' h =
      let ((i, s), e1, h1) = >>=-eq-ok (parse_short_options entry args index cluster state) _ h in
      subst (λ z. index ≤ z) (step_inj true goes_on i j ends ended s state' h1)
        (parse_short_options-index entry args cluster index i state s e1)
  parse_option-index plain entry arg args index j ends ended goes_on state state' h =
      let ((g, s), e1, h1) =
        >>=-eq-ok (parse_positional H parse_child entry arg args index state) _ h in
      subst (λ z. index ≤ z) (step_inj g goes_on index j ends ended s state' h1) (omega arith)

  loop_gone :
      (fuel : ℕ) (entry : ParserEntry) (args : List Str) (index : ℕ) (ends : Bool)
      (state : ParseState)
      → get_elem? args index ≡ none
      → parse_argument_loop H parse_child (suc fuel) entry args index ends state ≡ some (ok state)
  unfolding parse_argument_loop
  loop_gone fuel entry args index ends state h = rw (h, parse_argument_loop) refl

  abbrev loop_behind :
      ℕ → ParserEntry → List Str → ℕ → Bool → ParseState → Option (Parsed ParseState)
  loop_behind fuel entry args i e s = parse_argument_loop H parse_child fuel entry args (i + 1) e s

  loop_found :
      (fuel : ℕ) (entry : ParserEntry) (args : List Str) (index : ℕ) (ends : Bool)
      (state : ParseState) (arg : Str)
      → get_elem? args index ≡ some arg
      → parse_argument_loop H parse_child (suc fuel) entry args index ends state
        ≡ after_round
            (loop_behind fuel entry args)
            (parse_argument H parse_child entry arg args index ends state)
  unfolding parse_argument_loop
  loop_found fuel entry args index ends state arg h =
      rw (h, parse_argument_loop)
        (elim (parse_argument H parse_child entry arg args index ends state) [
          | err e ↦ refl
          | ok r ↦ refl
        ])

  -- The argument loop ends within one round more than there are arguments from the index on, with a
  -- state or an error of the parser, and with more rounds allowed it ends with the same.
  pub parse_argument_loop-enough :
      (fuel extra : ℕ) (entry : ParserEntry) (args : List Str) (index : ℕ) (ends : Bool)
      (state : ParseState)
      → length args ≤ index + fuel
      → (r : Parsed ParseState) × (parse_argument_loop H parse_child
            (suc fuel)
            entry
            args
            index
            ends
            state
          ≡ some r)
        × (parse_argument_loop H parse_child (suc (fuel + extra)) entry args index ends state
            ≡ some r)
  unfolding parse_argument
  parse_argument_loop-enough zero extra entry args index ends state le =
      elim (Option-cases (get_elem? args index)) [
        | inl gone ↦ (
          ok state,
          loop_gone 0 entry args index ends state gone,
          loop_gone (0 + extra) entry args index ends state gone,
        )
        | inr (arg, found) ↦ absurd (omega (arith, lt_of_get_elem? args index found))
      ]
  parse_argument_loop-enough (suc fuel) extra entry args index ends state le =
      elim (Option-cases (get_elem? args index)) [
        | inl gone ↦ (
          ok state,
          loop_gone (suc fuel) entry args index ends state gone,
          loop_gone (suc fuel + extra) entry args index ends state gone,
        )
        | inr (arg, found) ↦
            let (r, less, more) =
              rounds_agree (parse_argument H parse_child entry arg args index ends state)
                (loop_behind (suc fuel) entry args) (loop_behind (suc fuel + extra) entry args)
                (λ i e s r.
                  let up = parse_option-index _ entry arg args index i ends e true state s r in
                  let (q, l, m) =
                    parse_argument_loop-enough fuel extra entry args (i + 1) e s
                      (omega (arith, up)) in
                  (
                    q,
                    l,
                    ap (λ (k : ℕ). parse_argument_loop H parse_child k entry args (i + 1) e s)
                          (omega arith)
                        ∙ m,
                  )) in
            (
              r,
              loop_found (suc fuel) entry args index ends state arg found ∙ less,
              loop_found (suc fuel + extra) entry args index ends state arg found ∙ more,
            )
      ]
