-- ===== src/Cli/Finish/Laws.antt =====
-- What `apply_option_defaults` of src/cli.rs leaves behind.
use mux_runtime.Common.{
  ◌≡◌, ◌≢◌, ◌⊎◌, refl, sym, ◌∙◌, subst, arith, true, false, Bool-cases, inl, inr, Option, none,
  some, Option-cases, List, [], ◌∷◌, ok, >>=-eq-ok,
}
use mux_runtime.Cli.Host.{Str, str_eq, Parsed, OptionSpec, Host}
use mux_runtime.Cli.Options.{Values, contains_key, values_of, push_value}
use mux_runtime.Cli.Finish.{from_env, fallback, default_one, apply_option_defaults}

str_eq_self : (s : Str) → str_eq s s ≡ true
unfolding str_eq
str_eq_self [] = refl
str_eq_self (c ∷ cs) = ground (arith, str_eq_self cs)

str_eq-eq : (s t : Str) → str_eq s t ≡ true → s ≡ t
unfolding str_eq
str_eq-eq [] [] h = refl
str_eq-eq [] (d ∷ ds) h = absurd (cc)
str_eq-eq (c ∷ cs) [] h = absurd (cc)
str_eq-eq (c ∷ cs) (d ∷ ds) h = ground (arith, str_eq-eq cs ds)

-- the values of an option that had none, after a push for it, and those of every other option
values_of-push_value_new :
    (name v : Str) (vals : Values)
    → values_of name vals ≡ none
    → values_of name (push_value name v vals) ≡ some (v ∷ [])
unfolding values_of push_value
values_of-push_value_new name v [] h = ground (arith, str_eq_self name)
values_of-push_value_new name v ((k, vs) ∷ rest) h =
    ground (arith, values_of-push_value_new name v rest)

values_of-push_value_other :
    (name key v : Str) (vals : Values)
    → str_eq name key ≡ false
    → values_of key (push_value name v vals) ≡ values_of key vals
unfolding values_of push_value
values_of-push_value_other name key v [] h = ground arith
values_of-push_value_other name key v ((k, vs) ∷ rest) h =
    ground (arith, values_of-push_value_other name key v rest h, str_eq-eq k name)

-- an option that has values, or has none
values_cases :
    (name : Str) (vals : Values)
    → ((values_of name vals ≡ none) × (contains_key name vals ≡ false))
      ⊎ ((vs : List Str) × (values_of name vals ≡ some vs) × (contains_key name vals ≡ true))
unfolding contains_key
values_cases name vals = elim (Option-cases (values_of name vals)) [
  | inl e ↦ inl (e, ground (arith, e))
  | inr (vs, e) ↦ inr (vs, e, ground (arith, e))
]

abbrev given : Values → Parsed Values
given vals = ok vals

values_inj : (a b : Values) → given a ≡ ok b → a ≡ b
values_inj a b h = cc

module _ (H : Host) where
  -- No value comes from the environment: the option names no variable, or one that is not set.
  abbrev pub Unset : OptionSpec → Type 0
  Unset o =
      (o.env ≡ none) ⊎ ((variable : Str) × (o.env ≡ some variable) × (H.env_var variable ≡ none))

  -- Where a value that was not given comes from: the variable that the option names, if it is set, and
  -- else the option's default
  abbrev pub Source : OptionSpec → Str → Type 0
  Source o v =
      ((variable : Str) × (o.env ≡ some variable) × (H.env_var variable ≡ some v))
      ⊎ (Unset o × (o.default ≡ some v))

  -- The values of a name that was given none: one value, from the first option of that name that has a
  -- source for it, or none, where no option of the name has one and none of them is required.
  abbrev pub Filled : List OptionSpec → Str → Option (List Str) → Type 0
  Filled [] key vs = vs ≡ none
  Filled (o ∷ os) key vs =
      ((o.name ≡ key) × ((v : Str) × Source o v × (vs ≡ some (v ∷ []))))
      ⊎ (((o.name ≢ key) ⊎ ((o.required ≡ false) × Unset o × (o.default ≡ none)))
          × Filled os key vs)

  fallback_cases :
      (o : OptionSpec)
      → ((v : Str) × Source o v × (fallback H o ≡ some v))
        ⊎ (Unset o × (o.default ≡ none) × (fallback H o ≡ none))
  unfolding fallback from_env
  fallback_cases o = elim (Option-cases o.env) [
    | inl e ↦ elim (Option-cases o.default) [
      | inl d ↦ inr (inl e, d, ground (arith, e, d))
      | inr (v, d) ↦ inl (v, inr (inl e, d), ground (arith, e, d))
    ]
    | inr (variable, e) ↦ elim (Option-cases (H.env_var variable)) [
      | inr (v, f) ↦ inl (v, inl (variable, e, f), ground (arith, e, f))
      | inl f ↦ elim (Option-cases o.default) [
        | inl d ↦ inr (inr (variable, e, f), d, ground (arith, e, f, d))
        | inr (v, d) ↦ inl (v, inr (inr (variable, e, f), d), ground (arith, e, f, d))
      ]
    ]
  ]

  default_one_cases :
      (o : OptionSpec) (vals middle : Values)
      → default_one H o vals ≡ ok middle
      → ((vs : List Str) × (values_of o.name vals ≡ some vs) × (vals ≡ middle))
        ⊎ ((values_of o.name vals ≡ none)
            × ((v : Str) × Source o v × (push_value o.name v vals ≡ middle)))
        ⊎ ((values_of o.name vals ≡ none)
            × (o.required ≡ false)
            × Unset o
            × (o.default ≡ none)
            × (vals ≡ middle))
  unfolding default_one
  default_one_cases o vals middle h = elim (values_cases o.name vals) [
    | inr (vs, e, c) ↦ inl (vs, e, values_inj vals middle (sym (rw (c) refl) ∙ h))
    | inl (e, c) ↦ elim (fallback_cases o) [
      | inl (v, source, f) ↦ inr (
          inl (
            e,
            (v, source, values_inj (push_value o.name v vals) middle (ground (arith, c, f, h))),
          ))
      | inr (unset, d, f) ↦ elim (Bool-cases o.required) [
        | inl r ↦ absurd (ground (arith, c, f, r, h))
        | inr r ↦ inr (inr (e, r, unset, d, values_inj vals middle (ground (arith, c, f, r, h))))
      ]
    ]
  ]

  -- What the defaults leave under one name
  abbrev pub Defaulted : List OptionSpec → Str → Values → Values → Type 0
  Defaulted os key vals vals' =
      ((vs : List Str) × (values_of key vals ≡ some vs) × (values_of key vals' ≡ some vs))
      ⊎ ((values_of key vals ≡ none) × Filled os key (values_of key vals'))

  -- behind an option whose round adds nothing under the name
  goes_by :
      (o : OptionSpec) (os : List OptionSpec) (key : Str) (vals vals' : Values)
      → ((values_of key vals ≡ none)
          → (o.name ≢ key) ⊎ ((o.required ≡ false) × Unset o × (o.default ≡ none)))
      → Defaulted os key vals vals'
      → Defaulted (o ∷ os) key vals vals'
  goes_by o os key vals vals' by (inl h) = inl h
  goes_by o os key vals vals' by (inr (n, filled)) = inr (n, inr (by n, filled))

  -- behind the option that adds its value under the name
  adds :
      (o : OptionSpec) (os : List OptionSpec) (key v : Str) (vals vals' : Values)
      → o.name ≡ key
      → values_of key vals ≡ none
      → Source o v
      → values_of key (push_value o.name v vals) ≡ some (v ∷ [])
      → Defaulted os key (push_value o.name v vals) vals'
      → Defaulted (o ∷ os) key vals vals'
  adds o os key v vals vals' same n source new (inl (vs, a, b)) =
      inr (n, inl (same, (v, source, b ∙ (sym a ∙ new))))
  adds o os key v vals vals' same n source new (inr (m, filled)) = absurd (cc)

  -- behind an option that adds a value under another name
  adds_elsewhere :
      (o : OptionSpec) (os : List OptionSpec) (key : Str) (vals middle vals' : Values)
      → o.name ≢ key
      → values_of key middle ≡ values_of key vals
      → Defaulted os key middle vals'
      → Defaulted (o ∷ os) key vals vals'
  adds_elsewhere o os key vals middle vals' other t (inl (vs, a, b)) = inl (vs, sym t ∙ a, b)
  adds_elsewhere o os key vals middle vals' other t (inr (n, filled)) =
      inr (sym t ∙ n, inr (inl other, filled))

  pushed_round :
      (o : OptionSpec) (os : List OptionSpec) (key v : Str) (vals vals' : Values)
      → values_of o.name vals ≡ none
      → Source o v
      → Defaulted os key (push_value o.name v vals) vals'
      → Defaulted (o ∷ os) key vals vals'
  pushed_round o os key v vals vals' n source later = elim (Bool-cases (str_eq o.name key)) [
    | inl t ↦
        let same = str_eq-eq o.name key t in
        adds o os key v vals vals' same (subst (λ k. values_of k vals ≡ none) same n) source
          (subst (λ k. values_of k (push_value o.name v vals) ≡ some (v ∷ [])) same
            (values_of-push_value_new o.name v vals n))
          later
    | inr f ↦
        adds_elsewhere o os key vals (push_value o.name v vals) vals'
          (λ same. absurd (cc (f, same, str_eq_self key)))
          (values_of-push_value_other o.name key v vals f) later
  ]

  -- Where the defaults are applied without an error, a name that was given values keeps exactly those.
  -- A name that was given none has one value, of the variable that the first option of the name with a
  -- source names or else of its default; or it has none, and no option of the name has a source or is
  -- required.
  pub apply_option_defaults-Defaulted :
      (os : List OptionSpec) (vals vals' : Values) (key : Str)
      → apply_option_defaults H os vals ≡ ok vals'
      → Defaulted os key vals vals'
  unfolding apply_option_defaults
  apply_option_defaults-Defaulted [] vals vals' key h = elim (Option-cases (values_of key vals)) [
    | inl e ↦ inr (e, subst (λ z. values_of key z ≡ none) (values_inj vals vals' h) e)
    | inr (vs, e) ↦ inl (vs, e, subst (λ z. values_of key z ≡ some vs) (values_inj vals vals' h) e)
  ]
  apply_option_defaults-Defaulted (o ∷ os) vals vals' key h =
      let (middle, e, rest) = >>=-eq-ok (default_one H o vals) _ h in
      let later = apply_option_defaults-Defaulted os middle vals' key rest in
      elim (default_one_cases o vals middle e) [
        | inl (vs, given, same) ↦
            goes_by o os key vals vals' (λ n. inl (λ name. absurd (cc (given, n, name))))
              (subst (λ z. Defaulted os key z vals') (sym same) later)
        | inr (inl (n, (v, source, same))) ↦
            pushed_round o os key v vals vals' n source
              (subst (λ z. Defaulted os key z vals') (sym same) later)
        | inr (inr (n, required, unset, default, same)) ↦
            goes_by o os key vals vals' (λ m. inr (required, unset, default))
              (subst (λ z. Defaulted os key z vals') (sym same) later)
      ]
