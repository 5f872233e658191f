-- ===== src/Workflows/Materialize/Inputs.antt =====
-- What BindInputs binds, and what its errors mean.
use kruntimes.Base.{
  ◌≡◌, ◌⊎◌, inl, inr, refl, sym, String, string_eq, ◌==◌, Bool, true, ◌&&◌, not, List, [], ◌∷◌, map,
  Option, none, some, is_some, arith, Bool-cases, Option-cases, eq_iff,
}
use kruntimes.Base.Maps.{Map, lookup, insert, lookup-insert}
use kruntimes.Base.Text.{str_lt}
use kruntimes.Base.Results.{Result, ok, err, ◌>>=◌}
use kruntimes.Base.Sort.{Member, sort_by, sort_by-Member, Member-sort_by}
use kruntimes.Api.Workflow.{WorkflowInputSpec}
use kruntimes.Workflows.Materialize.{
  MaterializeError, unknown_input, missing_required_input, given_or_default, input_or_zero,
  check_known, bind_each, bind_inputs,
}

-- The given value, or the default of a declared input.
abbrev pub value_of : Option WorkflowInputSpec → Option String → Option String
value_of none given = none
value_of (some input) given = some (given_or_default given input.default)

module _ (inputs : Map String WorkflowInputSpec) (values : Map String String) where
  -- A declared input that has no value, no default and needs one.
  pub record IsMissing (name : String) : Type 0 where
    pub input : WorkflowInputSpec
    pub declared : lookup name inputs ≡ some input
    pub is_required : input.required ≡ true
    pub no_default : input.default ≡ ""
    pub not_given : lookup name values ≡ none

  -- What the answer says: each name has its value, or the error is as it says.
  abbrev pub IsBinding : String → Result MaterializeError (Map String String) → Type 0
  IsBinding name (ok bound) = lookup name bound ≡ value_of (lookup name inputs) (lookup name values)
  IsBinding name (err (unknown_input other)) =
      (lookup other inputs ≡ none) × (is_some (lookup other values) ≡ true)
  IsBinding name (err (missing_required_input other)) = IsMissing other
  IsBinding name (err _) = ⊥

  keys : Map String WorkflowInputSpec → List String
  keys m = map (λ (e : String × WorkflowInputSpec). e.0) m

  lookup-keys :
      (name : String) (m : Map String WorkflowInputSpec)
      → (lookup name m ≡ none) ⊎ Member name (keys m)
  unfolding lookup keys
  lookup-keys name [] = inl refl
  lookup-keys name ((key, spec) ∷ rest) = elim (Bool-cases (key == name)) [
    | inl same ↦ inr (inl (sym ((eq_iff key name).0 same)))
    | inr other ↦ elim (lookup-keys name rest) [
      | inl missing ↦ inl (rw other missing)
      | inr later ↦ inr (inr later)
    ]
  ]

  keys-lookup :
      (name : String) (m : Map String WorkflowInputSpec)
      → Member name (keys m)
      → (spec : WorkflowInputSpec) × (lookup name m ≡ some spec)
  unfolding lookup keys
  keys-lookup name [] m = elim m [ ]
  keys-lookup name ((key, spec) ∷ rest) m = elim (Bool-cases (key == name)) [
    | inl same ↦ (spec, rw same refl)
    | inr other ↦ elim m [
      | inl here ↦ absurd (ground (arith, eq_iff key name))
      | inr later ↦ let (found, e) = keys-lookup name rest later in (found, rw other e)
    ]
  ]

  abbrev expected : String → Option String
  expected name = value_of (lookup name inputs) (lookup name values)

  abbrev bound_value : String → String
  bound_value name =
      given_or_default (lookup name values) (input_or_zero (lookup name inputs)).default

  abbrev fails : String → Bool
  fails name =
      (bound_value name == "")
      && ((input_or_zero (lookup name inputs)).required
          && (not (is_some (lookup name values))
              && ((input_or_zero (lookup name inputs)).default == "")))

  AreDeclared : List String → Type 0
  AreDeclared names =
      (k : String) → Member k names → (spec : WorkflowInputSpec) × (lookup k inputs ≡ some spec)

  fails-IsMissing :
      (name : String) (spec : WorkflowInputSpec)
      → lookup name inputs ≡ some spec
      → fails name ≡ true
      → IsMissing name
  fails-IsMissing name spec declared h = record {
    input = spec;
    declared = declared;
    is_required = ground arith;
    no_default = ground (arith, eq_iff spec.default "");
    not_given = elim (Option-cases (lookup name values)) [
      | inl missing ↦ missing
      | inr (given, e) ↦ absurd (ground arith)
    ];
  }

  written-expected :
      (k name : String) (acc : Map String String) (spec : WorkflowInputSpec)
      → lookup k inputs ≡ some spec
      → (k ≡ name) ⊎ (lookup name acc ≡ expected name)
      → lookup name (insert k (bound_value k) acc) ≡ expected name
  written-expected k name acc spec declared h = elim (Bool-cases (k == name)) [
    | inl same ↦
        let is_name : k ≡ name = (eq_iff k name).0 same in
        rw (lookup-insert k name (bound_value k) acc, same, ← is_name, declared) refl
    | inr other ↦ elim h [
      | inl here ↦ absurd (ground (arith, eq_iff k name))
      | inr before ↦ rw (lookup-insert k name (bound_value k) acc, other) before
    ]
  ]

  bind_each-keeps :
      (name : String) (names : List String) (acc : Map String String)
      → AreDeclared names
      → lookup name acc ≡ expected name
      → IsBinding name (bind_each inputs values names acc)
  unfolding bind_each AreDeclared
  bind_each-keeps name [] acc all h = h
  bind_each-keeps name (k ∷ names) acc all h =
      let (spec, declared) = all k (inl refl) in
      elim (Bool-cases (fails k)) [
        | inl failing ↦ rw failing (fails-IsMissing k spec declared failing)
        | inr fine ↦ rw fine (
            bind_each-keeps name names (insert k (bound_value k) acc) (λ j m. all j (inr m))
              (written-expected k name acc spec declared (inr h)))
      ]

  bind_each-binds :
      (name : String) (names : List String) (acc : Map String String)
      → AreDeclared names
      → Member name names
      → IsBinding name (bind_each inputs values names acc)
  unfolding bind_each AreDeclared
  bind_each-binds name [] acc all m = elim m [ ]
  bind_each-binds name (k ∷ names) acc all m =
      let (spec, declared) = all k (inl refl) in
      elim (Bool-cases (fails k)) [
        | inl failing ↦ rw failing (fails-IsMissing k spec declared failing)
        | inr fine ↦ rw fine (elim m [
          | inl here ↦
              bind_each-keeps name names (insert k (bound_value k) acc) (λ j n. all j (inr n))
                (written-expected k name acc spec declared (inl (sym here)))
          | inr later ↦
              bind_each-binds name names (insert k (bound_value k) acc) (λ j n. all j (inr n)) later
        ])
      ]

  sorted_names : List String
  sorted_names = sort_by str_lt (keys inputs)

  sorted-AreDeclared : AreDeclared sorted_names
  unfolding AreDeclared sorted_names
  sorted-AreDeclared k m = keys-lookup k inputs (Member-sort_by str_lt k (keys inputs) m)

  all-IsBinding : (name : String) → IsBinding name (bind_each inputs values sorted_names [])
  unfolding sorted_names lookup
  all-IsBinding name = elim (lookup-keys name inputs) [
    | inl undeclared ↦ bind_each-keeps name sorted_names [] sorted-AreDeclared (rw undeclared refl)
    | inr member ↦
        bind_each-binds name sorted_names [] sorted-AreDeclared
          (sort_by-Member str_lt name (keys inputs) member)
  ]

  check_known-IsBinding :
      (name : String) (given : Map String String)
      (next : Result MaterializeError (Map String String))
      → ((k : String) → is_some (lookup k given) ≡ true → is_some (lookup k values) ≡ true)
      → IsBinding name next
      → IsBinding name (check_known inputs given >>= (λ _. next))
  unfolding check_known lookup
  check_known-IsBinding name [] next within h = h
  check_known-IsBinding name ((key, value) ∷ rest) next within h =
      elim (Option-cases (lookup key inputs)) [
        | inl undeclared ↦ rw undeclared (undeclared, within key (ground (arith, eq_iff key key)))
        | inr (spec, declared) ↦
            rw declared (check_known-IsBinding name rest next (λ k e. within k (ground arith)) h)
      ]

  -- For any declared inputs, any given values and any name: where BindInputs succeeds, the name is bound
  -- to the given value of that input, or else to its default, and a name that is not declared is not
  -- bound. An unknown input that it reports was given and is not declared; a missing one is declared as
  -- required, has no default and was not given. It has no other error.
  pub bind_inputs-IsBinding : (name : String) → IsBinding name (bind_inputs inputs values)
  unfolding bind_inputs sorted_names keys
  bind_inputs-IsBinding name = check_known-IsBinding name values _ (λ k e. e) (all-IsBinding name)
