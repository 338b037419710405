-- ===== src/Actions/KeyLaws.antt =====
-- The keys of the normalized parameters: only those of the contract, and all that it requires.
use ev4_constructability_eng.Base.{
  ◌≡◌, refl, ap, sym, subst, ◌∙◌, ◌⊎◌, inl, inr, eq_iff, String, Bool, true, false, not, ◌&&◌, ◌||◌,
  ◌==◌, List, [], ◌∷◌, All, All-map, is_empty, is_empty-eq, keep, arith, or_true, str_in,
  Bool-cases,
}
use ev4_constructability_eng.Base.Python.{ok, >>=-eq-ok, ensure-then, ok-injective}
use ev4_constructability_eng.Json.{Json, Fields, end, field, has_key}
use ev4_constructability_eng.Registry.Contract.{ActionContract}
use ev4_constructability_eng.Actions.Canonical.{canonical, canonical_fields, insert_field}
use ev4_constructability_eng.Actions.Values.{normalize_value}
use ev4_constructability_eng.Actions.Parameters.{
  allowed_keys, append_field, canonical_key, class_checks, is_alias, is_decision_key, missing,
  normalized_parameters, parameter_loop, parameter_step,
}

has_key-append_field :
    (k : String) (fs : Fields) (j : String) (w : Json)
    → has_key k (append_field fs j w) ≡ (has_key k fs || j == k)
unfolding append_field
has_key-append_field k end j w = ground arith
has_key-append_field k (field i v fs) j w = ground (arith, has_key-append_field k fs j w)

has_key-insert_field :
    (k j : String) (w : Json) (fs : Fields)
    → has_key k (insert_field j w fs) ≡ (j == k || has_key k fs)
unfolding insert_field
has_key-insert_field k j w end = ground arith
has_key-insert_field k j w (field i v fs) = ground (arith, has_key-insert_field k j w fs)

-- Sorting the keys loses none and adds none.
pub has_key-canonical_fields :
    (k : String) (fs : Fields) → has_key k (canonical_fields fs) ≡ has_key k fs
unfolding canonical
has_key-canonical_fields k end = refl
has_key-canonical_fields k (field j v fs) =
    has_key-insert_field k j (canonical v) (canonical_fields fs)
    ∙ ap (λ (b : Bool). j == k || b) (has_key-canonical_fields k fs)
    ∙ ground arith

-- Every key is one of a list.
abbrev pub KeysIn : Fields → List String → Type 0
KeysIn fs names = (k : String) → has_key k fs ≡ true → str_in k names ≡ true

module _ (action_type : String) (contract : ActionContract) (parameters : Fields) where
  -- A round leaves the parameters, or adds one that the contract allows and that is new.
  abbrev Step : Fields → String → Json → Fields → Type 0
  Step normalized key v grown =
      (grown ≡ normalized)
      ⊎ ((w : Json) × (grown ≡ append_field normalized (canonical_key contract key) w)
          × (str_in (canonical_key contract key) (allowed_keys contract) ≡ true)
          × (has_key (canonical_key contract key) normalized ≡ false)
          × (normalize_value (canonical_key contract key) v ≡ ok w))

  Step-cases :
      (normalized : Fields) (key : String) (v : Json) (grown : Fields)
      → parameter_step action_type contract parameters normalized key v ≡ ok grown
      → Step normalized key v grown
  unfolding parameter_step
  Step-cases normalized key v grown h =
      let name = canonical_key contract key in
      elim (Bool-cases (is_alias contract key && has_key name parameters)) [
        | inl e ↦ cc (rw e at h)
        | inr e ↦ elim (Bool-cases (is_decision_key key)) [
          | inl d ↦ inl (sym (ok-injective (rw (e, d) at h)))
          | inr d ↦ elim (Bool-cases (str_in name (allowed_keys contract))) [
            | inr out ↦ cc (rw (e, d, out) at h)
            | inl known ↦ elim (Bool-cases (has_key name normalized)) [
              | inl twice ↦ cc (rw (e, d, known, twice) at h)
              | inr new ↦
                  let (w, value, h1) =
                    >>=-eq-ok (normalize_value name v) _ (rw (e, d, known, new) at h) in
                  inr (w, sym (ok-injective h1), known, new, value)
            ]
          ]
        ]
      ]

  Step-KeysIn :
      (normalized : Fields) (key : String) (v : Json) (grown : Fields)
      → Step normalized key v grown
      → KeysIn normalized (allowed_keys contract)
      → KeysIn grown (allowed_keys contract)
  Step-KeysIn normalized key v grown (inl same) inside =
      subst (λ fs. KeysIn fs (allowed_keys contract)) (sym same) inside
  Step-KeysIn normalized key v grown (inr (w, same, known, _, _)) inside =
      subst (λ fs. KeysIn fs (allowed_keys contract)) (sym same)
        (λ k has.
          elim (or_true (has_key k normalized) (canonical_key contract key == k)
            (sym (has_key-append_field k normalized (canonical_key contract key) w) ∙ has)) [
              | inl old ↦ inside k old
              | inr e ↦ rw (← (eq_iff (canonical_key contract key) k).0 e) known
            ])

  loop_KeysIn :
      (rest normalized result : Fields)
      → parameter_loop action_type contract parameters normalized rest ≡ ok result
      → KeysIn normalized (allowed_keys contract)
      → KeysIn result (allowed_keys contract)
  unfolding parameter_loop
  loop_KeysIn end normalized result h inside =
      subst (λ fs. KeysIn fs (allowed_keys contract)) (ok-injective h) inside
  loop_KeysIn (field key v rest) normalized result h inside =
      let (grown, stepped, h1) =
        >>=-eq-ok (parameter_step action_type contract parameters normalized key v) _ h in
      loop_KeysIn rest grown result h1
        (Step-KeysIn normalized key v grown (Step-cases normalized key v grown stepped) inside)

  missing_none :
      (names : List String) (normalized : Fields)
      → keep (λ key. not (has_key key normalized)) names ≡ []
      → All (λ key. has_key key normalized ≡ true) names
  missing_none [] normalized h = tt
  missing_none (key ∷ names) normalized h = elim (Bool-cases (has_key key normalized)) [
    | inl e ↦ (e, missing_none names normalized (rw e at h))
    | inr e ↦ cc (rw e at h)
  ]

  no_keys : (names : List String) → KeysIn end names
  no_keys names k has = cc

  -- The keys of the result are the contract's, and every required one is there.
  pub normalized_parameters-KeysIn :
      (result : Fields)
      → normalized_parameters action_type contract parameters ≡ ok result
      → KeysIn result (allowed_keys contract)
        × All (λ key. has_key key result ≡ true) contract.required_parameter_keys
  unfolding normalized_parameters
  normalized_parameters-KeysIn result h =
      let (normalized, looped, h1) =
        >>=-eq-ok (parameter_loop action_type contract parameters end parameters) _ h in
      let (none_missing, h2) = ensure-then (is_empty (missing contract normalized)) _ _ h1 in
      let (_, _, h3) = >>=-eq-ok (class_checks action_type normalized) _ h2 in
      let same : canonical_fields normalized ≡ result = ok-injective h3 in
      let inside = loop_KeysIn parameters end normalized looped (no_keys (allowed_keys contract)) in
      subst
        (λ fs.
          KeysIn fs (allowed_keys contract)
          × All (λ key. has_key key fs ≡ true) contract.required_parameter_keys)
        same
        (
          λ k has. inside k (sym (has_key-canonical_fields k normalized) ∙ has),
          All-map contract.required_parameter_keys
              (λ key has. has_key-canonical_fields key normalized ∙ has)
              (missing_none contract.required_parameter_keys normalized
                (is_empty-eq _ none_missing)),
        )
