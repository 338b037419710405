-- ===== src/Registry/Contract.antt =====
-- validator/action_contract_registry.py: the contract of one Builder action.
use ev4_constructability_eng.Base.{String, Option, none, some, List, [], ◌∷◌, ◌==◌, if◌then◌else◌}

pub record ActionContract : Type 0 where
  pub required_parameter_keys : List String
  pub optional_parameter_keys : List String
  pub aliases : List (String × String)
  pub derived_class_effects : List String
  pub derived_structure_effects : List String
  pub derived_decision_effects : List String
  pub required_claims : List String
  pub required_permissions : List String

-- The lookup of a key in a table.
abbrev pub find {ℓ} : {V : Type ℓ} → String → List (String × V) → Option V
find k [] = none
find k ((j, v) ∷ table) = if j == k then some v else find k table
