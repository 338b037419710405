-- ===== src/Execution/Asked.antt =====
-- What the claims ask of the items of a target, apart from the runners.
use ev4_constructability_eng.Base.{◌≡◌, ◌≢◌, String, true, Option, none, some, List, [], ◌∷◌, All}
use ev4_constructability_eng.Json.{
  Json, null, bool, str, obj, Fields, from_default, list_or_empty, lookup, py_eq, value_at,
}
use ev4_constructability_eng.Registry.Contract.{find}

-- The value is a dict with a text under the key.
abbrev pub IsNamed : String → Fields → Type 0
IsNamed key fs = (s : String) × (value_at key fs ≡ str s)

-- The same for a text that is not empty.
abbrev pub IsFilled : String → Fields → Type 0
IsFilled key fs = (s : String) × (value_at key fs ≡ str s) × (s ≢ "")

-- A case names a viewport, and the layout written there as observed is the expected one.
abbrev pub IsLaidOut : Fields → Type 0
IsLaidOut fs =
    IsNamed "viewport" fs
    × ((value_at "expected_layout" fs ≢ null) × (value_at "observed_layout" fs ≢ null))
    × (py_eq (value_at "expected_layout" fs) (value_at "observed_layout" fs) ≡ true)

-- A transition or an assertion is named, and the value written there as observed is the expected
-- one.
abbrev pub AgreesOn : (id_key expected_key observed_key : String) → Fields → Type 0
AgreesOn id_key expected_key observed_key fs =
    IsNamed id_key fs × (py_eq (value_at expected_key fs) (value_at observed_key fs) ≡ true)

-- A node has an identity, a role and a name, and is not said to be anything but operable by
-- keyboard.
abbrev pub IsAccessible : Fields → Type 0
IsAccessible fs =
    (IsFilled "node_id" fs × (IsFilled "role" fs × IsFilled "accessible_name" fs))
    × (from_default (lookup "keyboard_operable" fs) (bool true) ≡ bool true)

-- The value is a dict as asked.
abbrev pub IsDict : (Fields → Type 0) → Json → Type 0
IsDict asked v = (fs : Fields) × (v ≡ obj fs) × asked fs

-- A target has items under a key, each of which is as asked.
abbrev pub AllItems : String → (Fields → Type 0) → Fields → Type 0
AllItems key asked target =
    (list_or_empty (value_at key target) ≢ [])
    × All (IsDict asked) (list_or_empty (value_at key target))

-- What is asked of a target for a claim.
abbrev pub asked_by_claim : List (String × (Fields → Type 0))
asked_by_claim =
    ("responsive_behavior", AllItems "cases" IsLaidOut)
    ∷ (
      "interaction_validation",
      AllItems "transitions" (AgreesOn "transition_id" "expected_state" "observed_state"),
    )
    ∷ ("accessibility", AllItems "interactive_nodes" IsAccessible)
    ∷ ("QA", AllItems "assertions" (AgreesOn "assertion_id" "expected" "observed"))
    ∷ []

abbrev pub Meets : Option (Fields → Type 0) → Fields → Type 0
Meets none target = ⊥
Meets (some asked) target = asked target

abbrev pub TargetPasses : String → Fields → Type 0
TargetPasses claim_id target = Meets (find claim_id asked_by_claim) target
