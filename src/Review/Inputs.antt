-- ===== src/Review/Inputs.antt =====
-- validator/review_obligations.py: `_requested_claims`, `_hint_claims` and `_action_map`.
use ev4_constructability_eng.Base.{
  String, ◌<>◌, Bool, true, false, not, ◌==◌, none, some, List, [], ◌∷◌, ◌++◌, is_empty, keep,
  if◌then◌else◌, str_in,
}
use ev4_constructability_eng.Base.Text.{casefold, contains}
use ev4_constructability_eng.Base.Python.{Py, ok, ◌>>=◌, ◌>>◌, ensure, obligation_derivation_error}
use ev4_constructability_eng.Json.{Json, str, obj, Fields, list_or_empty, value_at}
use ev4_constructability_eng.Registry.Claims.{policy_for, proposed_action_hints}
use ev4_constructability_eng.Actions.Normalize.{identity_complete, text_value}
use ev4_constructability_eng.Effects.ClassEffect.{sorted_set}
use ev4_constructability_eng.Review.Nodes.{refuse}

-- The claims of a list of requests: texts, and dicts with a text under `claim_id`.
abbrev pub claim_text : Json → List String
claim_text (str s) = s ∷ []
claim_text _ = []

abbrev pub claims_in : List Json → List String
claims_in [] = []
claims_in (str s ∷ vs) = s ∷ claims_in vs
claims_in (obj fs ∷ vs) = claim_text (value_at "claim_id" fs) ++ claims_in vs
claims_in (_ ∷ vs) = claims_in vs

abbrev pub has_policy : String → Bool
has_policy claim = elim (policy_for claim) [ none ↦ false | some p ↦ true ]

-- `", ".join(…)`
unfoldable pub join_commas : List String → String
join_commas [] = ""
join_commas (s ∷ []) = s
join_commas (s ∷ t ∷ ts) = s <> (", " <> join_commas (t ∷ ts))

-- `_requested_claims`; the set is a list whose order and repetitions do not matter.
unfoldable pub requested_claims : Fields → Py (List String)
unfolding join_commas
requested_claims node = do
  let result = claims_in (list_or_empty (value_at "requested_claims" node))
  let unknown = keep (λ c. not (has_policy c)) result
  ensure (is_empty unknown) (
      obligation_derivation_error
        ("Unknown requested claims: " <> join_commas (sorted_set unknown)))
  ok result

abbrev pub claims_of_hints : String → List (String × List String) → List String
claims_of_hints lowered [] = []
claims_of_hints lowered ((token, claims) ∷ hints) =
    (if contains lowered token then claims else []) ++ claims_of_hints lowered hints

-- `_hint_claims`
unfoldable pub hint_claims : String → List String
hint_claims proposed_action = claims_of_hints (casefold proposed_action) proposed_action_hints

-- A checked action: its identity, its type, and its target.
pub record ReviewAction : Type 0 where
  pub action_id : String
  pub action_type : String
  pub target_node : String

abbrev pub action_fields : Json → Py Fields
action_fields (obj fs) = ok fs
action_fields _ = refuse "Builder action must be an object"

-- The loop of `_action_map`, with the identities seen so far: the actions in their order, of
-- which the code reads these three fields.
unfoldable pub action_loop : List String → List Json → Py (List ReviewAction)
action_loop seen [] = ok []
action_loop seen (v ∷ vs) = do
  item ← action_fields v
  ensure (identity_complete item)
      (obligation_derivation_error "Builder action identity is incomplete")
  let action_id = text_value (value_at "action_id" item)
  ensure (not (str_in action_id seen))
      (obligation_derivation_error ("Duplicate Builder action: " <> action_id))
  more ← action_loop (action_id ∷ seen) vs
  ok (
      record {
        action_id = action_id;
        action_type = text_value (value_at "action_type" item);
        target_node = text_value (value_at "target_node" item);
      }
      ∷ more)

-- `_action_map`, whose entry for a node is `actions_at`
unfoldable pub action_map : Fields → Py (List ReviewAction)
action_map draft = action_loop [] (list_or_empty (value_at "builder_action_proposals" draft))

abbrev pub actions_at : String → List ReviewAction → List ReviewAction
actions_at node_id actions = keep (λ (a : ReviewAction). a.target_node == node_id) actions
