-- ===== src/Review/ContentLaws.antt =====
-- What the claims of a unit contain, and that a unit is always derived once its requests are read.
use mathlib.Core.List.{Memᴰ}
use ev4_constructability_eng.Base.{
  or_iff, ◌⊎◌, ◌≡◌, refl, sym, ap, subst, ◌∙◌, String, Bool, true, false, not, ◌||◌, ◌==◌, some,
  List, [], ◌∷◌, ◌++◌, arith, is_empty, keep, str_in,
}
use ev4_constructability_eng.Base.Sorting.{distinct, str_in-distinct, str_in-sort_texts}
use ev4_constructability_eng.Base.Python.{Py, ok, ◌>>=◌, >>=-eq-ok, ok-injective, ensure-then}
use ev4_constructability_eng.Json.{Fields, list_or_empty, value_at}
use ev4_constructability_eng.Json.Host.{Host}
use ev4_constructability_eng.Registry.Claims.{derive_action_claims}
use ev4_constructability_eng.Effects.ClassEffect.{sorted_set}
use ev4_constructability_eng.Effects.Inputs.{NodeMap}
use ev4_constructability_eng.Effects.Records.{EffectRecord}
use ev4_constructability_eng.Review.Inputs.{
  ReviewAction, actions_at, claims_in, has_policy, requested_claims,
}
use ev4_constructability_eng.Review.Nodes.{fields_at}
use ev4_constructability_eng.Review.Unit.{
  ReviewUnit, is_changing, record_for, action_claims, changes_page, claims_of_actions, claims_with,
  mandatory_claims, proposed_action_of, review_unit, rules_of,
}
use ev4_constructability_eng.Review.ClaimLaws.{
  AllKnown, AllKnown-member, AllKnown-of, All-append, mandatory_claims-known,
  requested_claims-known, rules_of-ok,
}

str_in-append :
    (c : String) (xs ys : List String) → str_in c (xs ++ ys) ≡ (str_in c xs || str_in c ys)
str_in-append c [] ys = refl
str_in-append c (x ∷ xs) ys = ground (arith, str_in-append c xs ys)

str_in-left : (c : String) (xs ys : List String) → str_in c xs ≡ true → str_in c (xs ++ ys) ≡ true
str_in-left c xs ys h = str_in-append c xs ys ∙ (rw h)

str_in-right : (c : String) (xs ys : List String) → str_in c ys ≡ true → str_in c (xs ++ ys) ≡ true
str_in-right c xs ys h = str_in-append c xs ys ∙ ground (arith, h)

pub str_in-sorted_set : (c : String) (xs : List String) → str_in c (sorted_set xs) ≡ str_in c xs
str_in-sorted_set c xs = str_in-sort_texts c (distinct xs) ∙ str_in-distinct c xs

module _ (records : List EffectRecord) where
  -- A claim of an action is among those of the actions.
  str_in-claims_of_actions :
      (a : ReviewAction) (actions : List ReviewAction) (c : String)
      → Memᴰ a actions
      → str_in c (action_claims records a) ≡ true
      → str_in c (claims_of_actions records actions) ≡ true
  str_in-claims_of_actions a [] c m h = elim m [ ]
  str_in-claims_of_actions a (b ∷ actions) c m h = elim m [
    | Memᴰ.head e ↦
        str_in-left c (action_claims records b) (claims_of_actions records actions)
          (subst (λ x. str_in c (action_claims records x) ≡ true) e h)
    | Memᴰ.tail n ↦
        str_in-right c (action_claims records b) (claims_of_actions records actions)
          (str_in-claims_of_actions a actions c n h)
  ]

  -- What the claims of a unit contain: those of each action of the node, geometry where one
  -- changes the classes or the structure, and those that the draft requests; all are known.
  pub record HasClaims (all_actions : List ReviewAction) (reviewed : NodeMap) (u : ReviewUnit)
      : Type 0 where
    pub of_actions :
        (a : ReviewAction) (claims : List String) (c : String)
        → Memᴰ a (actions_at u.node_id all_actions)
        → derive_action_claims a.action_type ≡ some claims
        → str_in c claims ≡ true
        → str_in c u.required_claims ≡ true
    pub of_changes :
        (a : ReviewAction) (claims : List String) (r : EffectRecord)
        → Memᴰ a (actions_at u.node_id all_actions)
        → derive_action_claims a.action_type ≡ some claims
        → record_for a.action_id records ≡ some r
        → ((r.changes_class_assignment ≡ true) ⊎ (r.changes_structure ≡ true))
        → str_in "geometry" u.required_claims ≡ true
    pub of_requests :
        (c : String)
        → str_in c
            (claims_in (list_or_empty (value_at "requested_claims" (fields_at u.node_id reviewed))))
          ≡ true
        → str_in c u.required_claims ≡ true
    pub known : AllKnown u.required_claims

-- An action whose record changes the classes or the structure changes the page.
changes_page-of_record :
    (records : List EffectRecord) (a : ReviewAction) (r : EffectRecord)
    → record_for a.action_id records ≡ some r
    → ((r.changes_class_assignment ≡ true) ⊎ (r.changes_structure ≡ true))
    → changes_page records a ≡ true
changes_page-of_record records a r recorded changing =
    ap is_changing recorded ∙ (or_iff r.changes_class_assignment r.changes_structure).1 changing

str_in-claims_with :
    (changing : Bool) (claims : List String) (c : String)
    → str_in c claims ≡ true
    → str_in c (claims_with changing (some claims)) ≡ true
str_in-claims_with true claims c h = rw h (or_true_right (c == "geometry"))
  where
    or_true_right : (b : Bool) → (b || true) ≡ true
    or_true_right b = ground arith
str_in-claims_with false claims c h = h

requested_claims-eq :
    (node : Fields) (claims : List String)
    → requested_claims node ≡ ok claims
    → claims_in (list_or_empty (value_at "requested_claims" node)) ≡ claims
unfolding requested_claims
requested_claims-eq node claims h =
    let (_, h1) =
      ensure-then
        (is_empty (
          keep (λ c. not (has_policy c))
            (claims_in (list_or_empty (value_at "requested_claims" node)))))
        _ _ h in
    ok-injective h1

distinct-AllKnown : (claims : List String) → AllKnown claims → AllKnown (distinct claims)
distinct-AllKnown claims h =
    AllKnown-of (distinct claims)
      (λ c m. AllKnown-member claims c h (sym (str_in-distinct c claims) ∙ m))

sorted-AllKnown : (claims : List String) → AllKnown claims → AllKnown (sorted_set claims)
sorted-AllKnown claims h =
    AllKnown-of (sorted_set claims)
      (λ c m. AllKnown-member claims c h (sym (str_in-sorted_set c claims) ∙ m))

-- A call that returns, followed by what returns on its value.
>>=-ok {ℓ κ} :
    {X : Type ℓ} {Y : Type κ} (m : Py X) (rest : X → Py Y) {x : X}
    → m ≡ ok x
    → (y : Y) × (rest x ≡ ok y)
    → (y : Y) × ((m >>= rest) ≡ ok y)
>>=-ok m rest called (y, returned) = (y, ap (λ n. n >>= rest) called ∙ returned)

module _ (host : Host) (records : List EffectRecord) (all_actions : List ReviewAction)
    (reviewed : NodeMap) (node_id : String) where
  abbrev mandatory : List String
  mandatory =
      mandatory_claims records (actions_at node_id all_actions)
        (proposed_action_of host (fields_at node_id reviewed)) (fields_at node_id reviewed)

  -- A unit has the identity of its node and the claims that it must have.
  pub review_unit-HasClaims :
      (u : ReviewUnit)
      → review_unit host records all_actions reviewed node_id ≡ ok u
      → (u.node_id ≡ node_id) × HasClaims records all_actions reviewed u
  unfolding review_unit mandatory_claims
  review_unit-HasClaims u h =
      let (requested, read, h1) = >>=-eq-ok (requested_claims (fields_at node_id reviewed)) _ h in
      let (rules, _, h2) = >>=-eq-ok (rules_of (distinct (mandatory ++ requested))) _ h1 in
      let inside : (c : String)
          → str_in c mandatory ≡ true
          → str_in c (sorted_set (mandatory ++ requested)) ≡ true =
        λ c m. str_in-sorted_set c (mandatory ++ requested) ∙ str_in-left c mandatory requested m in
      let acting : (a : ReviewAction) (claims : List String) (c : String)
          → Memᴰ a (actions_at node_id all_actions)
          → derive_action_claims a.action_type ≡ some claims
          → str_in c (claims_with (changes_page records a) (some claims)) ≡ true
          → str_in c mandatory ≡ true =
        λ a claims c m derived found.
          str_in-left c (claims_of_actions records (actions_at node_id all_actions)) _ (
            str_in-claims_of_actions records a (actions_at node_id all_actions) c m (
              subst (λ o. str_in c (claims_with (changes_page records a) o) ≡ true) (sym derived)
                found)) in
      subst (λ (x : ReviewUnit). (x.node_id ≡ node_id) × HasClaims records all_actions reviewed x)
        (ok-injective h2)
        (
          refl,
          record {
            of_actions = λ a claims c m derived found. inside c (
                acting a claims c m derived
                  (str_in-claims_with (changes_page records a) claims c found));
            of_changes = λ a claims r m derived recorded changing. inside "geometry" (
                acting a claims "geometry" m derived
                  (rw (changes_page-of_record records a r recorded changing)));
            of_requests = λ c m.
                str_in-sorted_set c (mandatory ++ requested)
                ∙ str_in-right c mandatory requested (
                    subst (λ cs. str_in c cs ≡ true)
                      (requested_claims-eq (fields_at node_id reviewed) requested read) m);
            known = sorted-AllKnown (mandatory ++ requested) (
                All-append _ mandatory requested
                  (mandatory_claims-known records (actions_at node_id all_actions)
                    (proposed_action_of host (fields_at node_id reviewed))
                    (fields_at node_id reviewed))
                  (requested_claims-known (fields_at node_id reviewed) requested read));
          },
        )

  -- Once the requested claims of the draft's node are read, its unit is derived: no claim lacks
  -- a policy, so that the lookup of its rule raises no KeyError.
  pub review_unit-ok :
      (requested : List String)
      → requested_claims (fields_at node_id reviewed) ≡ ok requested
      → (u : ReviewUnit) × (review_unit host records all_actions reviewed node_id ≡ ok u)
  unfolding review_unit
  review_unit-ok requested read =
      let (rules, found) = rules_of-ok (distinct (mandatory ++ requested)) (
        distinct-AllKnown (mandatory ++ requested) (
          All-append _ mandatory requested
            (mandatory_claims-known records (actions_at node_id all_actions)
              (proposed_action_of host (fields_at node_id reviewed)) (fields_at node_id reviewed))
            (requested_claims-known (fields_at node_id reviewed) requested read))) in
      >>=-ok (requested_claims (fields_at node_id reviewed)) _ read
        (>>=-ok (rules_of (distinct (mandatory ++ requested))) _ found (_, refl))
