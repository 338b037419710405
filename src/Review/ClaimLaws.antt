-- ===== src/Review/ClaimLaws.antt =====
-- Every claim that a review makes mandatory or accepts as requested has a policy.
use ev4_constructability_eng.Base.{
  ◌≡◌, refl, sym, subst, inl, inr, String, Bool, true, false, not, ◌||◌, ◌==◌, some, List, [], ◌∷◌,
  ◌++◌, All, all, and_true, Bool-cases, Option-cases, if◌then◌else◌, arith, eq_iff, eq_refl,
  is_empty, is_empty-eq, keep, str_in,
}
use ev4_constructability_eng.Base.Text.{casefold, contains}
use ev4_constructability_eng.Base.Python.{ok, ok-injective, ensure-then}
use ev4_constructability_eng.Json.{Fields, is_true, list_or_empty, value_at}
use ev4_constructability_eng.Registry.Actions.{contract_for}
use ev4_constructability_eng.Registry.Claims.{
  derive_action_claims, policy_for, proposed_action_hints,
}
use ev4_constructability_eng.Registry.Closure.{HasPolicy, contract_for-IsClosed}
use ev4_constructability_eng.Effects.Records.{EffectRecord}
use ev4_constructability_eng.Review.Inputs.{
  ReviewAction, claims_in, claims_of_hints, has_policy, hint_claims, requested_claims,
}
use ev4_constructability_eng.Review.Unit.{
  action_claims, changes_page, claims_of_actions, claims_with, mandatory_claims, rules_of,
}

-- Every claim of a list is known to the registry.
abbrev pub AllKnown : List String → Type 0
AllKnown claims = All (λ c. has_policy c ≡ true) claims

pub All-append {ℓ κ} :
    {A : Type ℓ} (P : A → Type κ) (xs ys : List A) → All P xs → All P ys → All P (xs ++ ys)
All-append P [] ys h k = k
All-append P (x ∷ xs) ys (p, h) k = (p, All-append P xs ys h k)

HasPolicy-known : (claims : List String) → All HasPolicy claims → AllKnown claims
HasPolicy-known [] h = tt
HasPolicy-known (c ∷ claims) ((p, found), h) = (rw (has_policy, found), HasPolicy-known claims h)

derive_action_claims-known :
    (t : String) (claims : List String) → derive_action_claims t ≡ some claims → AllKnown claims
unfolding derive_action_claims
derive_action_claims-known t claims h = elim (Option-cases (contract_for t)) [
  | inl e ↦ cc (rw e at h)
  | inr (c, e) ↦
      subst AllKnown (some-injective (rw e at h))
        (HasPolicy-known c.required_claims (contract_for-IsClosed t c e).claims_known)
]
  where
    some-injective : {a b : List String} → some a ≡ some b → a ≡ b
    some-injective e = cc

geometry-known : has_policy "geometry" ≡ true
unfolding policy_for
geometry-known = refl

claims_with-known :
    (t : String) (changing : Bool) → AllKnown (claims_with changing (derive_action_claims t))
claims_with-known t changing = elim (Option-cases (derive_action_claims t)) [
  | inl e ↦ rw e tt
  | inr (claims, e) ↦ rw e (with_geometry changing claims (derive_action_claims-known t claims e))
]
  where
    with_geometry :
        (b : Bool) (claims : List String)
        → AllKnown claims
        → AllKnown (if b then "geometry" ∷ claims else claims)
    with_geometry true claims h = (geometry-known, h)
    with_geometry false claims h = h

claims_of_actions-known :
    (records : List EffectRecord) (actions : List ReviewAction)
    → AllKnown (claims_of_actions records actions)
claims_of_actions-known records [] = tt
claims_of_actions-known records (a ∷ actions) =
    All-append _ (action_claims records a) (claims_of_actions records actions)
      (claims_with-known a.action_type (changes_page records a))
      (claims_of_actions-known records actions)

all-AllKnown : (claims : List String) → all has_policy claims ≡ true → AllKnown claims
all-AllKnown [] h = tt
all-AllKnown (c ∷ claims) h =
    let (here, later) = and_true (has_policy c) (all has_policy claims) h in
    (here, all-AllKnown claims later)

claims_of_hints-known :
    (lowered : String) (hints : List (String × List String))
    → all (λ e. all has_policy e.1) hints ≡ true
    → AllKnown (claims_of_hints lowered hints)
claims_of_hints-known lowered [] h = tt
claims_of_hints-known lowered ((token, claims) ∷ hints) h =
    let (here, later) = and_true (all has_policy claims) (all (λ e. all has_policy e.1) hints) h in
    All-append _ (if contains lowered token then claims else []) (claims_of_hints lowered hints)
      (chosen (contains lowered token) claims (all-AllKnown claims here))
      (claims_of_hints-known lowered hints later)
  where
    chosen :
        (b : Bool) (claims : List String) → AllKnown claims → AllKnown (if b then claims else [])
    chosen true claims h = h
    chosen false claims h = tt

hint_claims-known : (proposed_action : String) → AllKnown (hint_claims proposed_action)
unfolding hint_claims policy_for
hint_claims-known proposed_action =
    claims_of_hints-known (casefold proposed_action) proposed_action_hints refl

pub mandatory_claims-known :
    (records : List EffectRecord) (actions : List ReviewAction) (proposed_action : String)
    (draft_node : Fields)
    → AllKnown (mandatory_claims records actions proposed_action draft_node)
unfolding mandatory_claims
mandatory_claims-known records actions proposed_action draft_node =
    All-append _ (claims_of_actions records actions) _ (claims_of_actions-known records actions) (
      All-append _ (hint_claims proposed_action) _ (hint_claims-known proposed_action) (
        flagged (
          is_true (value_at "requires_class_change" draft_node)
          || is_true (value_at "requires_structure_change" draft_node))))
  where
    flagged : (b : Bool) → AllKnown (if b then "geometry" ∷ [] else [])
    flagged true = (geometry-known, tt)
    flagged false = tt

pub requested_claims-known :
    (node : Fields) (claims : List String) → requested_claims node ≡ ok claims → AllKnown claims
unfolding requested_claims
requested_claims-known node claims h =
    let (none_unknown, h1) =
      ensure-then
        (is_empty (
          keep (λ c. not (has_policy c))
            (claims_in (list_or_empty (value_at "requested_claims" node)))))
        _ _ h in
    subst AllKnown (ok-injective h1) (kept _ (is_empty-eq _ none_unknown))
  where
    kept : (cs : List String) → keep (λ c. not (has_policy c)) cs ≡ [] → AllKnown cs
    kept [] e = tt
    kept (c ∷ cs) e = elim (Bool-cases (has_policy c)) [
      | inl known ↦ (known, kept cs (rw known at e))
      | inr unknown ↦ cc (rw unknown at e)
    ]

-- The rules of known claims are found.
pub rules_of-ok :
    (claims : List String) → AllKnown claims → (rs : List String) × (rules_of claims ≡ ok rs)
unfolding rules_of
rules_of-ok [] h = ([], refl)
rules_of-ok (c ∷ claims) (known, h) = elim (Option-cases (policy_for c)) [
  | inl e ↦ cc (rw (has_policy, e) at known)
  | inr (p, e) ↦ let (rs, found) = rules_of-ok claims h in (p.applicable_rule ∷ rs, rw (e, found))
]

pub AllKnown-member :
    (claims : List String) (c : String)
    → AllKnown claims
    → str_in c claims ≡ true
    → has_policy c ≡ true
AllKnown-member [] c h m = cc
AllKnown-member (d ∷ claims) c (known, h) m = elim (Bool-cases (c == d)) [
  | inl e ↦ subst (λ x. has_policy x ≡ true) (sym ((eq_iff c d).0 e)) known
  | inr e ↦ AllKnown-member claims c h (rw e at m)
]

pub AllKnown-of :
    (claims : List String)
    → ((c : String) → str_in c claims ≡ true → has_policy c ≡ true)
    → AllKnown claims
AllKnown-of [] f = tt
AllKnown-of (c ∷ claims) f =
    (f c (rw (eq_refl c)), AllKnown-of claims (λ d m. f d (or_intro (d == c) m)))
  where
    or_intro : (a : Bool) {b : Bool} → b ≡ true → (a || b) ≡ true
    or_intro a h = ground (arith, h)
