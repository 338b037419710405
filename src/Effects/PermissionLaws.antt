-- ===== src/Effects/PermissionLaws.antt =====
-- When a permission of the Architect covers a request, described without the order of the tests.
use mathlib.Core.List.{Memᴰ}
use ev4_constructability_eng.Base.{
  ◌≡◌, refl, sym, subst, ◌↔◌, inl, inr, String, Bool, true, false, Option, List, [], ◌∷◌, All, map,
  if◌then◌else◌,
}
use ev4_constructability_eng.Base.Python.{Py, ok, raise, >>=-eq-ok, ok-injective}
use ev4_constructability_eng.Json.{Json, arr, Fields, elems, value_at}
use ev4_constructability_eng.Json.Host.{Host}
use ev4_constructability_eng.Effects.Inputs.{permissions}
use ev4_constructability_eng.Effects.Permissions.{
  Request, absent_or_in, any_matches, approved_status, both, candidate_of, names_allowed,
  option_texts, permission_granted, permission_matches,
}
use ev4_constructability_eng.Effects.Permits.{
  AbsentOrIn, AllowsAction, AllowsNames, IsApproval, absent_or_in_iff, action_allowed_iff,
  all_in-All, arr-injective, approved_status_iff,
}

-- What makes a permission cover a request, independent of the order of the tests.
pub record Permits (host : Host) (id : Option String) (r : Request) (p : Fields) : Type 0 where
  pub status : IsApproval (value_at "status" p)
  pub candidate_fits : AbsentOrIn (option_texts id) (value_at "selected_candidate_id" p)
  pub subject_fits : AbsentOrIn (r.subject_ref ∷ []) (value_at "subject_ref" p)
  pub kind_fits : AbsentOrIn (r.effect_kind ∷ "class_and_structure" ∷ []) (value_at "effect_kind" p)
  pub action_fits : AllowsAction r.action_type (value_at "allowed_action_types" p)
  pub classes_fit : AllowsNames host r.class_names (value_at "allowed_class_names" p)
  pub nodes_fit : AllowsNames host r.node_ids (value_at "allowed_node_ids" p)

both-true : (m rest : Py Bool) → (both m rest ≡ ok true) ↔ ((m ≡ ok true) × (rest ≡ ok true))
both-true (ok true) rest = (λ h. (refl, h), λ (_, h). h)
both-true (ok false) rest = (λ h. cc, λ (h, _). cc)
both-true (raise e) rest = (λ h. cc, λ (h, _). cc)

names_allowed-nil : (host : Host) (v : Json) → names_allowed host [] v ≡ true
names_allowed-nil host (arr vs) = refl
names_allowed-nil host _ = refl

names_allowed_iff :
    (host : Host) (names : List String) (v : Json)
    → (names_allowed host names v ≡ true) ↔ AllowsNames host names v
names_allowed_iff host [] v = (λ h. inl refl, λ h. names_allowed-nil host v)
names_allowed_iff host (n ∷ ns) (arr vs) =
    let each = all_in-All (map host.py_str (elems vs)) (n ∷ ns) in
    (
      λ h. inr (vs, refl, each.0 h),
      λ h. elim h [
        | inl e ↦ cc
        | inr (ws, e, m) ↦ each.1 (
            subst (λ us. All (λ x. Memᴰ x (map host.py_str (elems us))) (n ∷ ns))
              (sym (arr-injective e)) m)
      ],
    )
names_allowed_iff host (n ∷ ns) _ = (λ h. cc, λ h. elim h [ inl e ↦ cc | inr (vs, e, m) ↦ cc ])

scope_allowed_iff :
    (a b c : Bool)
    → ((if a then (if b then c else false) else false) ≡ true)
      ↔ ((a ≡ true) × (b ≡ true) × (c ≡ true))
scope_allowed_iff true true c = (λ h. (refl, refl, h), λ (_, _, h). h)
scope_allowed_iff true false c = (λ h. cc, λ (_, h, _). h)
scope_allowed_iff false b c = (λ h. cc, λ (h, _, _). h)

module _ (host : Host) where
  permission_matches-Permits :
      (id : Option String) (r : Request) (p : Fields)
      → permission_matches host id r p ≡ ok true
      → Permits host id r p
  unfolding permission_matches
  permission_matches-Permits id r p h =
      let (status, h1) = (both-true (approved_status (value_at "status" p)) _).0 h in
      let (candidate, h2) =
        (both-true (absent_or_in (option_texts id) (value_at "selected_candidate_id" p)) _).0 h1 in
      let (subject, h3) =
        (both-true (absent_or_in (r.subject_ref ∷ []) (value_at "subject_ref" p)) _).0 h2 in
      let (kind, h4) =
        (both-true
            (absent_or_in (r.effect_kind ∷ "class_and_structure" ∷ []) (value_at "effect_kind" p))
            _).0
          h3 in
      let (action, classes, nodes) = (scope_allowed_iff _ _ _).0 (ok-injective h4) in
      record {
        status = (approved_status_iff _).0 status;
        candidate_fits = (absent_or_in_iff _ _).0 candidate;
        subject_fits = (absent_or_in_iff _ _).0 subject;
        kind_fits = (absent_or_in_iff _ _).0 kind;
        action_fits = (action_allowed_iff _ _).0 action;
        classes_fit = (names_allowed_iff host _ _).0 classes;
        nodes_fit = (names_allowed_iff host _ _).0 nodes;
      }

  Permits-permission_matches :
      (id : Option String) (r : Request) (p : Fields)
      → Permits host id r p
      → permission_matches host id r p ≡ ok true
  unfolding permission_matches
  Permits-permission_matches id r p h = rw (
    (approved_status_iff _).1 h.status,
    (absent_or_in_iff _ _).1 h.candidate_fits,
    (absent_or_in_iff _ _).1 h.subject_fits,
    (absent_or_in_iff _ _).1 h.kind_fits,
    (action_allowed_iff _ _).1 h.action_fits,
    (names_allowed_iff host _ _).1 h.classes_fit,
    (names_allowed_iff host _ _).1 h.nodes_fit,
  )

  -- A permission matches a request exactly when it permits it.
  pub permission_matches_iff :
      (id : Option String) (r : Request) (p : Fields)
      → (permission_matches host id r p ≡ ok true) ↔ Permits host id r p
  permission_matches_iff id r p =
      (permission_matches-Permits id r p, Permits-permission_matches id r p)

  -- Some permission permits the request.
  abbrev pub Covered : Option String → Request → List Fields → Type 0
  Covered id r ps = (p : Fields) × Memᴰ p ps × Permits host id r p

  any_step :
      (id : Option String) (r : Request) (p : Fields) (ps : List Fields) (c b : Bool)
      → permission_matches host id r p ≡ ok c
      → (if c then ok true else any_matches host id r ps) ≡ ok b
      → ((any_matches host id r ps ≡ ok b) → ((b ≡ true) ↔ Covered id r ps))
      → (b ≡ true) ↔ Covered id r (p ∷ ps)
  any_step id r p ps true b matches h later = (
    λ e. (p, Memᴰ.head refl, (permission_matches_iff id r p).0 matches),
    λ found. sym (ok-injective h),
  )
  any_step id r p ps false b matches h later =
      let known = later h in
      (
        λ e. let (q, m, permits) = known.0 e in (q, Memᴰ.tail m, permits),
        λ (q, m, permits). elim m [
          | Memᴰ.head e ↦
              cc (matches, (permission_matches_iff id r p).1 (subst (Permits host id r) e permits))
          | Memᴰ.tail n ↦ known.1 (q, n, permits)
        ],
      )

  pub any_matches_iff :
      (id : Option String) (r : Request) (ps : List Fields) (b : Bool)
      → any_matches host id r ps ≡ ok b
      → (b ≡ true) ↔ Covered id r ps
  unfolding any_matches
  any_matches_iff id r [] b h = (λ e. cc, λ (p, m, permits). elim m [ ])
  any_matches_iff id r (p ∷ ps) b h =
      let (c, matches, h1) = >>=-eq-ok (permission_matches host id r p) _ h in
      any_step id r p ps c b matches h1 (any_matches_iff id r ps b)

  -- When the code answers whether a request is granted, it is exactly if one of the Architect's
  -- permissions approves it: one with the status approved, explicitly_approved or a value equal
  -- to True, whose candidate, subject and kind of effect are null or fit the request's, whose list
  -- of action types, if it is one, names the action's, and which lists every class and node asked
  -- for.
  pub permission_granted_iff :
      (architect_intake source_bundle : Fields) (r : Request) (b : Bool)
      → permission_granted host architect_intake source_bundle r ≡ ok b
      → (b ≡ true) ↔ (
          (p : Fields) × Memᴰ p (permissions architect_intake source_bundle)
          × Permits host (candidate_of host architect_intake) r p)
  unfolding permission_granted
  permission_granted_iff architect_intake source_bundle r b h =
      any_matches_iff (candidate_of host architect_intake) r
        (permissions architect_intake source_bundle) b h
