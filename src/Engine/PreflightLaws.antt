-- ===== src/Engine/PreflightLaws.antt =====
-- What the reference paradigm check asks of a document that requests visual parity.
use ev4_constructability_eng.Base.{
  ◌≡◌, refl, ap, ◌∙◌, ◌↔◌, inl, inr, true, false, ◌&&◌, Option, none, some, [], append-eq-nil,
  Bool-cases, arith, is_empty,
}
use ev4_constructability_eng.Json.{Json, obj, Fields, is_arr, is_obj, is_str, truthy, value_at}
use ev4_constructability_eng.Rules.Nodes.{flag}
use ev4_constructability_eng.Engine.Preflight.{
  carried_violations, carriers_of, dict_or_none, is_locked, package_carrier_violations,
  package_fields, package_requires_reference_carriers, package_value, reference_carriers,
  reference_paradigm_preflight_violations, structure_map_violations, visual_parity_requested,
}

-- A locked paradigm that is known, with a structure map that requires something of the first batch.
pub record IsCarried (carriers : Option Fields × Option Fields) : Type 0 where
  pub lock : Fields
  pub structure_map : Fields
  pub has_lock : carriers.0 ≡ some lock
  pub has_map : carriers.1 ≡ some structure_map
  pub locked : flag "paradigm_locked" lock ≡ true
  pub known : is_str "unknown" (value_at "layout_paradigm" lock) ≡ false
  pub listed : is_arr (value_at "first_batch_requirements" structure_map) ≡ true
  pub required : truthy (value_at "first_batch_requirements" structure_map) ≡ true

-- The carriers stand in the package where it is a dict, and in the document otherwise.
pub record ReferenceIsLocked (document : Fields) : Type 0 where
  pub in_package :
      is_obj (package_value document) ≡ true → IsCarried (carriers_of (package_fields document))
  pub in_document : is_obj (package_value document) ≡ false → IsCarried (carriers_of document)

IsCarried-sound :
    (lock structure_map : Option Fields)
    → carried_violations lock structure_map ≡ []
    → IsCarried (lock, structure_map)
unfolding carried_violations structure_map_violations
IsCarried-sound (some lock) (some structure_map) h = record {
  lock = lock;
  structure_map = structure_map;
  has_lock = refl;
  has_map = refl;
  locked = ground arith;
  known = ground arith;
  listed = ground arith;
  required = ground arith;
}
IsCarried-sound (some lock) none h = elim (Bool-cases (flag "paradigm_locked" lock)) [
  | inl e ↦ cc (append-eq-nil _ (structure_map_violations none) (rw e at h)).1
  | inr e ↦ cc (rw e at h)
]
IsCarried-sound none structure_map h = cc

IsCarried-complete :
    (carriers : Option Fields × Option Fields)
    → IsCarried carriers
    → carried_violations carriers.0 carriers.1 ≡ []
unfolding carried_violations structure_map_violations
IsCarried-complete carriers c =
    rw (c.has_lock, c.has_map, c.locked, c.known, c.listed, c.required) refl

dict_or_none-is_obj : (v : Json) (fs : Fields) → dict_or_none v ≡ some fs → is_obj v ≡ true
dict_or_none-is_obj (obj gs) fs h = refl
dict_or_none-is_obj _ fs h = cc

package_complete :
    (document : Fields)
    → (is_obj (package_value document) ≡ true → IsCarried (carriers_of (package_fields document)))
    → package_carrier_violations document ≡ []
unfolding package_carrier_violations package_requires_reference_carriers
package_complete document carried =
    elim (Bool-cases (is_obj (package_value document) && visual_parity_requested document)) [
      | inr e ↦ rw e
      | inl e ↦
          let c = carried (ground arith) in
          let m = dict_or_none-is_obj _ c.structure_map c.has_map in
          let l : is_locked
                (dict_or_none (value_at "reference_paradigm_lock" (package_fields document)))
              ≡ true =
            ap is_locked c.has_lock ∙ c.locked in
          rw (e, l, m) refl
    ]

-- Nothing is reported of the reference paradigm exactly when no visual parity is requested, or the
-- package, or the document without one, carries a paradigm that is locked and known and a structure
-- map with a nonempty list of requirements on the first batch.
pub reference_paradigm_preflight_violations_iff :
    (document : Fields)
    → (reference_paradigm_preflight_violations document ≡ [])
      ↔ (visual_parity_requested document ≡ true → ReferenceIsLocked document)
unfolding reference_paradigm_preflight_violations reference_carriers
    package_requires_reference_carriers
reference_paradigm_preflight_violations_iff document = (
  λ h e. elim (Bool-cases (is_empty (package_carrier_violations document))) [
    | inr full ↦ cc (ap is_empty (rw (e, full) at h))
    | inl empty ↦
        let silent = rw (e, empty) at h in
        record {
          in_package = λ p. IsCarried-sound _ _ (rw p at silent);
          in_document = λ p. IsCarried-sound _ _ (rw p at silent);
        }
  ],
  λ locked. elim (Bool-cases (visual_parity_requested document)) [
    | inr e ↦ rw e
    | inl e ↦
        let r = locked e in
        rw (e, package_complete document r.in_package)
          (elim (Bool-cases (is_obj (package_value document))) [
            | inl p ↦ rw p (IsCarried-complete _ (r.in_package p))
            | inr p ↦ rw p (IsCarried-complete _ (r.in_document p))
          ])
  ],
)
