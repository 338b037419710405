-- ===== src/Obligations/DeriveLaws.antt =====
-- The obligations of a list of rows: one for every row with a runtime claim, and no other.
use mathlib.Core.List.{Perm}
use mathlib.Core.List.Perm
use ev4_constructability_eng.Base.{
  ◌≡◌, refl, subst, inl, inr, String, false, not, ◌&&◌, List, [], ◌∷◌, All, and_true, map, not-true,
  Bool-cases, if◌then◌else◌,
}
use ev4_constructability_eng.Base.Python.{ok, >>=-eq-ok, ensure-then, ok-injective}
use ev4_constructability_eng.Json.{Json, null, obj, Fields, is_str, value_at}
use ev4_constructability_eng.Json.Host.{Host}
use ev4_constructability_eng.Json.Laws.{is_str-eq}
use ev4_constructability_eng.Registry.Claims.{is_post_builder_claim}
use ev4_constructability_eng.Obligations.Normalize.{normalize_runtime_obligation}
use ev4_constructability_eng.Obligations.NormalizeLaws.{
  IsNormalized, normalize_runtime_obligation-IsNormalized,
}
use ev4_constructability_eng.Obligations.Derive.{
  Key, bound_obligation, derive_loop, derive_runtime_obligations, insert_obligation, key_in, key_le,
  key_of, row_key, row_text, sort_obligations,
}

insert_obligation-perm : (o : Fields) (os : List Fields) → Perm (insert_obligation o os) (o ∷ os)
unfolding insert_obligation
insert_obligation-perm o [] = Perm.refl (o ∷ [])
insert_obligation-perm o (p ∷ ps) = elim (Bool-cases (key_le (key_of o) (key_of p))) [
  | inl e ↦ rw e (Perm.refl (o ∷ p ∷ ps))
  | inr e ↦ rw e (Perm.trans (Perm.cons p (insert_obligation-perm o ps)) (Perm.swap o p ps))
]

sort_obligations-perm : (os : List Fields) → Perm (sort_obligations os) os
unfolding sort_obligations
sort_obligations-perm [] = Perm.refl []
sort_obligations-perm (o ∷ os) =
    Perm.trans (insert_obligation-perm o (sort_obligations os))
      (Perm.cons o (sort_obligations-perm os))

-- The subjects and claims of the rows with a runtime claim, in order.
abbrev pub runtime_keys : Host → List Json → List Key
runtime_keys host [] = []
runtime_keys host (obj row ∷ rows) =
    if is_post_builder_claim (row_text host "claim_id" row)
    then row_key host row ∷ runtime_keys host rows
    else runtime_keys host rows
runtime_keys host (_ ∷ rows) = runtime_keys host rows

-- No key is among those seen, and no two are equal.
abbrev pub FreshKeys : List Key → List Key → Type 0
FreshKeys seen [] = Unit
FreshKeys seen (k ∷ ks) = (key_in k seen ≡ false) × FreshKeys (k ∷ seen) ks

module _ (host : Host) where
  -- The obligation of a row has the row's subject and claim.
  bound_obligation-key :
      (subject claim : String) (v : Json) (o : Fields)
      → bound_obligation host (subject, claim) v ≡ ok o
      → (key_of o ≡ (subject, claim)) × IsNormalized o
  unfolding bound_obligation
  bound_obligation-key subject claim (obj raw) o h =
      let (o', normalized, h1) = >>=-eq-ok (normalize_runtime_obligation host (obj raw)) _ h in
      let (bound, h2) =
        ensure-then
          (is_str subject (value_at "subject_ref" o') && is_str claim (value_at "claim_id" o')) _ _
          h1 in
      let (s, c) = and_true _ _ bound in
      subst (λ p. (key_of p ≡ (subject, claim)) × IsNormalized p) (ok-injective h2)
        (
          rw (is_str-eq subject _ s, is_str-eq claim _ c),
          (normalize_runtime_obligation-IsNormalized host raw o' normalized).0,
        )
  bound_obligation-key subject claim _ o h = cc

  abbrev Derived : List Key → List Json → List Fields → Type 0
  Derived seen rows os =
      (map key_of os ≡ runtime_keys host rows)
      × FreshKeys seen (runtime_keys host rows)
      × All IsNormalized os

  loop_Derived :
      (seen : List Key) (rows : List Json) (os : List Fields)
      → derive_loop host seen rows ≡ ok os
      → Derived seen rows os
  unfolding derive_loop
  loop_Derived seen [] os h = subst (Derived seen []) (ok-injective h) (refl, tt, tt)
  loop_Derived seen (obj row ∷ rows) os h =
      elim (Bool-cases (is_post_builder_claim (row_text host "claim_id" row))) [
        | inr e ↦ rw e (loop_Derived seen rows os (rw e at h))
        | inl e ↦
            let (fresh, h1) = ensure-then (not (key_in (row_key host row) seen)) _ _ (rw e at h) in
            let (o, bound, h2) =
              >>=-eq-ok
                (bound_obligation host (row_key host row) (value_at "downstream_obligation" row)) _
                h1 in
            let (more, looped, h3) =
              >>=-eq-ok (derive_loop host (row_key host row ∷ seen) rows) _ h2 in
            let (keys, later, normal) = loop_Derived (row_key host row ∷ seen) rows more looped in
            let (key, this_normal) =
              bound_obligation-key _ _ (value_at "downstream_obligation" row) o bound in
            rw e (
              subst
                (λ xs.
                  (map key_of xs ≡ row_key host row ∷ runtime_keys host rows)
                  × FreshKeys seen (row_key host row ∷ runtime_keys host rows)
                  × All IsNormalized xs)
                (ok-injective h3) (cc, (not-true _ fresh, later), (this_normal, normal)))
      ]
  loop_Derived seen (null ∷ rows) os h = loop_Derived seen rows os h
  loop_Derived seen (_ ∷ rows) os h = loop_Derived seen rows os h

  -- The obligations that are derived are, up to their order, one for each row with a runtime claim,
  -- under the row's subject and claim; no subject has a claim twice; before they are sorted every
  -- one is normalized.
  pub derive_runtime_obligations_complete :
      (rows : List Json) (os : List Fields)
      → derive_runtime_obligations host rows ≡ ok os
      → (found : List Fields) × (Perm os found)
        × (map key_of found ≡ runtime_keys host rows)
        × FreshKeys [] (runtime_keys host rows)
        × All IsNormalized found
  unfolding derive_runtime_obligations
  derive_runtime_obligations_complete rows os h =
      let (found, looped, h1) = >>=-eq-ok (derive_loop host [] rows) _ h in
      let (keys, fresh, normal) = loop_Derived [] rows found looped in
      (
        found,
        subst (λ xs. Perm xs found) (ok-injective h1) (sort_obligations-perm found),
        keys,
        fresh,
        normal,
      )
