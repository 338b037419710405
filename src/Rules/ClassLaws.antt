-- ===== src/Rules/ClassLaws.antt =====
-- The comparison of class lists, against a description over membership.
use mathlib.Core.List.{Memᴰ}
use ev4_constructability_eng.Base.{
  ◌≡◌, refl, ◌↔◌, String, Bool, true, List, [], ◌∷◌, all, length, str_in, str_in-Memᴰ, Memᴰ-str_in,
  nat_eq_iff, and_true,
}
use ev4_constructability_eng.Json.{Json}
use ev4_constructability_eng.Rules.Document.{class_names, same_class_contract}

-- Every class of one list is in the other.
abbrev pub Includes : List String → List String → Type 0
Includes xs ys = (c : String) → Memᴰ c xs → Memᴰ c ys

all_sound :
    (p : String → Bool) (xs : List String) (c : String) → all p xs ≡ true → Memᴰ c xs → p c ≡ true
all_sound p [] c h m = elim m [ ]
all_sound p (x ∷ xs) c h (Memᴰ.head e) = rw e (and_true (p x) (all p xs) h).0
all_sound p (x ∷ xs) c h (Memᴰ.tail m) = all_sound p xs c (and_true (p x) (all p xs) h).1 m

all_complete :
    (p : String → Bool) (xs : List String)
    → ((c : String) → Memᴰ c xs → p c ≡ true)
    → all p xs ≡ true
all_complete p [] h = refl
all_complete p (x ∷ xs) h = rw (h x (Memᴰ.head refl)) (all_complete p xs (λ c m. h c (Memᴰ.tail m)))

same_class_sound :
    (actual expected : Json)
    → same_class_contract actual expected ≡ true
    → (length (class_names actual) ≡ length (class_names expected))
      × Includes (class_names actual) (class_names expected)
      × Includes (class_names expected) (class_names actual)
unfolding same_class_contract
same_class_sound actual expected h =
    let (same_length, same_sets) = and_true _ _ h in
    let (forth, back) = and_true _ _ same_sets in
    (
      (nat_eq_iff _ _).0 same_length,
      λ c m. str_in-Memᴰ c _ (all_sound (λ s. str_in s (class_names expected)) _ c forth m),
      λ c m. str_in-Memᴰ c _ (all_sound (λ s. str_in s (class_names actual)) _ c back m),
    )

same_class_complete :
    (actual expected : Json)
    → (length (class_names actual) ≡ length (class_names expected))
    → Includes (class_names actual) (class_names expected)
    → Includes (class_names expected) (class_names actual)
    → same_class_contract actual expected ≡ true
unfolding same_class_contract
same_class_complete actual expected same_length forth back = rw (
  (nat_eq_iff _ _).1 same_length,
  all_complete (λ s. str_in s (class_names expected)) (class_names actual)
      (λ c m. Memᴰ-str_in _ (forth c m)),
  all_complete (λ s. str_in s (class_names actual)) (class_names expected)
      (λ c m. Memᴰ-str_in _ (back c m)),
)

-- The class lists agree exactly when they are equally long and each holds every class of the other.
pub same_class_contract_iff :
    (actual expected : Json)
    → (same_class_contract actual expected ≡ true) ↔ (
        (length (class_names actual) ≡ length (class_names expected))
        × Includes (class_names actual) (class_names expected)
        × Includes (class_names expected) (class_names actual))
same_class_contract_iff actual expected = (
  same_class_sound actual expected,
  λ (l, forth, back). same_class_complete actual expected l forth back,
)
