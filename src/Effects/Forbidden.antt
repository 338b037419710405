-- ===== src/Effects/Forbidden.antt =====
-- What an entry of the forbidden work forbids, and when an action changes the approved classes.
use mathlib.Core.List.{Memᴰ}
use ev4_constructability_eng.Base.{
  ◌≡◌, ◌≢◌, refl, ap, ◌↔◌, ◌⊎◌, inl, inr, String, Bool, true, false, with_iff, either_iff, not_iff,
  not, ◌&&◌, ◌||◌, ◌==◌, List, [], ◌∷◌, All, All-map, any, or_true, arith, eq_iff, is_empty,
}
use ev4_constructability_eng.Base.Text.{casefold, contains}
use ev4_constructability_eng.Effects.BuildRecord.{conflicts_with, structure_tokens}
use ev4_constructability_eng.Effects.ClassEffect.{
  ClassChange, class_set_changed, introduced, removed_approved,
}

-- A text has one of some words in it, whatever the case of its letters.
abbrev pub Mentions : String → List String → Type 0
Mentions item words = (word : String) × Memᴰ word words × (contains (casefold item) word ≡ true)

-- An entry forbids an action of a type, which changes the classes or the tree or neither.
pub data Forbids (action_type : String) (Classes Tree : Type 0) (item : String) : Type 0 where
  no_class_change :
      Classes → Mentions item ("class" ∷ "redesign" ∷ []) → Forbids action_type Classes Tree item
  no_tree_change :
      Tree
      → Mentions item ("structure" ∷ "build_tree" ∷ "build tree" ∷ "redesign" ∷ "identity" ∷ [])
      → Forbids action_type Classes Tree item
  no_invention :
      Tree
      → action_type ≡ "create_element"
      → Mentions item ("invent_geometry" ∷ [])
      → Forbids action_type Classes Tree item
  no_asset :
      action_type ≡ "attach_asset"
      → Mentions item ("asset" ∷ [])
      → Forbids action_type Classes Tree item
  no_breakpoint :
      action_type ≡ "set_responsive"
      → Mentions item ("breakpoint" ∷ [])
      → Forbids action_type Classes Tree item
  no_dynamic_loop :
      action_type ≡ "bind_dynamic_loop"
      → Mentions item ("dynamic" ∷ [])
      → Forbids action_type Classes Tree item

any_iff :
    (p : String → Bool) (words : List String)
    → (any p words ≡ true) ↔ ((word : String) × Memᴰ word words × (p word ≡ true))
any_iff p [] = (λ h. cc, λ (w, m, e). elim m [ ])
any_iff p (x ∷ words) = (
  λ h. elim (or_true (p x) (any p words) h) [
    | inl e ↦ (x, Memᴰ.head refl, e)
    | inr r ↦ let (w, m, e) = (any_iff p words).0 r in (w, Memᴰ.tail m, e)
  ],
  λ (w, m, e). elim m [
    | Memᴰ.head s ↦ ground (arith, ap p s, e)
    | Memᴰ.tail n ↦ ground (arith, (any_iff p words).1 (w, n, e))
  ],
)

Mentions-iff :
    (item : String) (words : List String)
    → (any (contains (casefold item)) words ≡ true) ↔ Mentions item words
Mentions-iff item words = any_iff (contains (casefold item)) words

Mentions-one :
    (item word : String) → (contains (casefold item) word ≡ true) ↔ Mentions item (word ∷ [])
Mentions-one item word =
    let known = Mentions-iff item (word ∷ []) in
    (λ e. known.0 (ground (arith, e)), λ m. ground (arith, known.1 m))

Mentions-two :
    (item v w : String)
    → ((contains (casefold item) v || contains (casefold item) w) ≡ true)
      ↔ Mentions item (v ∷ w ∷ [])
Mentions-two item v w =
    let known = Mentions-iff item (v ∷ w ∷ []) in
    (λ e. known.0 (ground (arith, e)), λ m. ground (arith, known.1 m))

-- An action of some type that mentions a word.
typed_iff :
    (action_type t item word : String)
    → ((action_type == t && contains (casefold item) word) ≡ true)
      ↔ ((action_type ≡ t) × Mentions item (word ∷ []))
typed_iff action_type t item word =
    with_iff (action_type == t) _ (eq_iff action_type t) (Mentions-one item word)

module _ {Classes Tree : Type 0} (classes tree : Bool)
    (changes_classes : (classes ≡ true) ↔ Classes) (changes_tree : (tree ≡ true) ↔ Tree)
    (action_type item : String) where
  abbrev Invents : Type 0
  Invents = Tree × ((action_type ≡ "create_element") × Mentions item ("invent_geometry" ∷ []))

  abbrev Typed : String → String → Type 0
  Typed t word = (action_type ≡ t) × Mentions item (word ∷ [])

  abbrev ByType : Type 0
  ByType =
      Typed "attach_asset" "asset"
      ⊎ (Typed "set_responsive" "breakpoint" ⊎ Typed "bind_dynamic_loop" "dynamic")

  abbrev Parts : Type 0
  Parts =
      (Classes × Mentions item ("class" ∷ "redesign" ∷ []))
      ⊎ ((Tree × Mentions item structure_tokens) ⊎ (Invents ⊎ ByType))

  parts_iff : (conflicts_with action_type classes tree item ≡ true) ↔ Parts
  unfolding conflicts_with
  parts_iff =
      let typed = λ (t word : String). typed_iff action_type t item word in
      let invents = with_iff tree _ changes_tree (typed "create_element" "invent_geometry") in
      let others = either_iff _ _ (typed "attach_asset" "asset") (
        either_iff _ _ (typed "set_responsive" "breakpoint")
          (typed "bind_dynamic_loop" "dynamic")) in
      either_iff _ _ (with_iff classes _ changes_classes (Mentions-two item "class" "redesign")) (
        either_iff _ _ (with_iff tree _ changes_tree (Mentions-iff item structure_tokens))
          (either_iff _ _ invents others))

  -- An entry conflicts with an action exactly when it forbids it.
  pub conflicts_with_iff :
      (conflicts_with action_type classes tree item ≡ true) ↔ Forbids action_type Classes Tree item
  conflicts_with_iff = (
    λ h. elim (parts_iff.0 h) [
      | inl (c, m) ↦ no_class_change c m
      | inr (inl (t, m)) ↦ no_tree_change t m
      | inr (inr (inl (t, (same, m)))) ↦ no_invention t same m
      | inr (inr (inr (inl (same, m)))) ↦ no_asset same m
      | inr (inr (inr (inr (inl (same, m))))) ↦ no_breakpoint same m
      | inr (inr (inr (inr (inr (same, m))))) ↦ no_dynamic_loop same m
    ],
    λ f. parts_iff.1 (elim f [
      | no_class_change c m ↦ inl (c, m)
      | no_tree_change t m ↦ inr (inl (t, m))
      | no_invention t same m ↦ inr (inr (inl (t, (same, m))))
      | no_asset same m ↦ inr (inr (inr (inl (same, m))))
      | no_breakpoint same m ↦ inr (inr (inr (inr (inl (same, m)))))
      | no_dynamic_loop same m ↦ inr (inr (inr (inr (inr (same, m)))))
    ]),
  )

-- No entry of some forbidden work conflicts with an action exactly when none forbids it.
pub unforbidden_iff :
    {Classes Tree : Type 0} (classes tree : Bool)
    → ((classes ≡ true) ↔ Classes)
    → ((tree ≡ true) ↔ Tree)
    → (action_type : String) (work : List String)
    → All (λ w. conflicts_with action_type classes tree w ≡ false) work
      ↔ All (λ w. ¬ (Forbids action_type Classes Tree w)) work
unforbidden_iff classes tree changes_classes changes_tree action_type work =
    let one = λ (w : String).
      not_iff (conflicts_with action_type classes tree w)
        (conflicts_with_iff classes tree changes_classes changes_tree action_type w) in
    (All-map work (λ w. (one w).0), All-map work (λ w. (one w).1))

-- A nonempty list.
pub nonempty_iff {ℓ} : {A : Type ℓ} (xs : List A) → (not (is_empty xs) ≡ true) ↔ (xs ≢ [])
nonempty_iff [] = (λ h. cc, λ some. elim (some refl) [ ])
nonempty_iff (x ∷ xs) = (λ h e. cc, λ some. refl)

-- An action changes the approved set: it introduces a class, removes an approved one, or replaces
-- a class.
abbrev pub ChangesClassSet : List String → ClassChange → Type 0
ChangesClassSet approved change =
    (introduced approved change ≢ [])
    ⊎ ((removed_approved approved change ≢ []) ⊎ (change.replacements ≢ []))

pub class_set_changed_iff :
    (approved : List String) (change : ClassChange)
    → (class_set_changed approved change ≡ true) ↔ ChangesClassSet approved change
class_set_changed_iff approved change = either_iff _ _ (nonempty_iff (introduced approved change)) (
    either_iff _ _ (nonempty_iff (removed_approved approved change))
      (nonempty_iff change.replacements))
