-- ===== src/Tests/Modes.antt =====
-- The mode contract, the class lists, the QA rules and the logged assumptions on concrete values.
use ev4_constructability_eng.Base.{◌≡◌, refl, true, not, List, [], ◌∷◌, All, length}
use ev4_constructability_eng.Base.Python.{ok}
use ev4_constructability_eng.Json.{
  Json, null, obj, end, dict_or_empty, is_null, or_else, py_list, value_at, str, truthy,
}
use ev4_constructability_eng.Json.Build.{dict_of, list_of, texts_of}
use ev4_constructability_eng.Rules.Document.{
  builder_package, class_names, review, review_status, same_class_contract,
}
use ev4_constructability_eng.Rules.Contracts.{mode_contract}
use ev4_constructability_eng.Rules.Nodes.{flag}
use ev4_constructability_eng.Rules.Evaluate.{
  assumptions_violations, logged_assumption_violations, qa_violations,
}
use ev4_constructability_eng.Rules.ModeLaws.{
  AssumptionIsSafe, ModeHolds, QaIsHonest, logged_assumption_violations_sound, mode_contract_iff,
  qa_violations_sound,
}
use ev4_constructability_eng.Rules.ClassLaws.{Includes, same_class_contract_iff}
use ev4_constructability_eng.Tests.Data.{honest_qa, ready_document, ready_package, safe_assumption}

review_status_read : review_status ready_document ≡ ok (str "executable_ready")
unfolding review_status review
review_status_read = refl

package_read : builder_package ready_document ≡ ok ready_package
unfolding builder_package
package_read = refl

mode_silent : mode_contract ready_document "package" ≡ ok []
unfolding mode_contract review_status review builder_package
mode_silent = refl

mode_contract_iff_example :
    ModeHolds "package" (not (is_null ready_package)) (str "executable_ready")
mode_contract_iff_example =
    (mode_contract_iff ready_document (str "executable_ready") ready_package "package"
        review_status_read package_read).0
      mode_silent

-- The classes of the two lists are the same sets, and not the same lists up to order.
abbrev twice_hero : Json
twice_hero = texts_of ("hero" ∷ "hero" ∷ "card" ∷ [])

abbrev twice_card : Json
twice_card = texts_of ("hero" ∷ "card" ∷ "card" ∷ [])

classes_accepted : same_class_contract twice_hero twice_card ≡ true
unfolding same_class_contract
classes_accepted = refl

same_class_contract_iff_example :
    (length (class_names twice_hero) ≡ length (class_names twice_card))
    × Includes (class_names twice_hero) (class_names twice_card)
    × Includes (class_names twice_card) (class_names twice_hero)
same_class_contract_iff_example = (same_class_contract_iff twice_hero twice_card).0 classes_accepted

qa_silent : qa_violations (honest_qa ∷ obj end ∷ []) ≡ ok []
unfolding qa_violations flag
qa_silent = refl

qa_violations_sound_example : All QaIsHonest (honest_qa ∷ obj end ∷ [])
qa_violations_sound_example = qa_violations_sound (honest_qa ∷ obj end ∷ []) qa_silent

abbrev logged_review : Json
logged_review = dict_of (("logged_assumptions", list_of (safe_assumption ∷ [])) ∷ [])

logged_silent :
    logged_assumption_violations null logged_review (str "executable_with_logged_assumption")
    ≡ ok []
unfolding logged_assumption_violations assumptions_violations flag
logged_silent = refl

logged_assumption_violations_sound_example :
    (logged : Json) × (entries : List Json) × (logged
      ≡ or_else
          (value_at "logged_assumptions" (dict_or_empty logged_review))
          (or_else (value_at "logged_assumptions" (dict_or_empty null)) (list_of [])))
    × (truthy logged ≡ true)
    × (py_list logged ≡ ok entries)
    × All AssumptionIsSafe entries
logged_assumption_violations_sound_example =
    logged_assumption_violations_sound null logged_review logged_silent
