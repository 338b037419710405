-- ===== src/Engine/Schemas.antt =====
-- validator/engine.py: `schema_validate`, over the validator of JSON schemas. The schema of a path
-- is loaded and checked by third-party code, the parameter SchemaValidator: the errors of a document
-- against the schema at a path, in the order the validator yields them, each with the parts of its
-- path as texts and its message. That the schema files can be loaded is taken for granted.
use ev4_constructability_eng.Base.{
  String, ◌<>◌, Bool, true, false, ◌||◌, List, [], ◌∷◌, ◌++◌, map, ◌==◌, if◌then◌else◌,
}
use ev4_constructability_eng.Base.Text.{str_le}
use ev4_constructability_eng.Json.{Json, obj, Fields, has_key, is_str, value_at}

abbrev pub SchemaError : Type 0
SchemaError = List String × String

abbrev pub SchemaValidator : Type 0
SchemaValidator = String → Json → List SchemaError

-- The order of Python's tuples of texts.
abbrev pub path_le : List String → List String → Bool
path_le [] q = true
path_le (a ∷ p) [] = false
path_le (a ∷ p) (b ∷ q) = if a == b then path_le p q else str_le a b

unfoldable pub insert_error : SchemaError → List SchemaError → List SchemaError
insert_error e [] = e ∷ []
insert_error e (f ∷ fs) = if path_le e.0 f.0 then e ∷ f ∷ fs else f ∷ insert_error e fs

unfoldable pub sort_errors : List SchemaError → List SchemaError
unfolding insert_error
sort_errors [] = []
sort_errors (e ∷ es) = insert_error e (sort_errors es)

-- `".".join(…)`
unfoldable pub join_dots : List String → String
join_dots [] = ""
join_dots (s ∷ []) = s
join_dots (s ∷ t ∷ ts) = s <> ("." <> join_dots (t ∷ ts))

unfoldable pub error_line : String → SchemaError → String
error_line prefix (path, message) =
    (if join_dots path == "" then prefix else join_dots path) <> ": " <> message

abbrev pub schema_by_kind : List (String × String)
schema_by_kind =
    ("constructability_review", "schemas/constructability_review.schema.json")
    ∷ ("implementation_strategy_map", "schemas/implementation_strategy_map.schema.json")
    ∷ ("builder_executable_package", "schemas/builder_executable_package.schema.json")
    ∷ []

-- `document.get('schema_id') == VERIFIED_CE_PAYLOAD_SCHEMA_ID`
abbrev pub is_verified_payload : Fields → Bool
is_verified_payload document = is_str "ev4-ce-stage-payload@1.1.0" (value_at "schema_id" document)

module _ (iter_errors : SchemaValidator) where
  -- `_collect_schema_errors`, with the loading of the schema at a path
  unfoldable pub collect_schema_errors : String → Json → String → List String
  collect_schema_errors path document prefix =
      map (error_line prefix) (sort_errors (iter_errors path document))

  -- The loop over the kinds of a document.
  unfoldable pub kind_errors : List (String × String) → Fields → List String
  kind_errors [] document = []
  kind_errors ((key, path) ∷ kinds) document =
      (if has_key key document then collect_schema_errors path (value_at key document) key else [])
      ++ kind_errors kinds document

  -- `schema_validate`
  unfoldable pub schema_validate : Fields → List String
  schema_validate document =
      if is_verified_payload document
      then collect_schema_errors "schemas/ce_stage_payload.v1_1.schema.json" (obj document)
          "ce_stage_payload"
      else kind_errors schema_by_kind document
        ++ (if has_key "reference_paradigm_lock" document
              || has_key "paradigm_to_structure_map" document
            then collect_schema_errors "schemas/reference-paradigm-lock.schema.json" (obj document)
                "reference_paradigm_lock"
            else [])
