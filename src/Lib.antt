-- ===== src/Lib.antt =====
-- The Constructability Engineer (CE) stage of EV4 validates what it hands to a Builder: reviews,
-- packages, Builder actions and the runtime obligations that stay open. This library models the
-- validators of the directory validator/, and one of scripts/, and proves what they guarantee.
--
-- Parts and files:
-- Base: Booleans, lists, texts, integers and sorting as the validators use them, and Base.Python,
-- the results of Python code: a value, or an exception that leaves the function. An error of a
-- validator is a constructor that carries what its message names.
-- Json: the values of a JSON or YAML document with Python's truth, `==`, `dict.get`, `list`, and
-- membership in a set of texts. A call that raises on a badly typed document raises here too.
-- Rules: validator/rules.py. Rules.Document has the accessors and the class lists, Rules.Unresolved
-- the search for undecided parameters, Rules.Contracts the contracts of the mode, the schema, the
-- Architect, the strategy map and the first batch, Rules.Nodes the rules on one node, and
-- Rules.Evaluate `evaluate_document` with the other parts of its body. Rules.Gate has what an empty
-- result says of an executable document.
-- Registry: validator/action_contract_registry.py and validator/claim_policy_registry.py, both tables
-- entry by entry.
-- Actions: validator/action_ir.py. Actions.Values and Actions.Parameters normalize parameters against
-- a contract, Actions.Hidden searches for hidden decisions, Actions.Normalize has `normalize_action`,
-- `normalize_actions` and `normalized_review_draft`.
-- Obligations: validator/runtime_obligations.py. Obligations.Normalize has one obligation,
-- Obligations.Derive the loop over rows, Obligations.Lifecycle the lifecycle status.
-- Effects: validator/action_effects.py. Effects.Inputs has what is read of the Architect's intake, the
-- source bundle and the draft, Effects.Permissions the permissions, Effects.ClassEffect and
-- Effects.StructureEffect the two effects of an action, Effects.BuildRecord its record, and
-- Effects.Derive `derive_action_effects`. Effects.Authority, Effects.Forbidden and Effects.RecordLaws
-- describe an authorized action.
-- Review: validator/review_obligations.py. Review.Nodes has the nodes on which intake and bundle agree,
-- Review.Inputs the requested claims, the hints and the actions, Review.Unit the round of one node, and
-- Review.Derive `derive_review_obligations`.
-- Receipts: validator/kernel_decision_receipts.py, the visible receipts of Kernel decisions.
-- Receipts.Trace has what a complete trace is, Receipts.Surface the receipt and the diagnostics of one
-- surface, Receipts.Walk the walk over a document.
-- Execution: validator/runtime_execution.py. Execution.Requests has `_normalize_request`,
-- Execution.Runners the four runners, which are one loop with a function for each kind of item, and
-- Execution.Execute `execute_runtime_requests` and `select_execution_result`. What a runner takes as
-- observed is what the target file says was observed; nothing is executed on a page. Execution.Asked
-- has what a claim asks of such a file.
-- Evaluation: validator/claim_evaluation_support.py and validator/claim_evaluators.py.
-- Evaluation.Support has `_base_evaluation` and what it reads, Evaluation.Attributed the attributed
-- judgments, Evaluation.Decision the decisions of the Architect, Evaluation.Obligation the
-- obligation of a runtime claim, Evaluation.Runtime `_runtime_evaluation`. The table of runners is
-- the one of Execution.Requests, which has the same entries in both files.
-- Engine: validator/engine.py. Engine.Preflight has the checks of the mode and of the reference
-- paradigm, Engine.Schemas `schema_validate`, Engine.Validate `validate_document`, which runs all of
-- them and the Rules.
-- Paradigm: validator/reference_paradigm_lock.py. Paradigm.Regions has the decomposition of a grid,
-- Paradigm.Lock the rules on a lock and its structure map.
-- Lineage: scripts/validate-ce-decision-lineage-sequence.py. Lineage.Entries has the lineage entries of
-- one container, Lineage.Sequence `validate_sequence`.
-- Tests: concrete documents, actions, obligations and receipts.
--
-- How the parts interact: Actions looks contracts up in Registry and normalizes to its parameters;
-- Obligations asks Registry which claims belong to the runtime; Effects normalizes each proposal by
-- Actions and decides what it does by its contract; Review derives the effects of a draft and closes
-- the claims of its nodes under the policies of Registry; Execution checks runtime requests and
-- runs them on the files of the repository; Evaluation settles a runtime claim by the batch of
-- Execution, and any claim under its policy of Registry; Rules, Receipts, Paradigm and Lineage read
-- documents only, and Engine runs Rules.
--
-- Choices of the model:
-- A dict is a list of fields in order with each key once; keys are texts. A finite float is a
-- decimal. NaN and the infinities are not modelled.
-- `lower` and `casefold` map the ASCII letters and every other character whose full mapping has an
-- ASCII letter in it: the Kelvin sign, the sharp and the long s, the ligatures and letters with a mark.
-- Other characters are kept, which is exact for comparisons with ASCII words. A pattern with IGNORECASE
-- compares one character with one.
-- A set is a list; where the code sorts it, the model sorts the list with each member once.
-- An exception that `derive_action_effects` or `derive_review_obligations` catches is turned into a
-- record or a diagnostic by clauses on the result; every other one leaves the function.
-- Where a node's interrogation is no dict, the exception of its first `get` is raised at the start of
-- the node's round instead of after the location is built.
-- The path that an action names as its source is kept as the value that `str` is applied to.
-- `str` of a value and the SHA-256 of a value's canonical bytes are the record Host, a parameter
-- of the obligations, the regions, the lineage keys, the effects, the review, the execution and the
-- evaluation, with the law that `str` is the identity on texts.
-- The validator of JSON schemas is third-party code, the parameter SchemaValidator of Engine: a
-- function from the path of a schema and a document to errors; Paradigm takes its errors.
-- No theorem supposes anything of it. The files that Execution reads are the parameter Repository: the
-- file that an input names, its content or the exception of the parser, and the digest of its bytes.
-- Persian texts and the variation selector of the warning sign are written with escapes.
-- Loops are structural recursion on lists and documents. The only fuel is that of the printing of a
-- number, one more than the number, and a number has at most that many digits.
--
-- Not modelled: files, archives, command lines and digests, which are I/O or third-party code; the two
-- lists by which `validate_document` compares a fixture's rules with the expected ones; the evaluation
-- of a claim by artifacts and the dispatch `evaluate_claim`, which stand on the adapters; and the
-- components of validator/ and scripts/ not named above.
pub mod Base
pub mod Json
pub mod Rules
pub mod Registry
pub mod Actions
pub mod Obligations
pub mod Receipts
pub mod Engine
pub mod Effects
pub mod Review
pub mod Execution
pub mod Evaluation
pub mod Paradigm
pub mod Lineage
pub mod Tests
