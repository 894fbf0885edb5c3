-- ===== src/Lib.antt =====
-- The stateless planner of backend/planning, the integrity policy of the snapshots that it takes and
-- the limits on its requests: a model of their code and what holds of it.
--
-- The planner takes a detached snapshot of the authored knowledge and one request (a Service, the
-- Facts that the user submitted, a date), and returns a plan, the next Question, an inconclusive
-- reason, or the diagnostics of an invalid request. It reads no clock, file or database.
--
-- Data:
--   Catalog         backend/planning/catalog.py: the snapshot
--   Public          backend/planning/public.py: the results
--   Facts           facts.py and diagnostics.py; Facts/Registry is FACT_DEFINITIONS
--   Rules           rules.py: the Predicate; Rules/Text serialize_rule_v1 and _decode_literal,
--                   Rules/Decoding, Rules/Leaves and Rules/Validation validate_rule_v1
--   Calendar        datetime.date, with _completed_years and _add_calendar_months of
--                   case_preparation.py
-- Policies that all stages use:
--   Evaluator       evaluator.py: evaluate, _evaluate_trace, _compose, _dominated
--   Trust           trust.py: assess_trust
--   Provenance      provenance.py: supporting_sources, claim_sources
--   Questions       questions.py: the picker with its two profiles, and question_result
-- Stages, in the order of plan_stateless (Operation, backend/planning/operation.py):
--   CasePreparation case_preparation.py: derived Facts and contradictions
--   Selection       selection.py: the Procedure
--   Versions        versions.py: the Procedure Version
--   Bases           eligibility_bases.py
--   Dependencies    dependencies.py
--   Checklists      checklists.py
--   Steps           steps.py
--   Fees            fees.py
--   Warnings        warnings.py
--   Routing         routing.py
-- Around the planner:
--   Snapshot        backend/knowledge/snapshot_policy.py: Evidence (the summary and its adequacy),
--                   Rows (the captured rows), Claims and Core (validate_core), Features
--                   (validate_bases, validate_dependencies, validate_routing). A stage is the loop
--                   each_row over the Outcome of each row, on the failures of the stages before it.
--   Scope           backend/knowledge/planning_scope.py: _discover_procedure_graph
--   Api             backend/api: RateLimit (rate_limit.py), BodyLimit (body_limit.py) and Privacy
--                   (planning_observability_metadata of privacy.py)
-- The snapshot policy decodes the stored rules with validate_rule_v1 and hands the predicates on to
-- the snapshot, where the evaluator meets them; evaluate-accepted joins the two ends.
-- Shared: Prelude (tests, lists, results, sorting), KeySet and Dict (Python's sets and dicts over
-- text keys), Table (dicts over other keys), Items (what the selectors of items have in common). Examples holds runs on small data.
--
-- How the code is modelled. A Python expression that can raise returns a Result; the exceptions are
-- those the planner's own expressions can raise. A `for` loop with early `continue` is `fold` over a
-- function that returns the loop's variables; a loop that may `return` is a recursive function. Sets
-- are ascending lists of keys and dicts ascending lists of entries, since the planner sorts both
-- before their order can be seen; where versions.py puts a set in a tuple unsorted, only the model
-- fixes the order. Python's `int` is ℤ and has no bound; the parts of a date are naturals, and what
-- the constructor of a date accepts is IsDate. Recursion is structural. The traversal of a stored
-- rule runs on the nodes that are still allowed, as in the source. Two loops run on rounds, with a
-- theorem that enough suffice: the discovery of Procedures (one for each Procedure and one more) and
-- the read of a body (two more than the limit has bytes).
-- The explicit stacks of _referenced_fact_keys and _influential_submitted_fact_keys are recursion on
-- the tree; only a set leaves them.
--
-- Parameters of the model, since they are not this repository's code: date.isoformat,
-- date.fromisoformat str.strip and str.upper, the queries of the ORM that the discovery of Procedures is handed,
-- the stream of a request, the identifier of a client. The float arithmetic of the limiter's clock is
-- taken as exact.
--
-- Not modelled: the rest of backend/knowledge, which is the ORM with its models, admin, importers and
-- migrations; the parsing and serialisation of requests and the log filter in backend/api;
-- configuration and deployment (backend/core, backend/bardi), the frontend and the tools. Copies that
-- dataclasses make into tuples are the immutable lists.
pub mod Prelude
pub mod KeySet
pub mod Dict
pub mod Calendar
pub mod Facts
pub mod Rules
pub mod Evaluator
pub mod Trust
pub mod Api
pub mod Catalog
pub mod Public
pub mod Provenance
pub mod Questions
pub mod Selection
pub mod Scope
pub mod Snapshot
pub mod Versions
pub mod Items
pub mod Steps
pub mod Table
pub mod Checklists
pub mod Fees
pub mod Warnings
pub mod Bases
pub mod Dependencies
pub mod CasePreparation
pub mod Routing
pub mod Operation
pub mod Examples
