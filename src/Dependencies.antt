-- ===== src/Dependencies.antt =====
-- backend/planning/dependencies.py: direct prerequisites, without planning their targets.
use bardi.Prelude.{
  String, Bool, true, false, not, ◌&&◌, ◌||◌, Option, none, some, List, [], ◌∷◌, ◌++◌, int_lt,
  int_eq, str_eq, str_lt, sort, if◌then◌else◌, Result, ok, ◌>>=◌, fold,
}
use bardi.KeySet
use bardi.KeySet.{KeySet}
use bardi.Calendar.{Date}
use bardi.Rules.{Predicate}
use bardi.Facts.{PreparedFacts}
use bardi.Evaluator.{TruthValue, is_true, is_false, is_unknown, Evaluation, evaluate}
use bardi.Trust.{TrustAssessment, assess_trust}
use bardi.Catalog.{KnowledgeSnapshot, ProcedureVersionSnapshot, ProcedureDependencySnapshot}
use bardi.Public.{PublicProcedureDependency, PublicSource, ProcedureDependencyStatus}
use bardi.Provenance.{is_assert_current, supporting_sources, claim_sources}
use bardi.Versions.{
  ProcedureVersionResolution, resolved, unavailable, configuration_defect,
  resolve_procedure_version,
}
use bardi.Items.{outside_interval, evaluate_optional}

-- The result, and the variables of the loop.
pub record ProcedureDependencySelection : Type 0 where
  pub dependencies : List PublicProcedureDependency
  pub missing_facts : KeySet
  pub configuration_invalid : Bool

abbrev empty : ProcedureDependencySelection
empty = record { dependencies = []; missing_facts = []; configuration_invalid = false }

abbrev pub assess_dependency : Date → ProcedureDependencySnapshot → TrustAssessment
assess_dependency d dependency =
    assess_trust d
      (record {
        verified_on = dependency.verified_on;
        reverify_on = dependency.reverify_on;
        effective_from = dependency.effective_from;
        effective_to = dependency.effective_to;
        retrieved_on = none;
      })
      dependency.verification_state

target_version_id : ProcedureVersionResolution → Option String
target_version_id (resolved version _ _) = some version.semantic_id
target_version_id _ = none

-- An unmet prerequisite, by what its target resolves to.
unmet_status : ProcedureVersionResolution → ProcedureDependencyStatus
unmet_status (resolved _ _ _) = ProcedureDependencyStatus.blocking
unmet_status (configuration_defect _ _ _) = ProcedureDependencyStatus.inconclusive
unmet_status (unavailable _ _) = ProcedureDependencyStatus.unsupported_target

dependency_status : (satisfied : Bool) → ProcedureVersionResolution → ProcedureDependencyStatus
unfolding unmet_status
dependency_status true target = ProcedureDependencyStatus.satisfied
dependency_status false target = unmet_status target

module _ (snapshot : KnowledgeSnapshot) (facts : PreparedFacts) (d : Date) where
  public_dependency :
      ProcedureDependencySnapshot
      → ProcedureDependencyStatus
      → Option String
      → List PublicSource
      → PublicProcedureDependency
  public_dependency dependency status target_id sources = record {
    id = dependency.semantic_id;
    text = dependency.text;
    relation = "blocking_prerequisite";
    status = status;
    target_procedure_id = dependency.target_procedure_id;
    target_procedure = dependency.target_procedure_text;
    target_procedure_version_id = target_id;
    sources = sources;
    freshness = (assess_dependency d dependency).freshness;
  }

  add_dependency :
      ProcedureDependencySelection → PublicProcedureDependency → ProcedureDependencySelection
  add_dependency s p = record s { dependencies = s.dependencies ++ (p ∷ []) }

  add_missing : ProcedureDependencySelection → KeySet → ProcedureDependencySelection
  add_missing s missing = record s { missing_facts = KeySet.union missing s.missing_facts }

  with_sources :
      ProcedureDependencySelection
      → ProcedureDependencySnapshot
      → (satisfied : Bool) → Option (List PublicSource)
      → ProcedureDependencySelection
  unfolding public_dependency add_dependency target_version_id dependency_status
  with_sources s dependency satisfied none = record s { configuration_invalid = true }
  with_sources s dependency satisfied (some sources) =
      let target = resolve_procedure_version snapshot dependency.target_procedure_id d none in
      add_dependency s (
        public_dependency dependency (dependency_status satisfied target) (target_version_id target)
          sources)

  by_satisfaction :
      ProcedureDependencySelection
      → ProcedureDependencySnapshot
      → KeySet
      → TruthValue
      → ProcedureDependencySelection
  unfolding with_sources add_missing
  by_satisfaction s dependency missing is_unknown = add_missing s missing
  by_satisfaction s dependency missing is_true =
      with_sources s dependency true (supporting_sources d false dependency.evidence_links)
  by_satisfaction s dependency missing is_false =
      with_sources s dependency false (supporting_sources d false dependency.evidence_links)

  satisfy :
      ProcedureDependencySelection
      → ProcedureDependencySnapshot
      → Predicate
      → Result ProcedureDependencySelection
  unfolding by_satisfaction
  satisfy s dependency satisfied_when =
      evaluate satisfied_when facts.values facts.submitted_keys >>= λ e.
      ok (by_satisfaction s dependency e.missing_facts e.value)

  by_applicability :
      ProcedureDependencySelection
      → ProcedureDependencySnapshot
      → Predicate
      → KeySet
      → TruthValue
      → Result ProcedureDependencySelection
  unfolding satisfy
  by_applicability s dependency satisfied_when missing is_false = ok s
  by_applicability s dependency satisfied_when missing is_unknown = ok (add_missing s missing)
  by_applicability s dependency satisfied_when missing is_true = satisfy s dependency satisfied_when

  asserted :
      ProcedureDependencySelection
      → ProcedureDependencySnapshot
      → Predicate
      → Option Evaluation
      → Result ProcedureDependencySelection
  unfolding by_applicability
  asserted s dependency satisfied_when none = satisfy s dependency satisfied_when
  asserted s dependency satisfied_when (some e) =
      by_applicability s dependency satisfied_when e.missing_facts e.value

  -- `applicability is not None and applicability.value is FALSE`
  abbrev ruled_out : Option Evaluation → Bool
  ruled_out none = false
  ruled_out (some e) = elim e.value [ is_false ↦ true | _ ↦ false ]

  not_asserted :
      ProcedureDependencySelection
      → ProcedureDependencySnapshot
      → Option Evaluation
      → ProcedureDependencySelection
  unfolding public_dependency add_dependency
  not_asserted s dependency e =
      if ruled_out e
      then s
      else add_dependency s (
          public_dependency dependency ProcedureDependencyStatus.inconclusive none
            (claim_sources dependency.evidence_links))

  with_condition :
      ProcedureDependencySelection
      → ProcedureDependencySnapshot
      → Option Predicate
      → Result ProcedureDependencySelection
  unfolding asserted not_asserted
  with_condition s dependency none = ok (record s { configuration_invalid = true })
  with_condition s dependency (some satisfied_when) =
      evaluate_optional dependency.applicability facts >>= λ e.
      if not (is_assert_current (assess_dependency d dependency).disposition)
      then ok (not_asserted s dependency e)
      else asserted s dependency satisfied_when e

  -- One round of the loop.
  select_dependency :
      ProcedureDependencySelection
      → ProcedureDependencySnapshot
      → Result ProcedureDependencySelection
  unfolding with_condition
  select_dependency s dependency =
      if outside_interval dependency.effective_from dependency.effective_to d
      then ok s
      else if not (str_eq dependency.relation "blocking_prerequisite")
      then ok (record s { configuration_invalid = true })
      else with_condition s dependency dependency.satisfied_when

-- `(display_order, semantic_id)`
dependency_before : ProcedureDependencySnapshot → ProcedureDependencySnapshot → Bool
dependency_before a b =
    int_lt a.display_order b.display_order
    || (int_eq a.display_order b.display_order && str_lt a.semantic_id b.semantic_id)

unfoldable pub select_procedure_dependencies :
    KnowledgeSnapshot
    → ProcedureVersionSnapshot
    → PreparedFacts
    → Date
    → Result ProcedureDependencySelection
unfolding select_dependency dependency_before
select_procedure_dependencies snapshot version facts d =
    fold (select_dependency snapshot facts d) empty (sort dependency_before version.dependencies)
