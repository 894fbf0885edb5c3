-- ===== src/Operation/Plans.antt =====
-- What a plan that `plan_stateless` returns is made of: the components' laws, put together.
use bardi.Prelude.{
  ◌≡◌, refl, sym, subst, inl, inr, some, String, In, All, Option-cases, ok, >>=-eq-ok, ok-injective,
  arith,
}
use bardi.Prelude.{true}
use bardi.KeySet
use bardi.KeySet.{KeySet}
use bardi.Bases.Laws.{IsTrusted, select_eligibility_bases-IsTrusted}
use bardi.Calendar.{Date}
use bardi.Facts.{PreparedFacts}
use bardi.Catalog.{
  KnowledgeSnapshot, ServiceSnapshot, QuestionSnapshot, ProcedureVersionSnapshot,
  ChecklistItemSnapshot, StepSnapshot, FeeSnapshot,
}
use bardi.Public.{PlanningResult, PlanResult}
use bardi.Questions.{ConsequentialQuestion, pick_consequential_question, question_result}
use bardi.Bases.{EligibilityBasisSelection, select_eligibility_bases}
use bardi.Dependencies.{ProcedureDependencySelection, select_procedure_dependencies}
use bardi.Checklists.{ChecklistSelection, select_checklist_items}
use bardi.Checklists.Laws as ChecklistLaws
use bardi.Steps.{StepSelection, select_steps}
use bardi.Steps.Laws as StepLaws
use bardi.Fees.{FeeSelection, select_fees}
use bardi.Fees.Laws as FeeLaws
use bardi.Warnings.{select_warnings}
use bardi.Routing.{select_service_points}
use bardi.Operation.{
  asked, ask, build_plan, plan_fees, plan_steps, plan_checklist, plan_dependencies, plan_bases,
}

-- The items of the plan are those of the version, each for the reasons of its component's law.
pub record IsFilled (facts : PreparedFacts) (d : Date) (procedure : String)
    (version : ProcedureVersionSnapshot) (p : PlanResult) : Type 0 where
  pub procedure_shown : p.procedure_id ≡ procedure
  pub version_shown : p.procedure_version_id ≡ version.semantic_id
  pub bases : EligibilityBasisSelection
  pub matched : select_eligibility_bases version facts d ≡ ok bases
  pub earned :
      (id : String)
      → KeySet.member id bases.trusted_matched_basis_ids ≡ true
      → IsTrusted version facts d id
  pub checklist :
      All
        (λ x.
          (item : ChecklistItemSnapshot) × In item version.checklist_items
          × ChecklistLaws.IsJustified facts d bases.trusted_matched_basis_ids item x)
        p.checklist_items
  pub steps :
      All
        (λ x.
          (item : StepSnapshot) × In item version.steps
          × StepLaws.IsJustified facts d bases.trusted_matched_basis_ids item x)
        p.steps
  pub fees :
      All
        (λ x.
          (item : FeeSnapshot) × In item version.fees
          × FeeLaws.IsJustified facts d bases.trusted_matched_basis_ids item x)
        p.fees

plan-injective : {a b : PlanResult} → PlanningResult.plan a ≡ PlanningResult.plan b → a ≡ b
plan-injective h = cc

pub question_result_lem :
    (snapshot : KnowledgeSnapshot) (id : String) (q : QuestionSnapshot) (p : PlanResult)
    → question_result snapshot id q ≡ PlanningResult.plan p
    → ⊥
unfolding question_result
question_result_lem snapshot id q p h = ground arith

module _ (snapshot : KnowledgeSnapshot) (d : Date) (service : ServiceSnapshot) where
  asked_lem :
      (q : ConsequentialQuestion) (p : PlanResult)
      → asked snapshot d service q ≡ PlanningResult.plan p
      → ⊥
  unfolding asked
  asked_lem q p h = elim (Option-cases q.question) [
    | inl e ↦ ground arith
    | inr (question, e) ↦
        ground (arith, question_result_lem snapshot service.semantic_id question p)
  ]

  module _ (facts : PreparedFacts) where
    pub ask_lem :
        (prefix : String) (missing : KeySet) (p : PlanResult)
        → ask snapshot d service facts prefix missing ≡ ok (PlanningResult.plan p)
        → ⊥
    unfolding ask
    ask_lem prefix missing p h =
        let (q, e, r) =
          >>=-eq-ok (pick_consequential_question prefix snapshot service facts missing) _ h in
        asked_lem q p (ok-injective r)

    module _ (procedure : String) (version : ProcedureVersionSnapshot) (p : PlanResult) where
      build_plan-eq :
          (bases : EligibilityBasisSelection) (dependencies : ProcedureDependencySelection)
          (checklist : ChecklistSelection) (steps : StepSelection) (fees : FeeSelection)
          → build_plan snapshot d service facts procedure version bases dependencies checklist steps
              fees
            ≡ ok (PlanningResult.plan p)
          → (p.procedure_id ≡ procedure)
            × (p.procedure_version_id ≡ version.semantic_id)
            × (p.checklist_items ≡ checklist.items)
            × (p.steps ≡ steps.items)
            × (p.fees ≡ fees.items)
      unfolding build_plan
      build_plan-eq bases dependencies checklist steps fees h =
          let (w, _, h2) = >>=-eq-ok (select_warnings version facts d) _ h in
          let (r, _, h3) = >>=-eq-ok (select_service_points snapshot version facts d) _ h2 in
          subst
            (λ x.
              (x.procedure_id ≡ procedure)
              × (x.procedure_version_id ≡ version.semantic_id)
              × (x.checklist_items ≡ checklist.items)
              × (x.steps ≡ steps.items)
              × (x.fees ≡ fees.items))
            (plan-injective (ok-injective h3)) (refl, refl, refl, refl, refl)

      plan_fees-cases :
          (bases : EligibilityBasisSelection) (dependencies : ProcedureDependencySelection)
          (checklist : ChecklistSelection) (steps : StepSelection)
          → plan_fees snapshot d service facts procedure version bases dependencies checklist steps
            ≡ ok (PlanningResult.plan p)
          → (fees : FeeSelection) × (select_fees version facts d
                (some bases.trusted_matched_basis_ids)
              ≡ ok fees)
            × (build_plan snapshot d service facts procedure version bases dependencies checklist
                  steps fees
                ≡ ok (PlanningResult.plan p))
      unfolding plan_fees
      plan_fees-cases bases dependencies checklist steps h =
          let (fees, e, k) =
            >>=-eq-ok (select_fees version facts d (some bases.trusted_matched_basis_ids)) _ h in
          let no_question = ask_lem "missing_fee_question" fees.missing_facts p in
          (fees, e, ground arith)

      plan_steps-cases :
          (bases : EligibilityBasisSelection) (dependencies : ProcedureDependencySelection)
          (checklist : ChecklistSelection)
          → plan_steps snapshot d service facts procedure version bases dependencies checklist
            ≡ ok (PlanningResult.plan p)
          → (steps : StepSelection) × (select_steps version facts d
                (some bases.trusted_matched_basis_ids)
              ≡ ok steps)
            × (plan_fees snapshot d service facts procedure version bases dependencies checklist
                  steps
                ≡ ok (PlanningResult.plan p))
      unfolding plan_steps
      plan_steps-cases bases dependencies checklist h =
          let (steps, e, k) =
            >>=-eq-ok (select_steps version facts d (some bases.trusted_matched_basis_ids)) _ h in
          let no_question = ask_lem "missing_step_question" steps.missing_facts p in
          (steps, e, ground arith)

      plan_checklist-cases :
          (bases : EligibilityBasisSelection) (dependencies : ProcedureDependencySelection)
          → plan_checklist snapshot d service facts procedure version bases dependencies
            ≡ ok (PlanningResult.plan p)
          → (checklist : ChecklistSelection) × (select_checklist_items version facts d
                (some bases.trusted_matched_basis_ids)
              ≡ ok checklist)
            × (plan_steps snapshot d service facts procedure version bases dependencies checklist
                ≡ ok (PlanningResult.plan p))
      unfolding plan_checklist
      plan_checklist-cases bases dependencies h =
          let (checklist, e, k) =
            >>=-eq-ok
              (select_checklist_items version facts d (some bases.trusted_matched_basis_ids)) _ h in
          let no_question = ask_lem "missing_checklist_question" checklist.missing_facts p in
          (checklist, e, ground arith)

      plan_dependencies-cases :
          (bases : EligibilityBasisSelection)
          → plan_dependencies snapshot d service facts procedure version bases
            ≡ ok (PlanningResult.plan p)
          → (dependencies : ProcedureDependencySelection) × (plan_checklist snapshot d service facts
                procedure version bases dependencies
              ≡ ok (PlanningResult.plan p))
      unfolding plan_dependencies
      plan_dependencies-cases bases h =
          let (dependencies, e, k) =
            >>=-eq-ok (select_procedure_dependencies snapshot version facts d) _ h in
          let no_question = ask_lem "missing_dependency_question" dependencies.missing_facts p in
          (dependencies, ground arith)

      plan_bases-cases :
          plan_bases snapshot d service facts procedure version ≡ ok (PlanningResult.plan p)
          → (bases : EligibilityBasisSelection) × (select_eligibility_bases version facts d
              ≡ ok bases)
            × (plan_dependencies snapshot d service facts procedure version bases
                ≡ ok (PlanningResult.plan p))
      unfolding plan_bases
      plan_bases-cases h =
          let (bases, e, k) = >>=-eq-ok (select_eligibility_bases version facts d) _ h in
          let no_question = ask_lem "missing_eligibility_basis_question" bases.missing_facts p in
          (bases, e, ground arith)

      pub plan_bases-IsFilled :
          plan_bases snapshot d service facts procedure version ≡ ok (PlanningResult.plan p)
          → IsFilled facts d procedure version p
      plan_bases-IsFilled h =
          let (bases, b, h1) = plan_bases-cases h in
          let (dependencies, h2) = plan_dependencies-cases bases h1 in
          let (checklist, c, h3) = plan_checklist-cases bases dependencies h2 in
          let (steps, s, h4) = plan_steps-cases bases dependencies checklist h3 in
          let (fees, f, h5) = plan_fees-cases bases dependencies checklist steps h4 in
          let (id, shown, ec, es, ef) = build_plan-eq bases dependencies checklist steps fees h5 in
          let ids = bases.trusted_matched_basis_ids in
          record {
            procedure_shown = id;
            version_shown = shown;
            bases = bases;
            matched = b;
            earned = λ key m. select_eligibility_bases-IsTrusted version facts d bases key b m;
            checklist = subst (All _) (sym ec) (
                ChecklistLaws.select_checklist_items-IsJustified version facts d (some ids)
                  checklist c);
            steps =
                subst (All _) (sym es)
                  (StepLaws.select_steps-IsJustified version facts d (some ids) steps s);
            fees =
                subst (All _) (sym ef)
                  (FeeLaws.select_fees-IsJustified version facts d (some ids) fees f);
          }
