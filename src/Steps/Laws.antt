-- ===== src/Steps/Laws.antt =====
-- Why a Step is in a plan.
use bardi.Prelude.{
  ◌≡◌, refl, subst, ◌⊎◌, inl, inr, Bool, true, false, Option, none, some, List, [], ◌∷◌, some_and,
  In, All, sort-In, sort, str_eq, one_of, Bool-cases, some_not_none, ok, >>=-eq-ok, ok-injective,
  arith,
}
use bardi.KeySet
use bardi.KeySet.{KeySet}
use bardi.Calendar.{Date}
use bardi.Facts.{PreparedFacts}
use bardi.Evaluator.{TruthValue, is_true, is_false, is_unknown, Evaluation}
use bardi.Trust.{assert_current}
use bardi.Catalog.{ProcedureVersionSnapshot, StepSnapshot}
use bardi.Public.{PublicStep, PublicSource}
use bardi.Provenance.{is_assert_current, supporting_sources}
use bardi.Items.{
  outside_interval, evaluate_optional, Applies, Grows, Grows-weaken, All-map, fold-From,
  evaluate_optional-none, is_assert_current_eq, procedure_scope,
}
use bardi.Steps.{
  StepSelection, assess_step, public_step, with_sources, trusted, by_value, applied, evaluated,
  select_step, step_before, matched_or_none, select_steps,
}

-- Why the authored Step stands in the plan in this public form.
pub record IsJustified (facts : PreparedFacts) (d : Date) (matched : KeySet) (item : StepSnapshot)
    (p : PublicStep) : Type 0 where
  pub projected : p ≡ public_step d item p.sources
  pub in_effect : outside_interval item.effective_from item.effective_to d ≡ false
  pub applies : Applies facts item.applicability
  pub asserted : (assess_step d item).disposition ≡ assert_current
  pub supported : supporting_sources d false item.evidence_links ≡ some p.sources
  pub unlocked :
      (item.scope ≡ "procedure")
      ⊎ (some_and (λ b. KeySet.member b matched) item.eligibility_basis_id ≡ true)

module _ (d : Date) where
  -- what the last stages establish
  abbrev Verified : StepSnapshot → PublicStep → Type 0
  Verified item p =
      (p ≡ public_step d item p.sources)
      × ((assess_step d item).disposition ≡ assert_current)
      × (supporting_sources d false item.evidence_links ≡ some p.sources)

  justified :
      {facts : PreparedFacts} {matched : KeySet} (item : StepSnapshot) (p : PublicStep)
      → outside_interval item.effective_from item.effective_to d ≡ false
      → Verified item p
      → Applies facts item.applicability
      → (item.scope ≡ "procedure")
        ⊎ (some_and (λ b. KeySet.member b matched) item.eligibility_basis_id ≡ true)
      → IsJustified facts d matched item p
  justified item p inside (projected, asserted, supported) applies unlocked = record {
    projected = projected;
    in_effect = inside;
    applies = applies;
    asserted = asserted;
    supported = supported;
    unlocked = unlocked;
  }

  with_sources-Grows :
      (s : StepSelection) (item : StepSnapshot) (pending : Option KeySet)
      (sources : Option (List PublicSource))
      → (assess_step d item).disposition ≡ assert_current
      → supporting_sources d false item.evidence_links ≡ sources
      → Grows
          (λ p. Verified item p × (pending ≡ none))
          s.items
          (with_sources d s item pending sources).items
  unfolding with_sources
  with_sources-Grows s item pending none a e = inl refl
  with_sources-Grows s item (some missing) (some sources) a e = inl refl
  with_sources-Grows s item none (some sources) a e =
      inr (public_step d item sources, ((refl, a, e), refl), refl)

  trusted-Grows :
      (s : StepSelection) (item : StepSnapshot) (pending : Option KeySet)
      → Grows (λ p. Verified item p × (pending ≡ none)) s.items (trusted d s item pending).items
  unfolding trusted
  trusted-Grows s item pending =
      elim (Bool-cases (is_assert_current (assess_step d item).disposition)) [
        | inr e ↦ rw e (inl refl)
        | inl e ↦ rw e (
            with_sources-Grows s item pending (supporting_sources d false item.evidence_links)
              (is_assert_current_eq _ e) refl)
      ]

  by_value-Grows :
      (s : StepSelection) (item : StepSnapshot) (missing : KeySet) (v : TruthValue)
      → Grows (λ p. Verified item p × (v ≡ is_true)) s.items (by_value d s item missing v).items
  unfolding by_value
  by_value-Grows s item missing is_true =
      Grows-weaken (λ p (w, _). (w, refl)) (trusted-Grows s item none)
  by_value-Grows s item missing is_false = inl refl
  by_value-Grows s item missing is_unknown =
      Grows-weaken (λ p (_, e). absurd (some_not_none e)) (trusted-Grows s item (some missing))

  applied-Grows :
      (facts : PreparedFacts) (s : StepSelection) (item : StepSnapshot) (e : Option Evaluation)
      → evaluate_optional item.applicability facts ≡ ok e
      → Grows
          (λ p. Verified item p × Applies facts item.applicability)
          s.items
          (applied d s item e).items
  unfolding applied
  applied-Grows facts s item none h =
      Grows-weaken (λ p (w, _). (w, inl (evaluate_optional-none _ facts h)))
        (trusted-Grows s item none)
  applied-Grows facts s item (some e) h =
      Grows-weaken (λ p (w, v). (w, inr (e, h, v))) (by_value-Grows s item e.missing_facts e.value)

  evaluated-Grows :
      (facts : PreparedFacts) (s t : StepSelection) (item : StepSnapshot)
      → evaluated d facts s item ≡ ok t
      → Grows (λ p. Verified item p × Applies facts item.applicability) s.items t.items
  unfolding evaluated
  evaluated-Grows facts s t item h =
      let (e, q, r) = >>=-eq-ok (evaluate_optional item.applicability facts) _ h in
      subst (λ x. Grows (λ p. Verified item p × Applies facts item.applicability) s.items x.items)
        (ok-injective r) (applied-Grows facts s item e q)

  module _ (known matched : KeySet) (resolved : Bool) (facts : PreparedFacts) where
    -- A round keeps the items, or evaluates the rule of a Step that is in effect and unlocked.
    select_step-cases :
        (s : StepSelection) (item : StepSnapshot) (t : StepSelection)
        → select_step d known matched resolved facts s item ≡ ok t
        → (t.items ≡ s.items)
          ⊎ ((outside_interval item.effective_from item.effective_to d ≡ false)
              × (((one_of item.scope ("procedure" ∷ "eligibility_basis" ∷ []) ≡ true)
                    × (str_eq item.scope "eligibility_basis" ≡ false))
                  ⊎ (some_and (λ b. KeySet.member b matched) item.eligibility_basis_id ≡ true))
              × (evaluated d facts s item ≡ ok t))
    unfolding select_step
    select_step-cases s item t h = ground arith

    select_step-Grows :
        (s : StepSelection) (item : StepSnapshot) (t : StepSelection)
        → select_step d known matched resolved facts s item ≡ ok t
        → Grows (IsJustified facts d matched item) s.items t.items
    select_step-Grows s item t h = elim (select_step-cases s item t h) [
      | inl same ↦ inl same
      | inr (inside, inl (known_scope, other), e) ↦
          Grows-weaken
            (λ p (w, a).
              justified item p inside w a (inl (procedure_scope item.scope known_scope other)))
            (evaluated-Grows facts s t item e)
      | inr (inside, inr unlocked, e) ↦
          Grows-weaken (λ p (w, a). justified item p inside w a (inr unlocked))
            (evaluated-Grows facts s t item e)
    ]

-- Every Step of a plan comes from an authored Step of the version that is in effect at the date, whose
-- rule is absent or TRUE, that is asserted as current and has supporting sources, which are the
-- sources shown; a Step of an eligibility basis belongs to a matched basis.
pub select_steps-IsJustified :
    (version : ProcedureVersionSnapshot) (facts : PreparedFacts) (d : Date)
    (matched : Option KeySet) (r : StepSelection)
    → select_steps version facts d matched ≡ ok r
    → All
        (λ p.
          (item : StepSnapshot) × In item version.steps
          × IsJustified facts d (matched_or_none matched) item p)
        r.items
unfolding select_steps
select_steps-IsJustified version facts d matched r h =
    All-map (λ p (x, m, j). (x, sort-In step_before version.steps x m, j)) r.items
      (fold-From (λ s. s.items) (IsJustified facts d (matched_or_none matched)) _
        (sort step_before version.steps) _ r
        (select_step-Grows d _ (matched_or_none matched) _ facts) h refl)
