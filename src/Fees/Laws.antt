-- ===== src/Fees/Laws.antt =====
-- Why a fee is in a plan, and when its amount is shown.
use bardi.Prelude.{
  ◌≡◌, refl, sym, subst, String, ◌⊎◌, inl, inr, Bool, true, false, Option, none, some, List, [],
  ◌∷◌, some_and, In, All, sort, sort-In, str_eq, one_of, Bool-cases, ok, >>=-eq-ok, ok-injective,
  arith, if◌then◌else◌,
}
use bardi.KeySet
use bardi.KeySet.{KeySet}
use bardi.Calendar.{Date}
use bardi.Facts.{PreparedFacts}
use bardi.Evaluator.{TruthValue, is_true, is_false, is_unknown, Evaluation}
use bardi.Trust.{assert_current, Freshness}
use bardi.Catalog.{ProcedureVersionSnapshot, FeeSnapshot}
use bardi.Public.{PublicFee, PublicSource}
use bardi.Provenance.{is_assert_current, supporting_sources}
use bardi.Items.{
  outside_interval, evaluate_optional, Applies, Grows, Grows-weaken, All-map, fold-From,
  evaluate_optional-none, is_assert_current_eq, procedure_scope,
}
use bardi.Steps.{matched_or_none}
use bardi.Fees.{
  FeeSelection, assess_fee, without_value, with_value, asserted_value, public_fee, selected,
  by_value, applied, evaluated, select_fee, fee_before, select_fees, is_context_only,
}

-- The amounts are shown, and the fee is asserted and supported by the sources shown.
abbrev pub IsSupported : Date → FeeSnapshot → PublicFee → Type 0
IsSupported d item p =
    (p.current_value_unknown ≡ false)
    × ((assess_fee d item).disposition ≡ assert_current)
    × (one_of item.value_state ("known" ∷ "range" ∷ []) ≡ true)
    × (supporting_sources d false item.evidence_links ≡ some p.sources)
    × (p.value_state ≡ item.value_state)
    × (p.amount ≡ item.amount)
    × (p.minimum_amount ≡ item.minimum_amount)
    × (p.maximum_amount ≡ item.maximum_amount)

-- The fee says that its value is unknown and shows no amount.
abbrev pub IsHidden : PublicFee → Type 0
IsHidden p =
    (p.current_value_unknown ≡ true)
    × (p.amount ≡ none)
    × (p.minimum_amount ≡ none)
    × (p.maximum_amount ≡ none)

asserted_value-shows :
    (d : Date) (item : FeeSnapshot) (freshness : Freshness) (sources : Option (List PublicSource))
    → (assess_fee d item).disposition ≡ assert_current
    → one_of item.value_state ("known" ∷ "range" ∷ []) ≡ true
    → supporting_sources d false item.evidence_links ≡ sources
    → let p = asserted_value item freshness sources in IsSupported d item p ⊎ IsHidden p
unfolding asserted_value with_value without_value
asserted_value-shows d item freshness none a k e = inr (refl, refl, refl, refl)
asserted_value-shows d item freshness (some sources) a k e =
    inl (refl, a, k, e, refl, refl, refl, refl)

public_fee-cases :
    (d : Date) (item : FeeSnapshot)
    → ((is_assert_current (assess_fee d item).disposition ≡ true)
        × (one_of item.value_state ("known" ∷ "range" ∷ []) ≡ true)
        × (public_fee d item
            ≡ asserted_value item
                (assess_fee d item).freshness
                (supporting_sources d false item.evidence_links)))
      ⊎ ((shown : String) × (public_fee d item
            ≡ without_value item shown (assess_fee d item).freshness))
unfolding public_fee
public_fee-cases d item = elim (Bool-cases (is_assert_current (assess_fee d item).disposition)) [
  | inr e ↦ inr ((if str_eq item.value_state "unknown" then "unknown" else "unverified"), rw e refl)
  | inl e ↦ elim (Bool-cases (one_of item.value_state ("known" ∷ "range" ∷ []))) [
    | inr k ↦ inr (item.value_state, rw (e, k) refl)
    | inl k ↦ inl (e, k, rw (e, k) refl)
  ]
]

-- The public form of a fee either shows the authored amounts, and then the fee is asserted as
-- current, its value is a known one or a range and the sources shown support it, or it says that
-- the current value is unknown and shows no amount at all.
pub public_fee-shows :
    (d : Date) (item : FeeSnapshot)
    → IsSupported d item (public_fee d item) ⊎ IsHidden (public_fee d item)
unfolding without_value
public_fee-shows d item = elim (public_fee-cases d item) [
  | inl (a, k, e) ↦
      subst (λ p. IsSupported d item p ⊎ IsHidden p) (sym e)
        (asserted_value-shows d item (assess_fee d item).freshness
          (supporting_sources d false item.evidence_links) (is_assert_current_eq _ a) k refl)
  | inr (shown, e) ↦
      subst (λ p. IsSupported d item p ⊎ IsHidden p) (sym e) (inr (refl, refl, refl, refl))
]

-- Why the authored fee stands in the plan in this public form.
pub record IsJustified (facts : PreparedFacts) (d : Date) (matched : KeySet) (item : FeeSnapshot)
    (p : PublicFee) : Type 0 where
  pub projected : p ≡ public_fee d item
  pub in_effect : outside_interval item.effective_from item.effective_to d ≡ false
  pub applies : Applies facts item.applicability
  pub relevant : is_context_only (assess_fee d item).disposition ≡ false
  pub unlocked :
      (item.scope ≡ "procedure")
      ⊎ (some_and (λ b. KeySet.member b matched) item.eligibility_basis_id ≡ true)

module _ (d : Date) where
  by_value-Grows :
      (s : FeeSelection) (item : FeeSnapshot) (missing : KeySet) (v : TruthValue)
      → Grows
          (λ p. (p ≡ public_fee d item) × (v ≡ is_true))
          s.items
          (by_value d s item missing v).items
  unfolding by_value selected
  by_value-Grows s item missing is_true = inr (_, (refl, refl), refl)
  by_value-Grows s item missing is_false = inl refl
  by_value-Grows s item missing is_unknown = inl (ground arith)

  applied-Grows :
      (facts : PreparedFacts) (s : FeeSelection) (item : FeeSnapshot) (e : Option Evaluation)
      → evaluate_optional item.applicability facts ≡ ok e
      → Grows
          (λ p. (p ≡ public_fee d item) × Applies facts item.applicability)
          s.items
          (applied d s item e).items
  unfolding applied selected
  applied-Grows facts s item none h = inr (_, (refl, inl (evaluate_optional-none _ facts h)), refl)
  applied-Grows facts s item (some e) h =
      Grows-weaken (λ p (w, v). (w, inr (e, h, v))) (by_value-Grows s item e.missing_facts e.value)

  evaluated-Grows :
      (facts : PreparedFacts) (s t : FeeSelection) (item : FeeSnapshot)
      → evaluated d facts s item ≡ ok t
      → Grows (λ p. (p ≡ public_fee d item) × Applies facts item.applicability) s.items t.items
  unfolding evaluated
  evaluated-Grows facts s t item h =
      let (e, q, r) = >>=-eq-ok (evaluate_optional item.applicability facts) _ h in
      subst
        (λ x.
          Grows (λ p. (p ≡ public_fee d item) × Applies facts item.applicability) s.items x.items)
        (ok-injective r) (applied-Grows facts s item e q)

  module _ (known matched : KeySet) (resolved : Bool) (facts : PreparedFacts) where
    -- A round keeps the fees, or evaluates the rule of a fee that is in effect and unlocked.
    select_fee-cases :
        (s : FeeSelection) (item : FeeSnapshot) (t : FeeSelection)
        → select_fee d known matched resolved facts s item ≡ ok t
        → (t.items ≡ s.items)
          ⊎ ((outside_interval item.effective_from item.effective_to d ≡ false)
              × (is_context_only (assess_fee d item).disposition ≡ false)
              × (((one_of item.scope ("procedure" ∷ "eligibility_basis" ∷ []) ≡ true)
                    × (str_eq item.scope "eligibility_basis" ≡ false))
                  ⊎ (some_and (λ b. KeySet.member b matched) item.eligibility_basis_id ≡ true))
              × (evaluated d facts s item ≡ ok t))
    unfolding select_fee
    select_fee-cases s item t h = ground arith

    justified :
        (item : FeeSnapshot) (p : PublicFee)
        → outside_interval item.effective_from item.effective_to d ≡ false
        → is_context_only (assess_fee d item).disposition ≡ false
        → (p ≡ public_fee d item) × Applies facts item.applicability
        → (item.scope ≡ "procedure")
          ⊎ (some_and (λ b. KeySet.member b matched) item.eligibility_basis_id ≡ true)
        → IsJustified facts d matched item p
    justified item p inside relevant (projected, applies) unlocked = record {
      projected = projected;
      in_effect = inside;
      applies = applies;
      relevant = relevant;
      unlocked = unlocked;
    }

    select_fee-Grows :
        (s : FeeSelection) (item : FeeSnapshot) (t : FeeSelection)
        → select_fee d known matched resolved facts s item ≡ ok t
        → Grows (IsJustified facts d matched item) s.items t.items
    select_fee-Grows s item t h = elim (select_fee-cases s item t h) [
      | inl same ↦ inl same
      | inr (inside, relevant, inl (known_scope, other), e) ↦
          Grows-weaken
            (λ p w.
              justified item p inside relevant w
                (inl (procedure_scope item.scope known_scope other)))
            (evaluated-Grows facts s t item e)
      | inr (inside, relevant, inr unlocked, e) ↦
          Grows-weaken (λ p w. justified item p inside relevant w (inr unlocked))
            (evaluated-Grows facts s t item e)
    ]

-- Every fee of a plan is the public form of an authored fee of the version that is in effect at the
-- date, whose rule is absent or TRUE and whose trust is not that of mere context; a fee of an
-- eligibility basis belongs to a matched basis.
pub select_fees-IsJustified :
    (version : ProcedureVersionSnapshot) (facts : PreparedFacts) (d : Date)
    (matched : Option KeySet) (r : FeeSelection)
    → select_fees version facts d matched ≡ ok r
    → All
        (λ p.
          (item : FeeSnapshot) × In item version.fees
          × IsJustified facts d (matched_or_none matched) item p)
        r.items
unfolding select_fees
select_fees-IsJustified version facts d matched r h =
    All-map (λ p (x, m, j). (x, sort-In fee_before version.fees x m, j)) r.items
      (fold-From (λ s. s.items) (IsJustified facts d (matched_or_none matched)) _
        (sort fee_before version.fees) _ r (select_fee-Grows d _ (matched_or_none matched) _ facts)
        h refl)
