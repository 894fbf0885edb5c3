-- ===== src/Checklists/Laws.antt =====
-- Why an item is in a checklist.
use bardi.Prelude.{
  ◌≡◌, refl, subst, ◌⊎◌, inl, inr, true, false, Option, none, some, List, [], ◌∷◌, In, All, sort,
  Bool, sort-In, str_eq, one_of, Bool-cases, some_not_none, ok, >>=-eq-ok, ok-injective, arith,
}
use bardi.KeySet
use bardi.KeySet.{KeySet}
use bardi.Calendar.{Date}
use bardi.Facts.{PreparedFacts}
use bardi.Evaluator.{TruthValue, is_true, is_false, is_unknown, Evaluation}
use bardi.Trust.{assert_current}
use bardi.Catalog.{ProcedureVersionSnapshot, ChecklistItemSnapshot}
use bardi.Public.{PublicChecklistItem, PublicSource}
use bardi.Provenance.{is_assert_current, supporting_sources}
use bardi.Items.{
  outside_interval, evaluate_optional, Applies, Grows, Grows-weaken, All-map, fold-From,
  evaluate_optional-none, is_assert_current_eq, procedure_scope,
}
use bardi.Steps.{matched_or_none}
use bardi.Checklists.{
  ChecklistSelection, assess_item, is_official, public_item, unverified, with_sources, trusted,
  by_value, applied, evaluated, select_item, item_before, select_checklist_items,
}

-- Why the authored item stands in the checklist in this public form.
pub record IsJustified (facts : PreparedFacts) (d : Date) (matched : KeySet)
    (item : ChecklistItemSnapshot) (p : PublicChecklistItem) : Type 0 where
  pub projected : p ≡ public_item d item p.sources
  pub in_effect : outside_interval item.effective_from item.effective_to d ≡ false
  pub applies : Applies facts item.applicability
  pub asserted : (assess_item d item).disposition ≡ assert_current
  pub supported : supporting_sources d (is_official item) item.evidence_links ≡ some p.sources
  pub unlocked : (item.scope ≡ "procedure") ⊎ (KeySet.member item.scope_reference matched ≡ true)

module _ (d : Date) where
  -- what the last stages establish
  abbrev Verified : ChecklistItemSnapshot → PublicChecklistItem → Type 0
  Verified item p =
      (p ≡ public_item d item p.sources)
      × ((assess_item d item).disposition ≡ assert_current)
      × (supporting_sources d (is_official item) item.evidence_links ≡ some p.sources)

  with_sources-Grows :
      (s : ChecklistSelection) (item : ChecklistItemSnapshot) (pending : Option KeySet)
      (sources : Option (List PublicSource))
      → (assess_item d item).disposition ≡ assert_current
      → supporting_sources d (is_official item) item.evidence_links ≡ sources
      → Grows
          (λ p. Verified item p × (pending ≡ none))
          s.items
          (with_sources d s item pending sources).items
  unfolding with_sources unverified public_item
  with_sources-Grows s item pending none a e = inl refl
  with_sources-Grows s item (some missing) (some sources) a e = inl refl
  with_sources-Grows s item none (some sources) a e =
      inr (public_item d item sources, ((refl, a, e), refl), refl)

  trusted-Grows :
      (s : ChecklistSelection) (item : ChecklistItemSnapshot) (pending : Option KeySet)
      → Grows (λ p. Verified item p × (pending ≡ none)) s.items (trusted d s item pending).items
  unfolding trusted unverified
  trusted-Grows s item pending =
      elim (Bool-cases (is_assert_current (assess_item d item).disposition)) [
        | inr e ↦ rw e (inl refl)
        | inl e ↦ rw e (
            with_sources-Grows s item pending
              (supporting_sources d (is_official item) item.evidence_links)
              (is_assert_current_eq _ e) refl)
      ]

  by_value-cases :
      (s : ChecklistSelection) (item : ChecklistItemSnapshot) (missing : KeySet)
      → ((by_value d s item missing is_unknown).items ≡ s.items)
        ⊎ ((by_value d s item missing is_unknown).items ≡ (trusted d s item (some missing)).items)
  unfolding by_value
  by_value-cases s item missing = ground arith

  by_value-Grows :
      (s : ChecklistSelection) (item : ChecklistItemSnapshot) (missing : KeySet) (v : TruthValue)
      → Grows (λ p. Verified item p × (v ≡ is_true)) s.items (by_value d s item missing v).items
  unfolding by_value
  by_value-Grows s item missing is_true =
      Grows-weaken (λ p (w, _). (w, refl)) (trusted-Grows s item none)
  by_value-Grows s item missing is_false = inl refl
  by_value-Grows s item missing is_unknown = elim (by_value-cases s item missing) [
    | inl e ↦ inl e
    | inr e ↦
        rw e (
          Grows-weaken (λ p (_, n). absurd (some_not_none n)) (trusted-Grows s item (some missing)))
  ]

  applied-Grows :
      (facts : PreparedFacts) (s : ChecklistSelection) (item : ChecklistItemSnapshot)
      (e : Option Evaluation)
      → evaluate_optional item.applicability facts ≡ ok e
      → Grows
          (λ p. Verified item p × Applies facts item.applicability)
          s.items
          (applied d s item e).items
  unfolding applied
  applied-Grows facts s item none h =
      Grows-weaken (λ p (w, _). (w, inl (evaluate_optional-none _ facts h)))
        (trusted-Grows s item none)
  applied-Grows facts s item (some e) h =
      Grows-weaken (λ p (w, v). (w, inr (e, h, v))) (by_value-Grows s item e.missing_facts e.value)

  -- What holds of an item that `evaluated` adds.
  abbrev Evaluated : PreparedFacts → ChecklistItemSnapshot → PublicChecklistItem → Type 0
  Evaluated facts item p =
      (outside_interval item.effective_from item.effective_to d ≡ false)
      × Verified item p
      × Applies facts item.applicability

  evaluated-Grows :
      (facts : PreparedFacts) (s t : ChecklistSelection) (item : ChecklistItemSnapshot)
      → evaluated d facts s item ≡ ok t
      → Grows (Evaluated facts item) s.items t.items
  unfolding evaluated
  evaluated-Grows facts s t item h =
      elim (Bool-cases (outside_interval item.effective_from item.effective_to d)) [
        | inl e ↦
            let same : ok s ≡ ok t = rw e at h in
            subst (λ x. Grows (Evaluated facts item) s.items x.items) (ok-injective same) (inl refl)
        | inr e ↦
            let (v, q, r) =
              >>=-eq-ok (evaluate_optional item.applicability facts) (λ e. ok (applied d s item e))
                (rw e at h) in
            subst (λ x. Grows (Evaluated facts item) s.items x.items) (ok-injective r)
              (Grows-weaken (λ p (w, a). (e, w, a)) (applied-Grows facts s item v q))
      ]

  module _ (known matched : KeySet) (resolved : Bool) (facts : PreparedFacts) where
    -- A round keeps the items, or evaluates the rule of an unlocked item.
    select_item-cases :
        (s : ChecklistSelection) (item : ChecklistItemSnapshot) (t : ChecklistSelection)
        → select_item d known matched resolved facts s item ≡ ok t
        → (t.items ≡ s.items)
          ⊎ ((((one_of item.scope ("procedure" ∷ "eligibility_basis" ∷ []) ≡ true)
                  × (str_eq item.scope "eligibility_basis" ≡ false))
                ⊎ (KeySet.member item.scope_reference matched ≡ true))
              × (evaluated d facts s item ≡ ok t))
    unfolding select_item
    select_item-cases s item t h = ground arith

    justified :
        (item : ChecklistItemSnapshot) (p : PublicChecklistItem)
        → Evaluated facts item p
        → (item.scope ≡ "procedure") ⊎ (KeySet.member item.scope_reference matched ≡ true)
        → IsJustified facts d matched item p
    justified item p (inside, (projected, asserted, supported), applies) unlocked = record {
      projected = projected;
      in_effect = inside;
      applies = applies;
      asserted = asserted;
      supported = supported;
      unlocked = unlocked;
    }

    select_item-Grows :
        (s : ChecklistSelection) (item : ChecklistItemSnapshot) (t : ChecklistSelection)
        → select_item d known matched resolved facts s item ≡ ok t
        → Grows (IsJustified facts d matched item) s.items t.items
    select_item-Grows s item t h = elim (select_item-cases s item t h) [
      | inl same ↦ inl same
      | inr (inl (known_scope, other), e) ↦
          Grows-weaken
            (λ p w. justified item p w (inl (procedure_scope item.scope known_scope other)))
            (evaluated-Grows facts s t item e)
      | inr (inr unlocked, e) ↦
          Grows-weaken (λ p w. justified item p w (inr unlocked)) (evaluated-Grows facts s t item e)
    ]

-- Every item of a checklist comes from an authored item of the version that is in effect at the
-- date, whose rule is absent or TRUE, that is asserted as current and has supporting sources (an
-- official requirement: sources that are all official), which are the sources shown; an item of an
-- eligibility basis belongs to a matched basis.
pub select_checklist_items-IsJustified :
    (version : ProcedureVersionSnapshot) (facts : PreparedFacts) (d : Date)
    (matched : Option KeySet) (r : ChecklistSelection)
    → select_checklist_items version facts d matched ≡ ok r
    → All
        (λ p.
          (item : ChecklistItemSnapshot) × In item version.checklist_items
          × IsJustified facts d (matched_or_none matched) item p)
        r.items
unfolding select_checklist_items
select_checklist_items-IsJustified version facts d matched r h =
    All-map (λ p (x, m, j). (x, sort-In item_before version.checklist_items x m, j)) r.items
      (fold-From (λ s. s.items) (IsJustified facts d (matched_or_none matched)) _
        (sort item_before version.checklist_items) _ r
        (select_item-Grows d _ (matched_or_none matched) _ facts) h refl)
