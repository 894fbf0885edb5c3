-- ===== src/Bases/Rounds.antt =====
-- What one round of the loop over the eligibility bases establishes of the basis that it trusts.
use bardi.Prelude.{
  ◌≡◌, refl, sym, ap, subst, ◌⊎◌, inl, inr, false, Option, none, some, List, if-cases, Bool-cases,
  ok, >>=-eq-ok, ok-injective, arith,
}
use bardi.KeySet
use bardi.KeySet.{KeySet}
use bardi.Calendar.{Date}
use bardi.Rules.{Predicate}
use bardi.Facts.{PreparedFacts}
use bardi.Evaluator.{TruthValue, is_true, is_false, is_unknown, Evaluation, evaluate}
use bardi.Trust.{assert_current}
use bardi.Catalog.{EligibilityBasisSnapshot}
use bardi.Public.{PublicSource}
use bardi.Provenance.{is_assert_current, supporting_sources}
use bardi.Items.{
  outside_interval, evaluate_optional, Applies, evaluate_optional-none, is_assert_current_eq,
}
use bardi.Bases.{
  Matching, assess_basis, undecided, supported, matched, qualified, qualify, reached, reach,
  with_qualification, select_basis,
}

-- Some sources support the basis at the date.
abbrev pub IsSupported : Date → EligibilityBasisSnapshot → Type 0
IsSupported d basis =
    (sources : List PublicSource) × (supporting_sources d false basis.evidence_links ≡ some sources)

-- The basis has a qualification, which is TRUE in the case.
abbrev pub Qualifies : PreparedFacts → EligibilityBasisSnapshot → Type 0
Qualifies facts basis =
    (qualification : Predicate) × (e : Evaluation) × (basis.qualification ≡ some qualification)
    × (evaluate qualification facts.values facts.submitted_keys ≡ ok e)
    × (e.value ≡ is_true)

-- A round keeps the trusted ids, or adds that of its basis for a reason.
abbrev pub Step : EligibilityBasisSnapshot → Type 0 → Matching → Matching → Type 0
Step basis Reason s t =
    (t.trusted ≡ s.trusted) ⊎ ((t.trusted ≡ KeySet.add basis.semantic_id s.trusted) × Reason)

Step-weaken :
    {A B : Type 0} (basis : EligibilityBasisSnapshot) (s t : Matching)
    → (A → B)
    → Step basis A s t
    → Step basis B s t
Step-weaken basis s t weaken (inl same) = inl same
Step-weaken basis s t weaken (inr (longer, a)) = inr (longer, weaken a)

module _ (d : Date) (basis : EligibilityBasisSnapshot) where
  abbrev pub Reliable : Type 0
  Reliable = ((assess_basis d basis).disposition ≡ assert_current) × IsSupported d basis

  supported-Step :
      (s : Matching) (sources : Option (List PublicSource))
      → supporting_sources d false basis.evidence_links ≡ sources
      → Step basis (IsSupported d basis) s (supported d s basis sources)
  unfolding supported
  supported-Step s none h = inl refl
  supported-Step s (some sources) h = inr (refl, (sources, h))

  matched-Step : (s : Matching) → Step basis Reliable s (matched d s basis)
  unfolding matched
  matched-Step s = elim (Bool-cases (is_assert_current (assess_basis d basis).disposition)) [
    | inr e ↦ rw e (inl refl)
    | inl e ↦
        let now = supporting_sources d false basis.evidence_links in
        rw e (
          Step-weaken basis s (supported d s basis now) (λ w. (is_assert_current_eq _ e, w))
            (supported-Step s now refl))
  ]

  undecided-Step :
      {A : Type 0} (s : Matching) (missing : KeySet) → Step basis A s (undecided d s basis missing)
  unfolding undecided
  undecided-Step s missing = inl (ground arith)

  qualified-Step :
      (s : Matching) (e : Evaluation) (v : TruthValue)
      → Step basis (Reliable × (v ≡ is_true)) s (qualified d s basis e v)
  unfolding qualified
  qualified-Step s e is_true =
      Step-weaken basis s (matched d s basis) (λ w. (w, refl)) (matched-Step s)
  qualified-Step s e is_false = inl refl
  qualified-Step s e is_unknown = undecided-Step s e.missing_facts

  module _ (facts : PreparedFacts) where
    abbrev pub Reason : Type 0
    Reason = Reliable × Qualifies facts basis

    qualify-Step :
        (s t : Matching) (qualification : Predicate)
        → basis.qualification ≡ some qualification
        → qualify d facts s basis qualification ≡ ok t
        → Step basis Reason s t
    unfolding qualify
    qualify-Step s t qualification authored h =
        let (e, run, r) =
          >>=-eq-ok (evaluate qualification facts.values facts.submitted_keys) _ h in
        subst (Step basis Reason s) (ok-injective r) (
          Step-weaken basis s (qualified d s basis e e.value)
            (λ (w, v). (w, (qualification, e, authored, run, v))) (qualified-Step s e e.value))

    reached-Step :
        (s t : Matching) (qualification : Predicate) (missing : KeySet) (v : TruthValue)
        → basis.qualification ≡ some qualification
        → reached d facts s basis qualification missing v ≡ ok t
        → Step basis (Reason × (v ≡ is_true)) s t
    unfolding reached
    reached-Step s t qualification missing is_true authored h =
        Step-weaken basis s t (λ w. (w, refl)) (qualify-Step s t qualification authored h)
    reached-Step s t qualification missing is_false authored h =
        inl (ap (λ x. x.trusted) (sym (ok-injective h)))
    reached-Step s t qualification missing is_unknown authored h =
        subst (Step basis _ s) (ok-injective h) (undecided-Step s missing)

    reach-Step :
        (s t : Matching) (qualification : Predicate) (e : Option Evaluation)
        → basis.qualification ≡ some qualification
        → evaluate_optional basis.reachability facts ≡ ok e
        → reach d facts s basis qualification e ≡ ok t
        → Step basis (Reason × Applies facts basis.reachability) s t
    unfolding reach
    reach-Step s t qualification none authored run h =
        Step-weaken basis s t (λ w. (w, inl (evaluate_optional-none basis.reachability facts run)))
          (qualify-Step s t qualification authored h)
    reach-Step s t qualification (some e) authored run h =
        Step-weaken basis s t (λ (w, v). (w, inr (e, run, v)))
          (reached-Step s t qualification e.missing_facts e.value authored h)

    with_qualification-Step :
        (s t : Matching) (qualification : Option Predicate)
        → basis.qualification ≡ qualification
        → with_qualification d facts s basis qualification ≡ ok t
        → Step basis (Reason × Applies facts basis.reachability) s t
    unfolding with_qualification
    with_qualification-Step s t none authored h = inl (ap (λ x. x.trusted) (sym (ok-injective h)))
    with_qualification-Step s t (some qualification) authored h =
        let (e, run, k) = >>=-eq-ok (evaluate_optional basis.reachability facts) _ h in
        reach-Step s t qualification e authored run k

    pub select_basis-Step :
        (s t : Matching)
        → select_basis d facts s basis ≡ ok t
        → Step basis
            ((Reason × Applies facts basis.reachability)
              × (outside_interval basis.effective_from basis.effective_to d ≡ false))
            s
            t
    unfolding select_basis
    select_basis-Step s t h =
        elim (if-cases (outside_interval basis.effective_from basis.effective_to d) (ok s)
          (with_qualification d facts s basis basis.qualification) h) [
            | inl (_, q) ↦ inl (ap (λ x. x.trusted) (sym (ok-injective q)))
            | inr (inside, q) ↦
                Step-weaken basis s t (λ w. (w, inside))
                  (with_qualification-Step s t basis.qualification refl q)
          ]
