-- ===== src/Selection/Laws.antt =====
-- When a Procedure is selected.
use bardi.Prelude.{find}
use bardi.Prelude.{
  ◌≡◌, refl, sym, subst, ap, ◌∙◌, ◌⊎◌, inl, inr, String, Bool, true, false, not, Option, none, some,
  List, [], ◌∷◌, map, any, filter, In, find-In, any-In, In-filter, filter-In, In-map, map-In,
  traverse-result, traverse-element, sort-In, In-sort, str_eq, eq_iff, ok, >>=-eq-ok, ok-injective,
  if-cases, not_false, arith,
}
use bardi.Facts.{PreparedFacts}
use bardi.Evaluator.{TruthValue, is_true, is_false, is_unknown, truth_eq, Evaluation, evaluate}
use bardi.Catalog.{KnowledgeSnapshot, ServiceSnapshot, ProcedureCandidateSnapshot}
use bardi.Selection.{
  CandidateEvaluation, procedure_selected, evaluate_candidate, evaluate_candidates, is_matching,
  is_undecided, conclude, select_from, select_found, select_procedure,
}

-- The candidate's predicate has this value in the case.
abbrev pub HasValue : PreparedFacts → TruthValue → ProcedureCandidateSnapshot → Type 0
HasValue facts v candidate =
    (e : Evaluation) × (evaluate candidate.selection_predicate facts.values facts.submitted_keys
      ≡ ok e)
    × (e.value ≡ v)

-- What a selected Procedure says of the service's candidates.
pub record IsTheOneMatch (facts : PreparedFacts) (service : ServiceSnapshot) (procedure : String)
    : Type 0 where
  pub is_candidate :
      (c : ProcedureCandidateSnapshot) × In c service.candidates
      × (c.procedure_semantic_id ≡ procedure)
      × HasValue facts is_true c
  pub others :
      (c : ProcedureCandidateSnapshot)
      → In c service.candidates
      → (HasValue facts is_true c × (c.procedure_semantic_id ≡ procedure))
        ⊎ HasValue facts is_false c

truth_eq-true : (v : TruthValue) → truth_eq v is_true ≡ true → v ≡ is_true
truth_eq-true v h = ground arith

only_one : (a b : String) → In a (b ∷ []) → a ≡ b
only_one a b (inl e) = sym e
only_one a b (inr m) = elim m [ ]

decided : (v : TruthValue) → truth_eq v is_unknown ≡ false → (v ≡ is_true) ⊎ (v ≡ is_false)
decided v h = ground arith

module _ (snapshot : KnowledgeSnapshot) (facts : PreparedFacts) where
  conclude_selected :
      (service : ServiceSnapshot) (es fs : List CandidateEvaluation) (unknown : Bool)
      (ids : List String) (procedure : String)
      → conclude snapshot facts service es unknown ids ≡ ok (procedure_selected procedure fs)
      → (unknown ≡ false) × (ids ≡ procedure ∷ []) × (es ≡ fs)
  unfolding conclude
  conclude_selected service es fs unknown [] procedure h = ground arith
  conclude_selected service es fs unknown (id ∷ []) procedure h = ground arith
  conclude_selected service es fs unknown (id ∷ other ∷ more) procedure h = cc

  -- The evaluated candidates, with their evaluations.
  candidate_of :
      (service : ServiceSnapshot) (es : List CandidateEvaluation) (e : CandidateEvaluation)
      → evaluate_candidates facts service ≡ ok es
      → In e es
      → (c : ProcedureCandidateSnapshot) × In c service.candidates
        × (c.procedure_semantic_id ≡ e.candidate_semantic_id)
        × HasValue facts e.evaluation.value c
  unfolding evaluate_candidates
  candidate_of service es e h m =
      let (c, i, r) = traverse-element (evaluate_candidate facts) _ es e h m in
      let (v, d, q) =
        >>=-eq-ok (evaluate c.selection_predicate facts.values facts.submitted_keys) _ r in
      let same = ok-injective q in
      (
        c,
        sort-In _ service.candidates c i,
        ap (λ x. x.candidate_semantic_id) same,
        (v, d, ap (λ x. x.evaluation.value) same),
      )

  evaluation_of :
      (service : ServiceSnapshot) (es : List CandidateEvaluation) (c : ProcedureCandidateSnapshot)
      → evaluate_candidates facts service ≡ ok es
      → In c service.candidates
      → (e : CandidateEvaluation) × In e es
        × (c.procedure_semantic_id ≡ e.candidate_semantic_id)
        × HasValue facts e.evaluation.value c
  unfolding evaluate_candidates
  evaluation_of service es c h m =
      let (e, i, r) =
        traverse-result (evaluate_candidate facts) _ es c h (In-sort _ service.candidates c m) in
      let (v, d, q) =
        >>=-eq-ok (evaluate c.selection_predicate facts.values facts.submitted_keys) _ r in
      let same = ok-injective q in
      (e, i, ap (λ x. x.candidate_semantic_id) same, (v, d, ap (λ x. x.evaluation.value) same))

  the_one_match :
      (service : ServiceSnapshot) (es : List CandidateEvaluation) (procedure : String)
      → evaluate_candidates facts service ≡ ok es
      → any is_undecided es ≡ false
      → map (λ e. e.candidate_semantic_id) (filter is_matching es) ≡ procedure ∷ []
      → IsTheOneMatch facts service procedure
  the_one_match service es procedure h known one = record {
    is_candidate = is_candidate;
    others = others;
  }
    where
      id_of : CandidateEvaluation → String
      id_of e = e.candidate_semantic_id

      is_candidate :
          (c : ProcedureCandidateSnapshot) × In c service.candidates
          × (c.procedure_semantic_id ≡ procedure)
          × HasValue facts is_true c
      is_candidate =
          let (e, m, q) =
            map-In id_of (filter is_matching es) procedure
              (subst (In procedure) (sym one) (inl refl)) in
          let (n, matched) = filter-In is_matching es e m in
          let (c, i, r, v) = candidate_of service es e h n in
          (c, i, r ∙ q, subst (λ x. HasValue facts x c) (truth_eq-true _ matched) v)

      others :
          (c : ProcedureCandidateSnapshot)
          → In c service.candidates
          → (HasValue facts is_true c × (c.procedure_semantic_id ≡ procedure))
            ⊎ HasValue facts is_false c
      others c i =
          let (e, m, r, v) = evaluation_of service es c h i in
          elim (decided e.evaluation.value (any-In is_undecided es e known m)) [
            | inl t ↦ inl (
              subst (λ x. HasValue facts x c) t v,
              r
                  ∙ only_one _ _ (
                      subst (In (id_of e)) one (
                        In-map id_of (filter is_matching es) e
                          (In-filter is_matching es e m (rw t)))),
            )
            | inr f ↦ inr (subst (λ x. HasValue facts x c) f v)
          ]

  select_from_selected :
      (service : ServiceSnapshot) (procedure : String) (es : List CandidateEvaluation)
      → select_from snapshot facts service ≡ ok (procedure_selected procedure es)
      → (service.is_active ≡ true) × IsTheOneMatch facts service procedure
  unfolding select_from
  select_from_selected service procedure es h = elim (if-cases (not service.is_active) _ _ h) [
    | inl (inactive, q) ↦ cc q
    | inr (active, q) ↦
        let (fs, e, r) = >>=-eq-ok (evaluate_candidates facts service) _ q in
        let (known, one, _) = conclude_selected service fs es _ _ procedure r in
        (not_false _ active, the_one_match service fs procedure e known one)
  ]

  select_found_selected :
      (found : Option ServiceSnapshot) (procedure : String) (es : List CandidateEvaluation)
      → select_found snapshot facts found ≡ ok (procedure_selected procedure es)
      → (service : ServiceSnapshot) × (found ≡ some service)
        × (service.is_active ≡ true)
        × IsTheOneMatch facts service procedure
  unfolding select_found
  select_found_selected none procedure es h = cc
  select_found_selected (some service) procedure es h =
      let (active, one) = select_from_selected service procedure es h in
      (service, refl, active, one)

-- the Service that selection finds
pub select_procedure-found :
    (snapshot : KnowledgeSnapshot) (facts : PreparedFacts) (id procedure : String)
    (es : List CandidateEvaluation)
    → select_procedure snapshot facts id ≡ ok (procedure_selected procedure es)
    → (service : ServiceSnapshot) × (find (λ s. str_eq s.semantic_id id) snapshot.services
        ≡ some service)
      × (service.is_active ≡ true)
      × IsTheOneMatch facts service procedure
unfolding select_procedure
select_procedure-found snapshot facts id procedure es h =
    select_found_selected snapshot facts _ procedure es h

-- Where selection returns a Procedure, the requested Service is in the snapshot and active; the
-- Procedure is one of its candidates and its predicate is TRUE; every other candidate's predicate is
-- FALSE, so no candidate is undecided and no other Procedure matches.
pub select_procedure-selected :
    (snapshot : KnowledgeSnapshot) (facts : PreparedFacts) (id procedure : String)
    (es : List CandidateEvaluation)
    → select_procedure snapshot facts id ≡ ok (procedure_selected procedure es)
    → (service : ServiceSnapshot) × In service snapshot.services
      × (service.semantic_id ≡ id)
      × (service.is_active ≡ true)
      × IsTheOneMatch facts service procedure
select_procedure-selected snapshot facts id procedure es h =
    let (service, found, active, one) = select_procedure-found snapshot facts id procedure es h in
    let (m, same) = find-In (λ s. str_eq s.semantic_id id) snapshot.services service found in
    (service, m, (eq_iff _ _).0 same, active, one)
