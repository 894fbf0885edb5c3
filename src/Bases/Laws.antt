-- ===== src/Bases/Laws.antt =====
-- Why an eligibility basis unlocks what belongs to it.
use bardi.Prelude.{
  ◌≡◌, refl, sym, ◌∙◌, subst, inl, inr, String, true, false, List, [], ◌∷◌, In, sort, sort-In,
  str_eq, eq_iff, Bool-cases, ok, fold, >>=-eq-ok, ok-injective,
}
use bardi.KeySet
use bardi.KeySet.{KeySet}
use bardi.Calendar.{Date}
use bardi.Facts.{PreparedFacts}
use bardi.Trust.{assert_current}
use bardi.Catalog.{ProcedureVersionSnapshot, EligibilityBasisSnapshot}
use bardi.Items.{outside_interval, Applies}
use bardi.Bases.{
  EligibilityBasisSelection, Matching, start, assess_basis, select_basis, basis_before,
  select_eligibility_bases,
}
use bardi.Bases.Rounds.{IsSupported, Qualifies, select_basis-Step}

-- The id is that of an authored basis that holds in the case and may be relied on.
pub record IsTrusted (version : ProcedureVersionSnapshot) (facts : PreparedFacts) (d : Date)
    (id : String) : Type 0 where
  pub basis : EligibilityBasisSnapshot
  pub listed : In basis version.eligibility_bases
  pub named : basis.semantic_id ≡ id
  pub in_effect : outside_interval basis.effective_from basis.effective_to d ≡ false
  pub reachable : Applies facts basis.reachability
  pub qualifies : Qualifies facts basis
  pub asserted : (assess_basis d basis).disposition ≡ assert_current
  pub supported : IsSupported d basis

module _ (version : ProcedureVersionSnapshot) (facts : PreparedFacts) (d : Date) where
  abbrev AllTrusted : Matching → Type 0
  AllTrusted s = (id : String) → KeySet.member id s.trusted ≡ true → IsTrusted version facts d id

  Step-AllTrusted :
      (s t : Matching) (basis : EligibilityBasisSnapshot)
      → In basis version.eligibility_bases
      → AllTrusted s
      → select_basis d facts s basis ≡ ok t
      → AllTrusted t
  Step-AllTrusted s t basis listed old h id m = elim (select_basis-Step d basis facts s t h) [
    | inl same ↦ old id (subst (λ k. KeySet.member id k ≡ true) same m)
    | inr (longer, (((reliable, qualifies), reachable), inside)) ↦
        let added : KeySet.member id (KeySet.add basis.semantic_id s.trusted) ≡ true =
          subst (λ k. KeySet.member id k ≡ true) longer m in
        let either = sym (KeySet.member-add id basis.semantic_id s.trusted) ∙ added in
        elim (Bool-cases (str_eq basis.semantic_id id)) [
          | inr other ↦ old id (rw other at either)
          | inl same ↦ record {
            basis = basis;
            listed = listed;
            named = (eq_iff basis.semantic_id id).0 same;
            in_effect = inside;
            reachable = reachable;
            qualifies = qualifies;
            asserted = reliable.0;
            supported = reliable.1;
          }
        ]
  ]

  none_yet : AllTrusted start
  unfolding KeySet.member
  none_yet id m = cc

  fold-AllTrusted :
      (xs : List EligibilityBasisSnapshot) (s t : Matching)
      → ((x : EligibilityBasisSnapshot) → In x xs → In x version.eligibility_bases)
      → AllTrusted s
      → fold (select_basis d facts) s xs ≡ ok t
      → AllTrusted t
  unfolding fold
  fold-AllTrusted [] s t listed old h = subst AllTrusted (ok-injective h) old
  fold-AllTrusted (x ∷ xs) s t listed old h =
      let (u, once, rest) =
        >>=-eq-ok (select_basis d facts s x) (λ u. fold (select_basis d facts) u xs) h in
      fold-AllTrusted xs u t (λ y m. listed y (inr m))
        (Step-AllTrusted s u x (listed x (inl refl)) old once) rest

  -- Every id that the matching trusts is that of an authored basis of the version that is in effect
  -- at the date, reachable, qualified for, asserted as current and supported.
  pub select_eligibility_bases-IsTrusted :
      (s : EligibilityBasisSelection) (id : String)
      → select_eligibility_bases version facts d ≡ ok s
      → KeySet.member id s.trusted_matched_basis_ids ≡ true
      → IsTrusted version facts d id
  unfolding select_eligibility_bases
  select_eligibility_bases-IsTrusted s id h m =
      let (t, run, k) =
        >>=-eq-ok (fold (select_basis d facts) start (sort basis_before version.eligibility_bases))
          _ h in
      let all_trusted =
        fold-AllTrusted (sort basis_before version.eligibility_bases) start t
          (λ x n. sort-In basis_before version.eligibility_bases x n) none_yet run in
      all_trusted id
        (subst (λ r. KeySet.member id r.trusted_matched_basis_ids ≡ true) (sym (ok-injective k)) m)
