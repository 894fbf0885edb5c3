-- ===== src/Snapshot/Features/Bases.antt =====
-- Which rows pass validate_bases, and that the rules that they hand on are well typed.
use bardi.Prelude.{
  ℕ, ◌≡◌, refl, subst, ap, inl, inr, String, Bool, true, not, ◌&&◌, ◌||◌, Option, some, List, [],
  ◌∷◌, is_empty, is_some, all, eqb, Bool-cases, some_inj,
}
use bardi.Facts.{Definitions, Object, PathSegment}
use bardi.Rules.{Predicate}
use bardi.Rules.Typing.{is_well_typed}
use bardi.Rules.Validation.{validate_rule_v1}
use bardi.Rules.Validation.Typed.{validate_rule_v1-typed}
use bardi.Snapshot.{Library, loaded, Table, is_omitted, failure}
use bardi.Snapshot.Evidence.{EvidenceIndex, links_of}
use bardi.Snapshot.Rows.{BasisRow, DecodedBasisRules}
use bardi.Snapshot.Features.{is_evidenced, basis_outcome, validate_bases}
use bardi.Snapshot.Stages.{is_loaded, AllEntries, each_row-is_loaded, each_row-loaded}
use bardi.Snapshot.Features.{basis_evidence, basis_qualification}
use bardi.Snapshot.Features.{basis_owner, rule}
use bardi.Snapshot.Features.Rulings.{
  optional_rule-reported, required_rule-reported, optional_rule-entry, required_rule-entry,
}

-- The validation of a stored rule returns a predicate.
abbrev pub decodes : Library → Definitions → Object → Bool
decodes library definitions raw = is_some (validate_rule_v1 library.dates raw definitions).predicate

-- A decoded rule that may be omitted is well typed.
abbrev pub OptionTyped : Definitions → Option Predicate → Type 0
OptionTyped definitions o = (p : Predicate) → o ≡ some p → is_well_typed definitions p ≡ true

module _ (library : Library) (definitions : Definitions) (evidence : EvidenceIndex) where
  typed_rule :
      (raw : Object) (p : Predicate)
      → (validate_rule_v1 library.dates raw definitions).predicate ≡ some p
      → is_well_typed definitions p ≡ true
  typed_rule raw p h = validate_rule_v1-typed library.dates raw definitions p h

  -- A basis whose reachability is omitted or decodes, whose qualification decodes, and that has its
  -- texts and its evidence.
  abbrev pub is_valid_basis : BasisRow → Bool
  is_valid_basis row =
      (is_omitted row.reachability || decodes library definitions row.reachability)
      && ((not (is_omitted row.qualification) && decodes library definitions row.qualification)
          && is_evidenced library row.text_ar row.text_en
              (links_of evidence "eligibility_basis" row.id))

  basis_evidence-reported :
      (owner : String) (row : BasisRow) (r : Option Predicate) (q : Predicate)
      → is_empty (basis_evidence library definitions evidence owner row r q).reported
        ≡ is_evidenced library row.text_ar row.text_en
            (links_of evidence "eligibility_basis" row.id)
  unfolding basis_evidence
  basis_evidence-reported owner row r q =
      let b =
        is_evidenced library row.text_ar row.text_en
          (links_of evidence "eligibility_basis" row.id) in
      elim (Bool-cases b) [ inl e ↦ rw e refl | inr e ↦ rw e refl ]

  basis_outcome-is_valid_basis :
      (row : BasisRow)
      → is_empty (basis_outcome library definitions evidence row).reported ≡ is_valid_basis row
  unfolding basis_outcome basis_qualification
  basis_outcome-is_valid_basis row =
      let owner = basis_owner row in
      let evidenced =
        is_evidenced library row.text_ar row.text_en
          (links_of evidence "eligibility_basis" row.id) in
      optional_rule-reported owner (is_omitted row.reachability)
        (rule library definitions evidence row.reachability)
        ((not (is_omitted row.qualification) && decodes library definitions row.qualification)
          && evidenced)
        (basis_qualification library definitions evidence owner row)
        (λ r.
          required_rule-reported owner (is_omitted row.qualification)
            (rule library definitions evidence row.qualification)
            (failure owner "missing_qualification" (PathSegment.name "qualification" ∷ []))
            evidenced (basis_evidence library definitions evidence owner row r)
            (basis_evidence-reported owner row r))

  -- Every rule of a decoded basis is well typed.
  abbrev pub BasisTyped : DecodedBasisRules → Type 0
  BasisTyped r =
      OptionTyped definitions r.reachability × (is_well_typed definitions r.qualification ≡ true)

  basis_evidence-entry :
      (owner : String) (row : BasisRow) (r : Option Predicate) (q : Predicate) (k : ℕ)
      (v : DecodedBasisRules)
      → (basis_evidence library definitions evidence owner row r q).entry ≡ some (k, v)
      → record { reachability = r; qualification = q } ≡ v
  unfolding basis_evidence
  basis_evidence-entry owner row r q k v h =
      let b =
        is_evidenced library row.text_ar row.text_en
          (links_of evidence "eligibility_basis" row.id) in
      elim (Bool-cases b) [
        | inl e ↦ ap (λ x. x.1) (some_inj (rw e at h))
        | inr e ↦ let no = rw e at h in cc
      ]

  basis_outcome-BasisTyped :
      (row : BasisRow) (k : ℕ) (v : DecodedBasisRules)
      → (basis_outcome library definitions evidence row).entry ≡ some (k, v)
      → BasisTyped v
  unfolding basis_outcome basis_qualification
  basis_outcome-BasisTyped row k v h =
      let owner = basis_owner row in
      let Typed : Predicate → Type 0 = λ p. is_well_typed definitions p ≡ true in
      let (r, typed, later) =
        optional_rule-entry owner (is_omitted row.reachability)
          (rule library definitions evidence row.reachability) Typed
          (basis_qualification library definitions evidence owner row) (k, v)
          (typed_rule row.reachability) h in
      let (q, ok, last) =
        required_rule-entry owner (is_omitted row.qualification)
          (rule library definitions evidence row.qualification) Typed
          (failure owner "missing_qualification" (PathSegment.name "qualification" ∷ []))
          (basis_evidence library definitions evidence owner row r) (k, v)
          (typed_rule row.qualification) later in
      subst BasisTyped (basis_evidence-entry owner row r q k v last) (typed, ok)

  -- The bases load exactly if each row is valid: its reachability is omitted or decodes, its
  -- qualification is present and decodes, and it has both texts and evidence, all of it with a source.
  pub validate_bases-is_valid_basis :
      (rows : List BasisRow)
      → is_loaded (validate_bases library definitions evidence rows) ≡ all is_valid_basis rows
  unfolding validate_bases
  validate_bases-is_valid_basis rows =
      each_row-is_loaded eqb (basis_outcome library definitions evidence) is_valid_basis rows
        basis_outcome-is_valid_basis

  -- Every rule of the bases that load is well typed.
  pub validate_bases-BasisTyped :
      (rows : List BasisRow) (t : Table ℕ DecodedBasisRules)
      → validate_bases library definitions evidence rows ≡ loaded t
      → AllEntries (λ _ v. BasisTyped v) t
  unfolding validate_bases
  validate_bases-BasisTyped rows t h =
      each_row-loaded eqb (basis_outcome library definitions evidence) (λ _ v. BasisTyped v) rows t
        basis_outcome-BasisTyped h
