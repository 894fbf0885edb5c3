-- ===== src/Snapshot/Features/Routing.antt =====
-- Which evidence is adequate for routing, which rows pass validate_routing, and that the rules that
-- it hands on are well typed.
use bardi.Prelude.{eq_iff, one_of, sym, not, ◌||◌, any, str_eq, ◌∷◌, arith}
use bardi.Snapshot.{is_blank}
use bardi.Snapshot.Evidence.{EvidenceInfo, has_sources, lacks_source}
use bardi.Snapshot.Evidence.Adequacy.{is_sound_link, is_support, routing_evidence_is_adequate-all}
use bardi.Prelude.{
  ℕ, ◌≡◌, refl, ap, subst, ◌∙◌, String, Bool, true, false, ◌&&◌, Option, none, some, List, [],
  is_empty, is_some, all, eqb, Bool-cases, some_inj, inl, inr,
}
use bardi.Facts.{Definitions, ValidationDiagnostic}
use bardi.Rules.{Predicate}
use bardi.Rules.Typing.{is_well_typed}
use bardi.Rules.Validation.Typed.{validate_rule_v1-typed}
use bardi.Snapshot.{Library, loaded, Table}
use bardi.Snapshot.Evidence.{EvidenceIndex, links_of}
use bardi.Snapshot.Rows.{AssociationRow, MaterialRow}
use bardi.Snapshot.Claims.{owner_of}
use bardi.Snapshot.Features.{
  rule, is_routable, association_as, association_outcome, is_valid_material, material_outcome,
  validate_routing,
}
use bardi.Snapshot.Features.Bases.{decodes}
use bardi.Snapshot.Stages.{
  is_loaded, raise_failures-is_loaded, raise_failures-loaded, AllEntries, each_row-AllEntries,
  next_failures, after,
}

point_step :
    (ar en sufficient : Bool) (availability : String)
    → (not ar && (not en && (one_of availability ("available" ∷ "unknown" ∷ []) && sufficient))) ≡ (
        (not ar && not en)
        && ((str_eq availability "available" || str_eq availability "unknown") && sufficient))
point_step ar en sufficient availability = ground (
  arith,
  eq_iff "available" availability,
  eq_iff availability "available",
  eq_iff "unknown" availability,
  eq_iff availability "unknown",
)

module _ (library : Library) (definitions : Definitions) (evidence : EvidenceIndex) where
  -- Evidence that suffices: there are links, each with a source; and for a current row no link
  -- disqualifies it and some link supports it.
  abbrev pub is_sufficient : (verification_state : String) → List EvidenceInfo → Bool
  is_sufficient verification_state links =
      not (is_empty links)
      && (all has_sources links
          && (not (str_eq verification_state "current")
              || (all (is_sound_link library) links && any (is_support library) links)))

  -- An association whose rule decodes and whose evidence suffices.
  abbrev pub is_valid_association : AssociationRow → Bool
  is_valid_association row =
      decodes library definitions row.claim.applicability
      && is_sufficient row.claim.verification_state
          (links_of evidence "procedure_service_point_association" row.claim.id)

  -- A service point with both addresses, an availability that is known or stated as unknown, and
  -- evidence that suffices.
  abbrev pub is_valid_point : MaterialRow → Bool
  is_valid_point material =
      (not (is_blank library material.address_ar) && not (is_blank library material.address_en))
      && ((str_eq material.availability "available" || str_eq material.availability "unknown")
          && is_sufficient material.verification_state
              (links_of evidence "service_point_version" material.id))

  any_not : (links : List EvidenceInfo) → not (lacks_source links) ≡ all has_sources links
  unfolding lacks_source
  any_not [] = refl
  any_not (link ∷ links) = ground (arith, any_not links)

  is_routable-is_sufficient :
      (verification_state : String) (links : List EvidenceInfo)
      → is_routable library definitions evidence verification_state links
        ≡ is_sufficient verification_state links
  unfolding is_routable
  is_routable-is_sufficient verification_state links =
      ground (arith, any_not links, routing_evidence_is_adequate-all library links)

  is_valid_material-is_valid_point :
      (material : MaterialRow)
      → is_valid_material library definitions evidence material ≡ is_valid_point material
  unfolding is_valid_material
  is_valid_material-is_valid_point material =
      let links = links_of evidence "service_point_version" material.id in
      rw (is_routable-is_sufficient material.verification_state links) (
        point_step (is_blank library material.address_ar) (is_blank library material.address_en)
          (is_sufficient material.verification_state links) material.availability)

  association_as-reported :
      (owner : String) (id : ℕ) (routable : Bool) (diagnostics : List ValidationDiagnostic)
      (r : Option Predicate)
      → is_empty
          (association_as library definitions evidence owner id routable diagnostics r).reported
        ≡ (is_some r && routable)
  unfolding association_as
  association_as-reported owner id true diagnostics none = refl
  association_as-reported owner id true diagnostics (some p) = refl
  association_as-reported owner id false diagnostics none = refl
  association_as-reported owner id false diagnostics (some p) = refl

  association_as-entry :
      (owner : String) (id : ℕ) (routable : Bool) (diagnostics : List ValidationDiagnostic)
      (r : Option Predicate) (k : ℕ) (p : Predicate)
      → (association_as library definitions evidence owner id routable diagnostics r).entry
        ≡ some (k, p)
      → r ≡ some p
  unfolding association_as
  association_as-entry owner id true diagnostics (some q) k p h =
      ap some (ap (λ e. e.1) (some_inj h))
  association_as-entry owner id true diagnostics none k p h = cc
  association_as-entry owner id false diagnostics none k p h = cc
  association_as-entry owner id false diagnostics (some q) k p h = cc

  association_outcome-is_valid :
      (row : AssociationRow)
      → is_empty (association_outcome library definitions evidence row).reported
        ≡ is_valid_association row
  unfolding association_outcome
  association_outcome-is_valid row =
      let r = rule library definitions evidence row.claim.applicability in
      let links = links_of evidence "procedure_service_point_association" row.claim.id in
      association_as-reported (owner_of "service_point_association" row.claim) row.claim.id
        (is_routable library definitions evidence row.claim.verification_state links) r.diagnostics
        r.predicate
      ∙ ap (λ b. is_some r.predicate && b)
          (is_routable-is_sufficient row.claim.verification_state links)

  association_outcome-typed :
      (row : AssociationRow) (k : ℕ) (p : Predicate)
      → (association_outcome library definitions evidence row).entry ≡ some (k, p)
      → is_well_typed definitions p ≡ true
  unfolding association_outcome
  association_outcome-typed row k p h =
      let r = rule library definitions evidence row.claim.applicability in
      validate_rule_v1-typed library.dates row.claim.applicability definitions p (
        association_as-entry (owner_of "service_point_association" row.claim) row.claim.id
          (is_routable library definitions evidence row.claim.verification_state
            (links_of evidence "procedure_service_point_association" row.claim.id))
          r.diagnostics r.predicate k p h)

  material_outcome-is_valid :
      (row : MaterialRow)
      → is_empty (material_outcome library definitions evidence row).reported ≡ is_valid_point row
  unfolding material_outcome
  material_outcome-is_valid row =
      let same = is_valid_material-is_valid_point row in
      elim (Bool-cases (is_valid_material library definitions evidence row)) [
        | inl e ↦ rw e (sym e ∙ same)
        | inr e ↦ rw e (sym e ∙ same)
      ]

  -- The routing rows load exactly if every association has a rule that decodes and sufficient
  -- evidence, and every service point has both addresses, an availability of `available` or
  -- `unknown`, and sufficient evidence. Sufficient: there are links, all of them with a source; and
  -- if the row is current, some link supports it and no link disqualifies it (a text that is
  -- missing, an undated field report, a contradiction in effect).
  pub validate_routing-is_valid :
      (associations : List AssociationRow) (materials : List MaterialRow)
      → is_loaded (validate_routing library definitions evidence associations materials)
        ≡ (all is_valid_association associations && all is_valid_point materials)
  unfolding validate_routing
  validate_routing-is_valid associations materials =
      let f = association_outcome library definitions evidence in
      let g = material_outcome library definitions evidence in
      let first = next_failures eqb f [] associations in
      let first_pass = all is_valid_association associations in
      let first_silent : is_empty first ≡ first_pass =
        after eqb f [] true associations is_valid_association association_outcome-is_valid refl in
      raise_failures-is_loaded (next_failures eqb g first materials) _
      ∙ after eqb g first first_pass materials is_valid_point material_outcome-is_valid first_silent

  -- Every rule of the associations that load is well typed.
  pub validate_routing-typed :
      (associations : List AssociationRow) (materials : List MaterialRow) (t : Table ℕ Predicate)
      → validate_routing library definitions evidence associations materials ≡ loaded t
      → AllEntries (λ _ p. is_well_typed definitions p ≡ true) t
  unfolding validate_routing
  validate_routing-typed associations materials t h =
      let (_, e) = raise_failures-loaded _ _ t h in
      subst (AllEntries (λ _ p. is_well_typed definitions p ≡ true)) e (
        each_row-AllEntries eqb (association_outcome library definitions evidence) _ _ associations
          association_outcome-typed tt)
