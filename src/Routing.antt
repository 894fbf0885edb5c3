-- ===== src/Routing.antt =====
-- backend/planning/routing.py: the Service Points of a Procedure Version.
use bardi.Prelude.{
  Bool, true, false, not, ◌&&◌, ◌||◌, Option, none, some, List, [], ◌∷◌, ◌++◌, str_eq, str_lt,
  one_of, some_and, is_empty, is_some, sort, if◌then◌else◌, Result, ok, ◌>>=◌, fold,
}
use bardi.Dict
use bardi.Dict.{Dict}
use bardi.Calendar.{Date, date_lt}
use bardi.Facts.{PreparedFacts}
use bardi.Evaluator.{TruthValue, is_true, is_false, is_unknown, evaluate}
use bardi.Trust.{assess_trust}
use bardi.Provenance.{is_assert_current, public_source, supporting_sources}
use bardi.Catalog.{
  EvidenceLinkSnapshot, SourceSnapshot, KnowledgeSnapshot, ProcedureVersionSnapshot,
  ServicePointSnapshot, ServicePointVersionSnapshot, ProcedureServicePointAssociationSnapshot,
}
use bardi.Public.{
  PublicRouting, PublicServicePoint, PublicSource, resolved, partially_resolved, unresolved,
}

pub record Routed : Type 0 where
  pub destinations : List PublicServicePoint
  pub verification_sources : Dict PublicSource
  pub is_unresolved : Bool

-- The dict by semantic ID keeps the last entry of an ID.
pub last_such {ℓ} : {A : Type ℓ} → (A → Bool) → List A → Option A
last_such test [] = none
last_such test (x ∷ xs) =
    let later = last_such test xs in
    if is_some later then later else if test x then some x else none

-- The sources of `materials_sources` and then of the association, by ID; the later one stays.
put_public : Dict PublicSource → List PublicSource → Dict PublicSource
put_public sources [] = sources
put_public sources (s ∷ more) = put_public (Dict.put sources s.id s) more

is_later_than : Date → Option Date → Bool
is_later_than d date = some_and (λ from. date_lt d from) date

is_earlier_than : Date → Option Date → Bool
is_earlier_than d date = some_and (λ to. date_lt to d) date

module _ (d : Date) where
  add_sources : Dict PublicSource → List SourceSnapshot → Dict PublicSource
  unfolding is_later_than
  add_sources sources [] = sources
  add_sources sources (s ∷ more) =
      let kept =
        if date_lt d s.retrieved_on || is_later_than d s.effective_from
        then sources
        else Dict.put sources s.semantic_id (public_source s) in
      add_sources kept more

  add_verification_sources : Dict PublicSource → List EvidenceLinkSnapshot → Dict PublicSource
  unfolding is_later_than add_sources
  add_verification_sources sources [] = sources
  add_verification_sources sources (link ∷ links) =
      let kept =
        if not (str_eq link.support_status "supports")
          || (is_later_than d link.effective_from
              || (is_later_than d link.retrieved_on || is_later_than d link.verified_on))
        then sources
        else add_sources sources link.sources in
      add_verification_sources kept links

  -- `unresolved = True`, with the sources to verify it at.
  left_unresolved : Routed → List EvidenceLinkSnapshot → Routed
  unfolding add_verification_sources
  left_unresolved s links = record s {
    is_unresolved = true;
    verification_sources = add_verification_sources s.verification_sources links;
  }

  is_outside : Option Date → Option Date → Bool
  unfolding is_later_than is_earlier_than
  is_outside effective_from effective_to =
      is_later_than d effective_from || is_earlier_than d effective_to

  abbrev association_asserted : ProcedureServicePointAssociationSnapshot → Bool
  association_asserted a =
      is_assert_current
        (assess_trust d
          (record {
            verified_on = a.verified_on;
            reverify_on = a.reverify_on;
            effective_from = a.effective_from;
            effective_to = a.effective_to;
            retrieved_on = none;
          })
          a.verification_state).disposition

  abbrev material_asserted : ServicePointVersionSnapshot → Bool
  material_asserted m =
      is_assert_current
        (assess_trust d
          (record {
            verified_on = m.verified_on;
            reverify_on = m.reverify_on;
            effective_from = m.effective_from;
            effective_to = m.effective_to;
            retrieved_on = none;
          })
          m.verification_state).disposition

  destination :
      ServicePointSnapshot
      → ServicePointVersionSnapshot
      → ProcedureServicePointAssociationSnapshot
      → List PublicSource
      → List PublicSource
      → PublicServicePoint
  unfolding put_public
  destination point material association material_sources association_sources = record {
    service_point_id = point.semantic_id;
    service_point_version_id = material.semantic_id;
    association_id = association.semantic_id;
    name = point.text;
    address = material.address;
    availability = material.availability;
    effective_from = material.effective_from;
    effective_to = material.effective_to;
    sources = Dict.values (put_public (put_public [] material_sources) association_sources);
  }

  -- The three tests on the material, behind its dates.
  offered :
      Routed
      → ServicePointSnapshot
      → ServicePointVersionSnapshot
      → ProcedureServicePointAssociationSnapshot
      → List PublicSource
      → Option (List PublicSource)
      → Routed
  unfolding left_unresolved destination
  offered s point material association association_sources none =
      left_unresolved s material.evidence_links
  offered s point material association association_sources (some material_sources) =
      if not (material_asserted material)
        || not (one_of material.availability ("available" ∷ "unknown" ∷ []))
      then left_unresolved s material.evidence_links
      else record s {
        destinations =
            s.destinations
            ++ (destination point material association material_sources association_sources ∷ []);
      }

  at_material :
      Routed
      → ServicePointVersionSnapshot
      → ProcedureServicePointAssociationSnapshot
      → List PublicSource
      → Option ServicePointSnapshot
      → Routed
  unfolding left_unresolved is_outside offered
  at_material s material association association_sources none =
      left_unresolved s association.evidence_links
  at_material s material association association_sources (some point) =
      if is_outside material.effective_from material.effective_to
      then left_unresolved s (association.evidence_links ++ material.evidence_links)
      else offered s point material association association_sources
          (supporting_sources d false material.evidence_links)

  module _ (snapshot : KnowledgeSnapshot) where
    located :
        Routed
        → ProcedureServicePointAssociationSnapshot
        → List PublicSource
        → Option ServicePointVersionSnapshot
        → Routed
    unfolding left_unresolved at_material last_such
    located s association association_sources none = left_unresolved s association.evidence_links
    located s association association_sources (some material) =
        at_material s material association association_sources (
          last_such (λ point. str_eq point.semantic_id material.service_point_id)
            snapshot.service_points)

    by_value :
        Routed → ProcedureServicePointAssociationSnapshot → List PublicSource → TruthValue → Routed
    unfolding left_unresolved located last_such
    by_value s association association_sources is_false = s
    by_value s association association_sources is_unknown =
        left_unresolved s association.evidence_links
    by_value s association association_sources is_true = located s association association_sources (
        last_such (λ m. str_eq m.semantic_id association.service_point_version_id)
          snapshot.service_point_versions)

    supported :
        PreparedFacts
        → Routed
        → ProcedureServicePointAssociationSnapshot
        → Option (List PublicSource)
        → Result Routed
    unfolding left_unresolved by_value
    supported facts s association none = ok (left_unresolved s association.evidence_links)
    supported facts s association (some sources) =
        if not (association_asserted association)
        then ok (left_unresolved s association.evidence_links)
        else (evaluate association.applicability facts.values facts.submitted_keys >>= λ e.
            ok (by_value s association sources e.value))

    -- One round of the loop over the associations.
    unfoldable pub route_association :
        PreparedFacts → Routed → ProcedureServicePointAssociationSnapshot → Result Routed
    unfolding is_outside supported
    route_association facts s association =
        if is_outside association.effective_from association.effective_to
        then ok s
        else supported facts s association (supporting_sources d false association.evidence_links)

-- `(item.service_point_version_id, item.semantic_id)`
association_before :
    ProcedureServicePointAssociationSnapshot → ProcedureServicePointAssociationSnapshot → Bool
association_before a b =
    str_lt a.service_point_version_id b.service_point_version_id
    || (str_eq a.service_point_version_id b.service_point_version_id
        && str_lt a.semantic_id b.semantic_id)

destination_before : PublicServicePoint → PublicServicePoint → Bool
destination_before a b =
    str_lt a.service_point_id b.service_point_id
    || (str_eq a.service_point_id b.service_point_id
        && (str_lt a.service_point_version_id b.service_point_version_id
            || (str_eq a.service_point_version_id b.service_point_version_id
                && str_lt a.association_id b.association_id)))

routing_of : Routed → PublicRouting
unfolding destination_before
routing_of s = record {
  status =
      if is_empty s.destinations
      then unresolved
      else if s.is_unresolved
      then partially_resolved
      else resolved;
  destinations = sort destination_before s.destinations;
  verification_sources = Dict.values s.verification_sources;
}

unfoldable pub select_service_points :
    KnowledgeSnapshot → ProcedureVersionSnapshot → PreparedFacts → Date → Result PublicRouting
unfolding association_before routing_of
select_service_points snapshot version facts d =
    fold (route_association d snapshot facts)
      (record {
        destinations = [];
        verification_sources = [];
        is_unresolved = is_empty version.service_point_associations;
      })
      (sort association_before version.service_point_associations)
    >>= λ s. ok (routing_of s)
