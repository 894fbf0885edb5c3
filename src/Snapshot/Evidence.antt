-- ===== src/Snapshot/Evidence.antt =====
-- backend/knowledge/snapshot_policy.py: the summary of the captured evidence and what makes it
-- adequate.
pub mod Adequacy
use bardi.Prelude.{
  ℕ, String, Bool, true, false, not, ◌&&◌, ◌||◌, Option, none, some, List, [], ◌∷◌, ◌++◌, map,
  filter, any, all, is_empty, eqb, str_eq, is_some, if◌then◌else◌,
}
use bardi.Calendar.{Date}
use bardi.Snapshot.{Library, is_blank, Table, set}

-- `(classification, observation_date, observation_context)`
pub record SourceInfo : Type 0 where
  pub classification : String
  pub observation_date : Option Date
  pub context : String

pub record EvidenceInfo : Type 0 where
  pub passage : String
  pub location : String
  pub applicability_context : String
  pub support_status : String
  pub verification_state : String
  pub sources : List SourceInfo

pub record EvidenceRow : Type 0 where
  pub id : ℕ
  pub passage : String
  pub location : String
  pub applicability_context : String
  pub support_status : String
  pub verification_state : String

pub record EvidenceSourceRow : Type 0 where
  pub evidence_link_id : ℕ
  pub classification : String
  pub observation_date : Option Date
  pub observation_context : String

source_info : EvidenceSourceRow → SourceInfo
source_info source = record {
  classification = source.classification;
  observation_date = source.observation_date;
  context = source.observation_context;
}

-- `by_link.setdefault(id, []).append(...)` for each source, then `by_link.get(id, ())`.
sources_of : List EvidenceSourceRow → ℕ → List SourceInfo
unfolding source_info
sources_of [] id = []
sources_of (source ∷ sources) id =
    let rest = sources_of sources id in
    if eqb source.evidence_link_id id then source_info source ∷ rest else rest

evidence_info : EvidenceRow → List SourceInfo → EvidenceInfo
evidence_info row sources = record {
  passage = row.passage;
  location = row.location;
  applicability_context = row.applicability_context;
  support_status = row.support_status;
  verification_state = row.verification_state;
  sources = sources;
}

summarize_from :
    Table ℕ EvidenceInfo → List EvidenceSourceRow → List EvidenceRow → Table ℕ EvidenceInfo
unfolding sources_of evidence_info set
summarize_from t sources [] = t
summarize_from t sources (row ∷ rows) =
    summarize_from (set eqb t row.id (evidence_info row (sources_of sources row.id))) sources rows

unfoldable pub summarize_evidence_rows :
    List EvidenceRow → List EvidenceSourceRow → Table ℕ EvidenceInfo
unfolding summarize_from
summarize_evidence_rows rows sources = summarize_from [] sources rows

-- The owner columns of a row of evidence.
pub record OwnerRow : Type 0 where
  pub checklist_item_id : Option ℕ
  pub step_id : Option ℕ
  pub fee_id : Option ℕ
  pub warning_id : Option ℕ
  pub procedure_service_point_association_id : Option ℕ
  pub service_point_version_id : Option ℕ

-- The first field with a value.
first_owner : List (String × Option ℕ) → Option (String × ℕ)
first_owner [] = none
first_owner ((field, none) ∷ fields) = first_owner fields
first_owner ((field, some id) ∷ fields) = some (field, id)

unfoldable pub core_evidence_owner : OwnerRow → Option (String × ℕ)
unfolding first_owner
core_evidence_owner row = first_owner (
    ("checklist_item", row.checklist_item_id)
    ∷ ("step", row.step_id)
    ∷ ("fee", row.fee_id)
    ∷ ("warning", row.warning_id)
    ∷ [])

unfoldable pub routing_evidence_owner : OwnerRow → Option (String × ℕ)
unfolding first_owner
routing_evidence_owner row = first_owner (
    ("procedure_service_point_association", row.procedure_service_point_association_id)
    ∷ ("service_point_version", row.service_point_version_id)
    ∷ [])

-- `Mapping[tuple[str, int], tuple[EvidenceInfo, ...]]`
abbrev pub EvidenceIndex : Type 0
EvidenceIndex = List ((String × ℕ) × List EvidenceInfo)

-- `evidence.get((owner, id), ())`
unfoldable pub links_of : EvidenceIndex → String → ℕ → List EvidenceInfo
links_of [] owner id = []
links_of (((name, n), links) ∷ evidence) owner id =
    if str_eq name owner && eqb n id then links else links_of evidence owner id

abbrev pub is_current : EvidenceInfo → Bool
is_current link = str_eq link.verification_state "current"

abbrev pub is_contradiction : EvidenceInfo → Bool
is_contradiction link = is_current link && str_eq link.support_status "contradicts"

-- `bool(link.sources)`
abbrev pub has_sources : EvidenceInfo → Bool
has_sources link = not (is_empty link.sources)

-- `any(not link.sources for link in links)`
unfoldable pub lacks_source : List EvidenceInfo → Bool
lacks_source links = any (λ link. not (has_sources link)) links

module _ (library : Library) where
  -- The three texts of a link are written.
  abbrev pub is_detailed : EvidenceInfo → Bool
  is_detailed link =
      not (is_blank library link.passage)
      && (not (is_blank library link.location) && not (is_blank library link.applicability_context))

  abbrev pub is_core_support : EvidenceInfo → Bool
  is_core_support link =
      is_current link
      && (str_eq link.support_status "supports" && (has_sources link && is_detailed link))

  unfoldable pub adequate : List EvidenceInfo → Bool
  adequate links = any is_core_support links && not (any is_contradiction links)

  -- A field report without its date or its context.
  abbrev pub is_undated_report : SourceInfo → Bool
  is_undated_report source =
      str_eq source.classification "field_report"
      && (not (is_some source.observation_date) || is_blank library source.context)

  adequate_from : (adequate : Bool) → List EvidenceInfo → Bool
  adequate_from found [] = found
  adequate_from found (link ∷ links) =
      let rest =
        adequate_from
          (found
            || (is_current link && (str_eq link.support_status "supports" && has_sources link)))
          links in
      if is_blank library link.passage
        || (is_blank library link.location || is_blank library link.applicability_context)
      then false
      else if any is_undated_report link.sources
      then false
      else if is_contradiction link
      then false
      else rest

  unfoldable pub routing_evidence_is_adequate : List EvidenceInfo → Bool
  unfolding adequate_from
  routing_evidence_is_adequate links = adequate_from false links
