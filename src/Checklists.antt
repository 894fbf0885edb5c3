-- ===== src/Checklists.antt =====
-- backend/planning/checklists.py: the Checklist Items of a plan.
pub mod Laws
use bardi.Prelude.{
  String, Bool, true, false, not, ◌&&◌, ◌||◌, Option, none, some, List, [], ◌∷◌, ◌++◌, map, int_lt,
  int_eq, str_eq, str_lt, one_of, is_some, is_empty, sort, if◌then◌else◌, Result, ok, ◌>>=◌, fold,
}
use bardi.KeySet
use bardi.KeySet.{KeySet}
use bardi.Calendar.{Date}
use bardi.Facts.{PreparedFacts}
use bardi.Evaluator.{TruthValue, is_true, is_false, is_unknown, Evaluation}
use bardi.Trust.{
  TrustAssessment, TrustDisposition, context_only, inconclusive, assert_current, assess_trust,
}
use bardi.Catalog.{LocalizedText, ProcedureVersionSnapshot, ChecklistItemSnapshot}
use bardi.Public.{PublicChecklistItem, PublicSource}
use bardi.Provenance.{is_assert_current, supporting_sources}
use bardi.Items.{outside_interval, evaluate_optional}
use bardi.Steps.{matched_or_none}

-- The result, and the variables of the loop.
pub record ChecklistSelection : Type 0 where
  pub items : List PublicChecklistItem
  pub missing_facts : KeySet
  pub trust_inconclusive : Bool
  pub basis_resolution_required : Bool
  pub applicability_inconclusive : Bool

abbrev empty : ChecklistSelection
empty = record {
  items = [];
  missing_facts = [];
  trust_inconclusive = false;
  basis_resolution_required = false;
  applicability_inconclusive = false;
}

-- `LocalizedLabel.for_classification`
for_classification : String → LocalizedText
for_classification classification =
    if str_eq classification "official_requirement"
    then record {
      ar = "\u{645}\u{62a}\u{637}\u{644}\u{628} \u{631}\u{633}\u{645}\u{64a}";
      en = "Official Requirement";
    }
    else record {
      ar = "\u{62a}\u{62d}\u{636}\u{64a}\u{631} \u{639}\u{645}\u{644}\u{64a}";
      en = "Practical Preparation";
    }

abbrev pub is_official : ChecklistItemSnapshot → Bool
is_official item = str_eq item.classification "official_requirement"

abbrev pub assess_item : Date → ChecklistItemSnapshot → TrustAssessment
assess_item d item =
    assess_trust d
      (record {
        verified_on = item.verified_on;
        reverify_on = item.reverify_on;
        effective_from = none;
        effective_to = none;
        retrieved_on = none;
      })
      item.verification_state

unfoldable pub public_item : Date → ChecklistItemSnapshot → List PublicSource → PublicChecklistItem
unfolding for_classification
public_item d item sources = record {
  id = item.semantic_id;
  text = item.text;
  classification = item.classification;
  classification_label = for_classification item.classification;
  quantity = item.quantity;
  original_quantity = item.original_quantity;
  copy_quantity = item.copy_quantity;
  document_type_id = item.document_type_id;
  scope = item.scope;
  sources = sources;
  freshness = (assess_item d item).freshness;
  eligibility_basis_id =
      if str_eq item.scope "eligibility_basis" then some item.scope_reference else none;
}

abbrev is_inconclusive : TrustDisposition → Bool
is_inconclusive inconclusive = true
is_inconclusive _ = false

-- An item that is not asserted or not supported; `official` says whether that leaves the section
-- inconclusive.
unverified : ChecklistSelection → (official : Bool) → Option KeySet → ChecklistSelection
unverified s official pending_missing = record s {
  trust_inconclusive = s.trust_inconclusive || official;
  applicability_inconclusive = s.applicability_inconclusive || is_some pending_missing;
}

module _ (d : Date) where
  with_sources :
      ChecklistSelection
      → ChecklistItemSnapshot
      → Option KeySet
      → Option (List PublicSource)
      → ChecklistSelection
  unfolding unverified
  with_sources s item pending_missing none = unverified s (is_official item) pending_missing
  with_sources s item (some missing) (some sources) = record s {
    missing_facts = KeySet.union missing s.missing_facts;
    applicability_inconclusive = s.applicability_inconclusive || is_empty missing;
  }
  with_sources s item none (some sources) = record s {
    items = s.items ++ (public_item d item sources ∷ []);
  }

  trusted : ChecklistSelection → ChecklistItemSnapshot → Option KeySet → ChecklistSelection
  unfolding with_sources
  trusted s item pending_missing =
      let disposition = (assess_item d item).disposition in
      if not (is_assert_current disposition)
      then unverified s (is_official item && is_inconclusive disposition) pending_missing
      else with_sources s item pending_missing
          (supporting_sources d (is_official item) item.evidence_links)

  -- A preparation whose rule is UNKNOWN is left out; a requirement waits for its missing Facts.
  by_value : ChecklistSelection → ChecklistItemSnapshot → KeySet → TruthValue → ChecklistSelection
  unfolding trusted
  by_value s item missing is_unknown =
      if not (is_official item) then s else trusted s item (some missing)
  by_value s item missing is_true = trusted s item none
  by_value s item missing is_false = s

  applied : ChecklistSelection → ChecklistItemSnapshot → Option Evaluation → ChecklistSelection
  unfolding by_value
  applied s item none = trusted s item none
  applied s item (some e) = by_value s item e.missing_facts e.value

  evaluated : PreparedFacts → ChecklistSelection → ChecklistItemSnapshot → Result ChecklistSelection
  unfolding applied
  evaluated facts s item =
      if outside_interval item.effective_from item.effective_to d
      then ok s
      else evaluate_optional item.applicability facts >>= λ e. ok (applied s item e)

  module _ (known matched : KeySet) (resolved : Bool) (facts : PreparedFacts) where
    -- One round of the loop. `resolved` says that `matched_basis_ids` is not None.
    select_item : ChecklistSelection → ChecklistItemSnapshot → Result ChecklistSelection
    select_item s item =
        if not (one_of item.classification ("official_requirement" ∷ "practical_preparation" ∷ []))
        then ok s
        else if not (one_of item.scope ("procedure" ∷ "eligibility_basis" ∷ []))
        then ok s
        else if not (str_eq item.scope "eligibility_basis")
        then evaluated facts s item
        else if not (KeySet.member item.scope_reference known) || not resolved
        then ok (record s { basis_resolution_required = true })
        else if not (KeySet.member item.scope_reference matched)
        then ok s
        else evaluated facts s item

-- `(display_order, semantic_id)`
item_before : ChecklistItemSnapshot → ChecklistItemSnapshot → Bool
item_before a b =
    int_lt a.display_order b.display_order
    || (int_eq a.display_order b.display_order && str_lt a.semantic_id b.semantic_id)

unfoldable pub select_checklist_items :
    ProcedureVersionSnapshot
    → PreparedFacts
    → Date
    → (matched_basis_ids : Option KeySet) → Result ChecklistSelection
unfolding select_item item_before evaluated
select_checklist_items version facts d matched_basis_ids =
    let known = KeySet.of_list (map (λ b. b.semantic_id) version.eligibility_bases) in
    fold (select_item d known (matched_or_none matched_basis_ids) (is_some matched_basis_ids) facts)
      empty (sort item_before version.checklist_items)
