-- ===== src/Fees.antt =====
-- backend/planning/fees.py: the Fees of a plan, without invented current values.
pub mod Laws
use bardi.Prelude.{
  String, Bool, true, false, not, ◌&&◌, ◌||◌, Option, none, some, List, [], ◌∷◌, ◌++◌, map, ℤ,
  int_lt, int_eq, str_eq, str_lt, one_of, is_some, is_empty, some_and, sort, if◌then◌else◌, Result,
  ok, ◌>>=◌, fold,
}
use bardi.KeySet
use bardi.KeySet.{KeySet}
use bardi.Calendar.{Date}
use bardi.Facts.{PreparedFacts}
use bardi.Evaluator.{TruthValue, is_true, is_false, is_unknown, Evaluation}
use bardi.Trust.{
  TrustAssessment, TrustDisposition, assert_current, context_only, inconclusive, Freshness,
  VerificationState, assess_trust,
}
use bardi.Catalog.{ProcedureVersionSnapshot, FeeSnapshot}
use bardi.Public.{PublicFee, PublicSource}
use bardi.Provenance.{is_assert_current, supporting_sources, claim_sources}
use bardi.Items.{outside_interval, evaluate_optional}
use bardi.Steps.{matched_or_none}

-- The result, and the variables of the loop.
pub record FeeSelection : Type 0 where
  pub items : List PublicFee
  pub missing_facts : KeySet
  pub basis_resolution_required : Bool
  pub applicability_inconclusive : Bool

abbrev empty : FeeSelection
empty = record {
  items = [];
  missing_facts = [];
  basis_resolution_required = false;
  applicability_inconclusive = false;
}

abbrev pub assess_fee : Date → FeeSnapshot → TrustAssessment
assess_fee d item =
    assess_trust d
      (record {
        verified_on = item.verified_on;
        reverify_on = item.reverify_on;
        effective_from = item.effective_from;
        effective_to = item.effective_to;
        retrieved_on = none;
      })
      item.verification_state

-- A fee whose current value is unknown: no amount is shown.
without_value : FeeSnapshot → (public_state : String) → Freshness → PublicFee
without_value item public_state freshness = record {
  id = item.semantic_id;
  text = item.text;
  value_state = public_state;
  amount = none;
  minimum_amount = none;
  maximum_amount = none;
  currency = item.currency;
  fee_type = item.fee_type;
  current_value_unknown = true;
  sources = claim_sources item.evidence_links;
  freshness = freshness;
}

with_value : FeeSnapshot → List PublicSource → Freshness → PublicFee
with_value item sources freshness = record {
  id = item.semantic_id;
  text = item.text;
  value_state = item.value_state;
  amount = item.amount;
  minimum_amount = item.minimum_amount;
  maximum_amount = item.maximum_amount;
  currency = item.currency;
  fee_type = item.fee_type;
  current_value_unknown = false;
  sources = sources;
  freshness = freshness;
}

-- An asserted fee with a known value or range, by what supports it.
asserted_value : FeeSnapshot → Freshness → Option (List PublicSource) → PublicFee
unfolding without_value with_value
asserted_value item freshness none = without_value item "unverified" (record {
  state = VerificationState.unknown;
  verified_on = item.verified_on;
  reverify_on = item.reverify_on;
})
asserted_value item freshness (some sources) = with_value item sources freshness

abbrev pub is_context_only : TrustDisposition → Bool
is_context_only context_only = true
is_context_only _ = false

module _ (d : Date) where
  unfoldable pub public_fee : FeeSnapshot → PublicFee
  unfolding asserted_value
  public_fee item =
      let trust = assess_fee d item in
      if is_assert_current trust.disposition
      then (if one_of item.value_state ("known" ∷ "range" ∷ [])
          then asserted_value item trust.freshness (supporting_sources d false item.evidence_links)
          else without_value item item.value_state trust.freshness)
      else without_value item
          (if str_eq item.value_state "unknown" then "unknown" else "unverified") trust.freshness

  selected : FeeSelection → FeeSnapshot → FeeSelection
  selected s item = record s { items = s.items ++ (public_fee item ∷ []) }

  by_value : FeeSelection → FeeSnapshot → KeySet → TruthValue → FeeSelection
  unfolding selected
  by_value s item missing is_false = s
  by_value s item missing is_unknown =
      if is_assert_current (assess_fee d item).disposition
      then record s {
        missing_facts = KeySet.union missing s.missing_facts;
        applicability_inconclusive = s.applicability_inconclusive || is_empty missing;
      }
      else s
  by_value s item missing is_true = selected s item

  applied : FeeSelection → FeeSnapshot → Option Evaluation → FeeSelection
  unfolding by_value
  applied s item none = selected s item
  applied s item (some e) = by_value s item e.missing_facts e.value

  evaluated : PreparedFacts → FeeSelection → FeeSnapshot → Result FeeSelection
  unfolding applied
  evaluated facts s item = evaluate_optional item.applicability facts >>= λ e. ok (applied s item e)

  module _ (known matched : KeySet) (resolved : Bool) (facts : PreparedFacts) where
    -- One round of the loop. `resolved` says that `matched_basis_ids` is not None.
    select_fee : FeeSelection → FeeSnapshot → Result FeeSelection
    select_fee s item =
        let disposition = (assess_fee d item).disposition in
        let of_basis = str_eq item.scope "eligibility_basis" in
        if not (one_of item.scope ("procedure" ∷ "eligibility_basis" ∷ []))
        then ok s
        else if outside_interval item.effective_from item.effective_to d
        then ok s
        else if of_basis && not (some_and (λ b. KeySet.member b known) item.eligibility_basis_id)
        then ok (record s { basis_resolution_required = true })
        else if is_context_only disposition
        then ok s
        else if not of_basis
        then evaluated facts s item
        else if not resolved
        then (if is_assert_current disposition
            then ok (record s { basis_resolution_required = true })
            else ok s)
        else if not (some_and (λ b. KeySet.member b matched) item.eligibility_basis_id)
        then ok s
        else evaluated facts s item

-- `(display_order, semantic_id)`
fee_before : FeeSnapshot → FeeSnapshot → Bool
fee_before a b =
    int_lt a.display_order b.display_order
    || (int_eq a.display_order b.display_order && str_lt a.semantic_id b.semantic_id)

unfoldable pub select_fees :
    ProcedureVersionSnapshot
    → PreparedFacts
    → Date
    → (matched_basis_ids : Option KeySet) → Result FeeSelection
unfolding select_fee fee_before evaluated
select_fees version facts d matched_basis_ids =
    let known = KeySet.of_list (map (λ b. b.semantic_id) version.eligibility_bases) in
    fold (select_fee d known (matched_or_none matched_basis_ids) (is_some matched_basis_ids) facts)
      empty (sort fee_before version.fees)
