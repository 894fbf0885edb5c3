-- ===== src/Bases.antt =====
-- backend/planning/eligibility_bases.py: reachability before qualification.
mod Rounds
pub mod Laws
use bardi.Prelude.{
  Bool, true, false, not, ◌&&◌, ◌||◌, Option, none, some, List, [], ◌∷◌, ◌++◌, int_lt, int_eq,
  str_lt, is_empty, sort, if◌then◌else◌, Result, ok, ◌>>=◌, fold,
}
use bardi.KeySet
use bardi.KeySet.{KeySet}
use bardi.Calendar.{Date}
use bardi.Rules.{Predicate}
use bardi.Facts.{PreparedFacts}
use bardi.Evaluator.{TruthValue, is_true, is_false, is_unknown, Evaluation, evaluate}
use bardi.Trust.{TrustAssessment, VerificationState, stale, disputed, unknown, assess_trust}
use bardi.Catalog.{ProcedureVersionSnapshot, EligibilityBasisSnapshot}
use bardi.Public.{PublicEligibilityBasis, PublicSource}
use bardi.Provenance.{is_assert_current, supporting_sources, claim_sources}
use bardi.Items.{outside_interval, evaluate_optional}

pub record EligibilityBasisSelection : Type 0 where
  pub bases : List PublicEligibilityBasis
  pub trusted_matched_basis_ids : KeySet
  pub missing_facts : KeySet
  pub inconclusive_basis_ids : KeySet
  pub no_applicable_basis : Bool
  pub configuration_invalid : Bool

-- The variables of the loop.
pub record Matching : Type 0 where
  pub selected : List PublicEligibilityBasis
  pub trusted : KeySet
  pub missing : KeySet
  pub inconclusive : KeySet
  pub configuration_invalid : Bool

abbrev start : Matching
start = record {
  selected = [];
  trusted = [];
  missing = [];
  inconclusive = [];
  configuration_invalid = false;
}

abbrev pub assess_basis : Date → EligibilityBasisSnapshot → TrustAssessment
assess_basis d basis =
    assess_trust d
      (record {
        verified_on = basis.verified_on;
        reverify_on = basis.reverify_on;
        effective_from = basis.effective_from;
        effective_to = basis.effective_to;
        retrieved_on = none;
      })
      basis.verification_state

-- `state in {"stale", "disputed", "unknown"}`
abbrev is_unreliable : VerificationState → Bool
is_unreliable stale = true
is_unreliable disputed = true
is_unreliable unknown = true
is_unreliable _ = false

module _ (d : Date) where
  abbrev pub public_basis : EligibilityBasisSnapshot → List PublicSource → PublicEligibilityBasis
  public_basis basis sources = record {
    id = basis.semantic_id;
    text = basis.text;
    sources = sources;
    freshness = (assess_basis d basis).freshness;
    checklist_item_ids = [];
    step_ids = [];
  }

  -- An UNKNOWN rule: its missing Facts are asked for only if the Basis is reliable.
  undecided : Matching → EligibilityBasisSnapshot → KeySet → Matching
  undecided s basis missing =
      if is_unreliable (assess_basis d basis).freshness.state
      then record s { inconclusive = KeySet.add basis.semantic_id s.inconclusive }
      else record s { missing = KeySet.union missing s.missing }

  supported : Matching → EligibilityBasisSnapshot → Option (List PublicSource) → Matching
  supported s basis none = record s { configuration_invalid = true }
  supported s basis (some sources) = record s {
    trusted = KeySet.add basis.semantic_id s.trusted;
    selected = s.selected ++ (public_basis basis sources ∷ []);
  }

  matched : Matching → EligibilityBasisSnapshot → Matching
  unfolding supported
  matched s basis =
      if is_assert_current (assess_basis d basis).disposition
      then supported s basis (supporting_sources d false basis.evidence_links)
      else record s {
        inconclusive = KeySet.add basis.semantic_id s.inconclusive;
        selected = s.selected ++ (public_basis basis (claim_sources basis.evidence_links) ∷ []);
      }

  qualified : Matching → EligibilityBasisSnapshot → Evaluation → TruthValue → Matching
  unfolding undecided matched
  qualified s basis e is_false = s
  qualified s basis e is_unknown = undecided s basis e.missing_facts
  qualified s basis e is_true = matched s basis

  module _ (facts : PreparedFacts) where
    qualify : Matching → EligibilityBasisSnapshot → Predicate → Result Matching
    unfolding qualified
    qualify s basis qualification =
        evaluate qualification facts.values facts.submitted_keys >>= λ e.
        ok (qualified s basis e e.value)

    reached :
        Matching → EligibilityBasisSnapshot → Predicate → KeySet → TruthValue → Result Matching
    unfolding qualify
    reached s basis qualification missing is_false = ok s
    reached s basis qualification missing is_unknown = ok (undecided s basis missing)
    reached s basis qualification missing is_true = qualify s basis qualification

    reach : Matching → EligibilityBasisSnapshot → Predicate → Option Evaluation → Result Matching
    unfolding reached
    reach s basis qualification none = qualify s basis qualification
    reach s basis qualification (some e) = reached s basis qualification e.missing_facts e.value

    with_qualification : Matching → EligibilityBasisSnapshot → Option Predicate → Result Matching
    unfolding reach
    with_qualification s basis none = ok (record s { configuration_invalid = true })
    with_qualification s basis (some qualification) =
        evaluate_optional basis.reachability facts >>= λ e. reach s basis qualification e

    -- One round of the loop.
    pub select_basis : Matching → EligibilityBasisSnapshot → Result Matching
    unfolding with_qualification
    select_basis s basis =
        if outside_interval basis.effective_from basis.effective_to d
        then ok s
        else with_qualification s basis basis.qualification

-- `(display_order, semantic_id)`
basis_before : EligibilityBasisSnapshot → EligibilityBasisSnapshot → Bool
basis_before a b =
    int_lt a.display_order b.display_order
    || (int_eq a.display_order b.display_order && str_lt a.semantic_id b.semantic_id)

unfoldable pub select_eligibility_bases :
    ProcedureVersionSnapshot → PreparedFacts → Date → Result EligibilityBasisSelection
unfolding select_basis basis_before
select_eligibility_bases version facts d =
    let authored = sort basis_before version.eligibility_bases in
    fold (select_basis d facts) start authored >>= λ s. ok (record {
      bases = s.selected;
      trusted_matched_basis_ids = s.trusted;
      missing_facts = s.missing;
      inconclusive_basis_ids = s.inconclusive;
      no_applicable_basis =
          not (is_empty authored)
          && (is_empty s.selected && (is_empty s.inconclusive && is_empty s.missing));
      configuration_invalid = s.configuration_invalid;
    })
