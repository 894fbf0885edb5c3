-- ===== src/Trust.antt =====
-- backend/planning/trust.py: the disposition of evidence-bearing material at an explicit date.
pub mod Laws
use bardi.Prelude.{
  Bool, true, false, not, ◌&&◌, ◌||◌, Option, none, some, some_and, none_or, if◌then◌else◌,
}
use bardi.Calendar.{Date, date_lt, date_le}

pub data VerificationState : Type 0 where
  current needs_reverification stale disputed unknown : VerificationState

pub data TrustDisposition : Type 0 where
  assert_current context_only inconclusive : TrustDisposition

pub record Freshness : Type 0 where
  pub state : VerificationState
  pub verified_on : Option Date
  pub reverify_on : Option Date

pub record TrustAssessment : Type 0 where
  pub disposition : TrustDisposition
  pub freshness : Freshness

-- The optional keyword arguments of `assess_trust`; the default of each is `none`.
pub record TrustDates : Type 0 where
  pub verified_on : Option Date
  pub reverify_on : Option Date
  pub effective_from : Option Date
  pub effective_to : Option Date
  pub retrieved_on : Option Date

module _ (evaluation_date : Date) (dates : TrustDates) where
  open dates use {verified_on, reverify_on, effective_from, effective_to, retrieved_on}

  abbrev verdict : TrustDisposition → VerificationState → TrustAssessment
  verdict disposition state = record {
    disposition = disposition;
    freshness = record { state = state; verified_on = verified_on; reverify_on = reverify_on };
  }

  -- verified or retrieved after the evaluation date
  abbrev pub from_the_future : Bool
  from_the_future =
      some_and (λ d. date_lt evaluation_date d) verified_on
      || some_and (λ d. date_lt evaluation_date d) retrieved_on

  -- `verified_on is not None and verified_on <= end and (retrieved_on is None or …)`
  abbrev pub established_by : Date → Bool
  established_by end =
      some_and (λ d. date_le d end) verified_on && none_or (λ d. date_le d end) retrieved_on

  abbrev established_past_value : Bool
  established_past_value =
      some_and (λ _. true) verified_on
      && (none_or (λ d. date_le d evaluation_date) effective_from
          && none_or established_by effective_to)

  current_verdict : TrustAssessment
  current_verdict =
      if some_and (λ d. date_lt evaluation_date d) effective_from
      then verdict inconclusive needs_reverification
      else if some_and (λ d. date_lt d evaluation_date) effective_to
      then (if some_and established_by effective_to
          then verdict context_only current
          else verdict inconclusive needs_reverification)
      else if some_and (λ d. date_lt d evaluation_date) reverify_on
      then verdict inconclusive needs_reverification
      else verdict assert_current current

  -- The tests on `state` are the clauses.
  by_state : VerificationState → TrustAssessment
  unfolding current_verdict
  by_state stale =
      if established_past_value then verdict context_only stale else verdict inconclusive stale
  by_state current = current_verdict
  by_state state = verdict inconclusive state

  unfoldable pub assess_trust : VerificationState → TrustAssessment
  unfolding by_state
  assess_trust state = if from_the_future then verdict inconclusive unknown else by_state state
