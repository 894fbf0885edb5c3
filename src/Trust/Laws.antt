-- ===== src/Trust/Laws.antt =====
-- When material is asserted as current, and what is never relabeled.
use bardi.Prelude.{◌≡◌, ◌≢◌, ◌↔◌, ◌⊎◌, Bool, true, ◌&&◌, some_and, none_or, arith}
use bardi.Calendar.{Date, date_le, date_lt}
use bardi.Trust.{
  VerificationState, current, stale, assert_current, context_only, inconclusive, TrustDates,
  assess_trust,
}

-- The dates at which material may be asserted: verified and retrieved by then, inside the effective
-- interval, and not past the re-verification date.
abbrev pub is_timely : Date → TrustDates → Bool
is_timely d dates =
    none_or (λ v. date_le v d) dates.verified_on
    && (none_or (λ r. date_le r d) dates.retrieved_on
        && (none_or (λ f. date_le f d) dates.effective_from
            && (none_or (λ t. date_le d t) dates.effective_to
                && none_or (λ r. date_le d r) dates.reverify_on)))

-- Material is asserted exactly when its state is `current` and the evaluation date is timely for all
-- of its dates.
pub assess_trust-current :
    (d : Date) (dates : TrustDates) (state : VerificationState)
    → ((assess_trust d dates state).disposition ≡ assert_current)
      ↔ (state ≡ current) × (is_timely d dates ≡ true)
unfolding assess_trust
assess_trust-current d dates current = ground arith
assess_trust-current d dates s = ground arith

-- An assessment keeps the verification dates that it was given. It reports the state `current` only
-- for material that was given as current, always where it asserts the material, and never where it
-- is inconclusive.
pub assess_trust-freshness :
    (d : Date) (dates : TrustDates) (state : VerificationState)
    → let a = assess_trust d dates state in
      (a.freshness.verified_on ≡ dates.verified_on)
      × (a.freshness.reverify_on ≡ dates.reverify_on)
      × (a.freshness.state ≡ current → state ≡ current)
      × (a.disposition ≡ assert_current → a.freshness.state ≡ current)
      × (a.disposition ≡ inconclusive → a.freshness.state ≢ current)
unfolding assess_trust
assess_trust-freshness d dates current = ground arith
assess_trust-freshness d dates s = ground arith

-- The dates at which material may be kept as dated context: verified by then, and neither retrieved
-- nor effective only later.
abbrev pub is_dated : Date → TrustDates → Bool
is_dated d dates =
    some_and (λ v. date_le v d) dates.verified_on
    && (none_or (λ r. date_le r d) dates.retrieved_on
        && none_or (λ f. date_le f d) dates.effective_from)

-- Verified by its effective end, and not retrieved after it.
abbrev pub is_settled : TrustDates → Bool
is_settled dates =
    none_or
      (λ t.
        some_and (λ v. date_le v t) dates.verified_on
        && none_or (λ r. date_le r t) dates.retrieved_on)
      dates.effective_to

-- Its effective end is before the date.
abbrev pub is_ended : Date → TrustDates → Bool
is_ended d dates = some_and (λ t. date_lt t d) dates.effective_to

-- Material is kept as dated context exactly when its state is `stale`, or `current` with an effective
-- end before the evaluation date, and these hold of its dates: it was verified by the evaluation
-- date; it was not retrieved after it; it was in effect from it or earlier; and, if it has an
-- effective end, it was verified by that end and not retrieved after it.
pub assess_trust-context :
    (d : Date) (dates : TrustDates) (state : VerificationState)
    → ((assess_trust d dates state).disposition ≡ context_only)
      ↔ ((state ≡ stale) ⊎ ((state ≡ current) × (is_ended d dates ≡ true)))
        × (is_dated d dates ≡ true)
        × (is_settled dates ≡ true)
unfolding assess_trust
assess_trust-context d dates current = ground arith
assess_trust-context d dates stale = ground arith
assess_trust-context d dates s = ground arith
