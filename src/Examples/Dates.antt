-- ===== src/Examples/Dates.antt =====
-- The laws of dates, trust and provenance at concrete dates.
use bardi.Prelude.{
  ◌≡◌, ◌≢◌, refl, ◌↔◌, ◌⊎◌, ◌+◌, ◌*◌, ℕ, true, not, ◌&&◌, any, some, none, [], ◌∷◌, All, is_some,
  leb, pos, if◌then◌else◌, arith,
}
use bardi.Dict
use bardi.Calendar.{
  Date, IsDate, days_in_month, add_calendar_months, completed_years, date_lt, date_le,
}
use bardi.Calendar.Laws.{
  add_calendar_months-exact, add_calendar_months-IsDate, completed_years_exact,
}
use bardi.Trust.{
  TrustDates, VerificationState, assess_trust, assert_current, context_only, inconclusive,
}
use bardi.Trust.Laws.{
  is_timely, assess_trust-current, assess_trust-freshness, is_dated, is_settled, is_ended,
  assess_trust-context,
}
use bardi.Provenance.{
  supporting_sources, public_source, source_is_current, link_is_current, put_sources,
}
use bardi.Provenance.Laws.{
  supports_now, contradicts_now, is_some-supporting_sources, supporting_sources-All,
}
use bardi.Public.{PublicSource}
use bardi.Examples.Data.{today, last_year, next_year, link, shown_sources}

abbrev november_30 : Date
november_30 = record { year = 2025; month = 11; day = 30 }

abbrev february_28 : Date
february_28 = record { year = 2026; month = 2; day = 28 }

november_30-IsDate : IsDate november_30
unfolding days_in_month
november_30-IsDate = ground arith

three_months_later : add_calendar_months november_30 3 ≡ some february_28
unfolding add_calendar_months days_in_month
three_months_later = refl

add_calendar_months-IsDate_example : IsDate february_28
add_calendar_months-IsDate_example =
    add_calendar_months-IsDate november_30 february_28 3 november_30-IsDate three_months_later

add_calendar_months-exact_example :
    (2026 * 12 + 2 ≡ 2025 * 12 + 11 + 3)
    × (28 ≡ (if leb 30 (days_in_month 2026 2) then 30 else days_in_month 2026 2))
add_calendar_months-exact_example =
    add_calendar_months-exact november_30 february_28 3 november_30-IsDate three_months_later

abbrev leap_day : Date
leap_day = record { year = 2000; month = 2; day = 29 }

born_before : date_le leap_day today ≡ true
unfolding date_lt
born_before = refl

completed_years_exact_example :
    (years : ℕ) × (completed_years leap_day today ≡ pos years)
    × (date_le (record leap_day { year = 2000 + years }) today ≡ true)
    × (date_lt today (record leap_day { year = 2000 + years + 1 }) ≡ true)
completed_years_exact_example = completed_years_exact leap_day today born_before

abbrev dates : TrustDates
dates = record {
  verified_on = some last_year;
  reverify_on = some next_year;
  effective_from = none;
  effective_to = none;
  retrieved_on = none;
}

abbrev ended : TrustDates
ended = record dates { effective_to = some november_30 }

assess_trust-current_example :
    ((assess_trust today dates VerificationState.current).disposition ≡ assert_current)
    ↔ (VerificationState.current ≡ VerificationState.current) × (is_timely today dates ≡ true)
assess_trust-current_example = assess_trust-current today dates VerificationState.current

assess_trust-freshness_example :
    let a = assess_trust today ended VerificationState.current in
    (a.freshness.verified_on ≡ some last_year)
    × (a.freshness.reverify_on ≡ some next_year)
    × (a.freshness.state ≡ VerificationState.current
        → VerificationState.current ≡ VerificationState.current)
    × (a.disposition ≡ assert_current → a.freshness.state ≡ VerificationState.current)
    × (a.disposition ≡ inconclusive → a.freshness.state ≢ VerificationState.current)
assess_trust-freshness_example = assess_trust-freshness today ended VerificationState.current

assess_trust-context_example :
    ((assess_trust today ended VerificationState.current).disposition ≡ context_only)
    ↔ ((VerificationState.current ≡ VerificationState.stale)
        ⊎ ((VerificationState.current ≡ VerificationState.current) × (is_ended today ended ≡ true)))
      × (is_dated today ended ≡ true)
      × (is_settled ended ≡ true)
assess_trust-context_example = assess_trust-context today ended VerificationState.current

kept_as_context : (assess_trust today ended VerificationState.current).disposition ≡ context_only
unfolding assess_trust date_lt
kept_as_context = refl

is_some-supporting_sources_example :
    is_some (supporting_sources today true (link ∷ []))
    ≡ (any (supports_now today true) (link ∷ []) && not (any (contradicts_now today) (link ∷ [])))
is_some-supporting_sources_example = is_some-supporting_sources today true (link ∷ [])

-- the sources shown are official
abbrev IsOfficial : PublicSource → Type 0
IsOfficial s = s.classification ≡ "official"

link-IsOfficial :
    All
      (λ l. supports_now today true l ≡ true → All (λ x. IsOfficial (public_source x)) l.sources)
      (link ∷ [])
unfolding public_source
link-IsOfficial = (λ _. (refl, tt), tt)

sources_run : supporting_sources today true (link ∷ []) ≡ some shown_sources
unfolding supporting_sources put_sources public_source source_is_current link_is_current
    assess_trust date_lt Dict.put Dict.values
sources_run = refl

supporting_sources-All_example : All IsOfficial shown_sources
supporting_sources-All_example =
    supporting_sources-All IsOfficial today true (link ∷ []) shown_sources link-IsOfficial
      sources_run
