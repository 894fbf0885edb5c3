-- ===== src/Warnings.antt =====
-- backend/planning/warnings.py: the Warnings of a plan.
use bardi.Prelude.{
  Bool, false, not, ◌&&◌, ◌||◌, Option, none, some, List, [], ◌∷◌, ◌++◌, int_lt, int_eq, str_eq,
  str_lt, is_empty, sort, if◌then◌else◌, Result, ok, ◌>>=◌, fold,
}
use bardi.Calendar.{Date}
use bardi.Facts.{PreparedFacts}
use bardi.Evaluator.{is_true, truth_eq, Evaluation}
use bardi.Trust.{TrustAssessment, assess_trust}
use bardi.Catalog.{ProcedureVersionSnapshot, WarningSnapshot}
use bardi.Public.{PublicWarning, PublicSource}
use bardi.Provenance.{is_assert_current, supporting_sources}
use bardi.Items.{outside_interval, evaluate_optional}

abbrev pub assess_warning : Date → WarningSnapshot → TrustAssessment
assess_warning d item =
    assess_trust d
      (record {
        verified_on = item.verified_on;
        reverify_on = item.reverify_on;
        effective_from = item.effective_from;
        effective_to = item.effective_to;
        retrieved_on = none;
      })
      item.verification_state

module _ (d : Date) where
  public_warning : WarningSnapshot → List PublicSource → PublicWarning
  public_warning item sources = record {
    id = item.semantic_id;
    text = item.text;
    severity = item.severity;
    kind = item.kind;
    role = item.role;
    sources = sources;
    freshness = (assess_warning d item).freshness;
  }

  add_supported :
      List PublicWarning → WarningSnapshot → Option (List PublicSource) → List PublicWarning
  unfolding public_warning
  add_supported result item none = result
  add_supported result item (some sources) = result ++ (public_warning item sources ∷ [])

  -- By the kind: a product warning needs no evidence, an administrative one is supported.
  by_kind : List PublicWarning → WarningSnapshot → List PublicWarning
  unfolding add_supported
  by_kind result item =
      if str_eq item.kind "product"
      then (if not (is_empty item.evidence_links)
          then result
          else result ++ (public_warning item [] ∷ []))
      else if str_eq item.kind "administrative"
      then add_supported result item (supporting_sources d false item.evidence_links)
      else result

  trusted : List PublicWarning → WarningSnapshot → List PublicWarning
  unfolding by_kind
  trusted result item =
      if not (is_assert_current (assess_warning d item).disposition)
      then result
      else by_kind result item

  applied : List PublicWarning → WarningSnapshot → Option Evaluation → List PublicWarning
  unfolding trusted
  applied result item none = trusted result item
  applied result item (some e) =
      if not (truth_eq e.value is_true) then result else trusted result item

  -- One round of the loop. A regeneration Warning passes no applicability, trust or date test.
  select_warning :
      PreparedFacts → List PublicWarning → WarningSnapshot → Result (List PublicWarning)
  unfolding applied
  select_warning facts result item =
      if str_eq item.role "regeneration"
      then (if not (str_eq item.kind "product")
            || (not (str_eq item.severity "important") || not (is_empty item.evidence_links))
          then ok result
          else ok (result ++ (public_warning item [] ∷ [])))
      else if outside_interval item.effective_from item.effective_to d
      then ok result
      else evaluate_optional item.applicability facts >>= λ e. ok (applied result item e)

-- `(display_order, semantic_id)`
warning_before : WarningSnapshot → WarningSnapshot → Bool
warning_before a b =
    int_lt a.display_order b.display_order
    || (int_eq a.display_order b.display_order && str_lt a.semantic_id b.semantic_id)

unfoldable pub select_warnings :
    ProcedureVersionSnapshot → PreparedFacts → Date → Result (List PublicWarning)
unfolding select_warning warning_before
select_warnings version facts d =
    fold (select_warning d facts) [] (sort warning_before version.warnings)
