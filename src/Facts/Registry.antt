-- ===== src/Facts/Registry.antt =====
-- The pinned v1 Fact registry, `FACT_DEFINITIONS` of backend/planning/facts.py.
use bardi.Prelude.{String, true, false, Option, none, some, List, [], ◌∷◌, map, ℤ, pos}
use bardi.Facts.{FactKind, FactDefinition, Definitions}

abbrev source_fact : String → FactKind → Option ℤ → FactDefinition
source_fact key kind minimum = record {
  key = key;
  kind = kind;
  enum_values = [];
  minimum = minimum;
  derived = false;
}

abbrev derived_fact : String → FactKind → Option ℤ → FactDefinition
derived_fact key kind minimum = record (source_fact key kind minimum) { derived = true }

abbrev choice : String → List String → FactDefinition
choice key values = record (source_fact key FactKind.enum none) { enum_values = values }

unfoldable pub registry : List FactDefinition
registry =
    choice "citizenship" ("egyptian" ∷ "other" ∷ [])
    ∷ choice "application_location" ("inside_egypt" ∷ "outside_egypt" ∷ [])
    ∷ choice "existing_passport_state"
        ("expired" ∷ "pages_full" ∷ "valid_with_pages" ∷ "lost" ∷ "damaged" ∷ "none" ∷ [])
    ∷ choice "passport_class" ("ordinary" ∷ "other" ∷ [])
    ∷ source_fact "birth_date" FactKind.date none
    ∷ choice "sex" ("male" ∷ "female" ∷ [])
    ∷ choice "national_id_status" ("valid_current_data" ∷ "invalid_or_expired" ∷ "not_held" ∷ [])
    ∷ source_fact "is_student" FactKind.boolean none
    ∷ source_fact "has_current_enrollment_certificate" FactKind.boolean none
    ∷ source_fact "has_military_status_document" FactKind.boolean none
    ∷ source_fact "has_required_photos" FactKind.boolean none
    ∷ choice "service_level" ("standard" ∷ "urgent" ∷ "premium" ∷ [])
    ∷ source_fact "residence_police_jurisdiction" FactKind.string none
    ∷ choice "minor_presenting_adult_role" ("parent" ∷ "legal_guardian" ∷ "other" ∷ "unknown" ∷ [])
    ∷ choice "national_id_possession_state" ("held" ∷ "lost" ∷ "damaged" ∷ "none" ∷ [])
    ∷ source_fact "national_id_expiry_date" FactKind.date none
    ∷ choice "national_id_data_change_kind"
        ("none" ∷ "residence" ∷ "profession" ∷ "marital_status" ∷ "other" ∷ "multiple" ∷ [])
    ∷ source_fact "residence_governorate" FactKind.string none
    ∷ source_fact "residence_district" FactKind.string none
    ∷ source_fact "father_alive" FactKind.boolean none
    ∷ source_fact "other_living_sons_of_father_count" FactKind.integer (some (pos 0))
    ∷ choice "father_unable_to_earn_status"
        ("authority_documented_unable" ∷ "not_documented_unable" ∷ [])
    ∷ choice "other_capable_family_support_for_father" ("none_known" ∷ "present" ∷ "unknown" ∷ [])
    ∷ choice "mother_family_status"
        ("widowed" ∷ "irrevocably_divorced" ∷ "husband_authority_documented_unable" ∷ "other" ∷ [])
    ∷ choice "other_capable_family_support_for_mother" ("none_known" ∷ "present" ∷ "unknown" ∷ [])
    ∷ source_fact "unmarried_sisters_requiring_support_count" FactKind.integer (some (pos 0))
    ∷ choice "other_capable_family_support_for_sisters" ("none_known" ∷ "present" ∷ "unknown" ∷ [])
    ∷ choice "missing_relative_category"
        ("officer" ∷ "volunteer" ∷ "conscript" ∷ "citizen" ∷ "none" ∷ [])
    ∷ choice "missing_relative_cause" ("war_operations" ∷ "terrorist_operations" ∷ "other" ∷ [])
    ∷ choice "missing_relative_alive_status"
        ("missing" ∷ "returned_or_proven_alive" ∷ "unknown" ∷ [])
    ∷ choice "applicant_largest_eligible_relative_status"
        ("authority_documented_yes" ∷ "authority_documented_no" ∷ [])
    ∷ choice "sibling_service_status" ("compulsory_service" ∷ "reserve_recall" ∷ "none" ∷ [])
    ∷ choice "applicant_eldest_remaining_brother_status"
        ("authority_documented_yes" ∷ "authority_documented_no" ∷ [])
    ∷ choice "article7_third_exclusion_status"
        ("none_documented" ∷ "exclusion_present" ∷ "unknown" ∷ [])
    ∷ derived_fact "age_years_on_evaluation_date" FactKind.integer (some (pos 0))
    ∷ derived_fact "card_expired_before_evaluation_date" FactKind.boolean none
    ∷ derived_fact "renewal_deadline_date" FactKind.date none
    ∷ derived_fact "renewal_deadline_passed" FactKind.boolean none
    ∷ derived_fact "only_son_candidate" FactKind.boolean none
    ∷ []

-- `FACT_DEFINITIONS`: each definition stands under its own key.
unfoldable pub fact_definitions : Definitions
unfolding registry
fact_definitions = map (λ d. (d.key, d)) registry
