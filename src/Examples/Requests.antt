-- ===== src/Examples/Requests.antt =====
-- The laws of validation and of the Question picker at concrete requests.
use bardi.Prelude.{◌≡◌, refl, true, all, is_some, is_empty, sort, some, [], ◌∷◌, pos, ok}
use bardi.KeySet
use bardi.Dict
use bardi.Dict.{Dict}
use bardi.Facts.{
  FactValue, Object, PreparedFacts, validate_submitted_facts, validate_from, value_fits,
}
use bardi.Facts.Registry.{fact_definitions}
use bardi.Facts.Laws.{is_valid_entry, validate_submitted_facts-is_valid_entry}
use bardi.Catalog.{QuestionSnapshot, ServiceSnapshot}
use bardi.Questions.{
  ConsequentialQuestion, consequential, pick_question, expand_all, covered_facts, asked_before,
}
use bardi.Questions.Laws.{IsTheQuestion, needed_facts, pick_question-picked}
use bardi.Calendar.{Date, completed_years, date_lt}
use bardi.CasePreparation.{
  success, prepare_case, incompatible_keys, derive_all, derive, contradictory_keys,
  derived_definition_is_compatible,
}
use bardi.CasePreparation.Laws.{Keeps, prepare_case-Keeps}
use bardi.Examples.Data.{snapshot, service, today}

abbrev submitted : Dict Object
submitted =
    ("citizenship", Object.value (FactValue.str "egyptian"))
    ∷ ("is_student", Object.value (FactValue.str "yes"))
    ∷ ("renewal_deadline_passed", Object.value (FactValue.bool true))
    ∷ []

validate_submitted_facts-is_valid_entry_example :
    let r = validate_submitted_facts fact_definitions submitted in
    (is_some r.facts ≡ all (is_valid_entry fact_definitions) submitted)
    × (is_empty r.diagnostics ≡ all (is_valid_entry fact_definitions) submitted)
validate_submitted_facts-is_valid_entry_example =
    validate_submitted_facts-is_valid_entry fact_definitions submitted

abbrev late_question : QuestionSnapshot
late_question = record {
  semantic_id = "who";
  text = service.text;
  priority = pos 2;
  primary_fact_key = "citizenship";
  resolved_fact_keys = "citizenship" ∷ [];
}

abbrev first_question : QuestionSnapshot
first_question = record late_question {
  semantic_id = "both";
  priority = pos 1;
  resolved_fact_keys = "citizenship" ∷ "sex" ∷ [];
}

abbrev asking : ServiceSnapshot
asking = record service { questions = late_question ∷ first_question ∷ [] }

abbrev nothing_told : PreparedFacts
nothing_told = record { values = []; submitted_keys = []; missing_source_dependencies = [] }

abbrev picked : ConsequentialQuestion
picked = record { question = some first_question; diagnostic_codes = [] }

picking :
    pick_question consequential "missing" snapshot asking nothing_told ("citizenship" ∷ [])
    ≡ ok picked
unfolding pick_question expand_all covered_facts asked_before fact_definitions Dict.get
    KeySet.member KeySet.add KeySet.union KeySet.of_list KeySet.difference
picking = refl

pick_question-picked_example :
    (is_empty picked.diagnostic_codes ≡ true)
    × IsTheQuestion asking
        (needed_facts consequential snapshot nothing_told ("citizenship" ∷ []))
        first_question
pick_question-picked_example =
    pick_question-picked consequential "missing" snapshot asking nothing_told ("citizenship" ∷ [])
      picked first_question picking refl

abbrev born : Date
born = record { year = 2000; month = 2; day = 29 }

abbrev told : Dict FactValue
told = ("birth_date", FactValue.date born) ∷ ("citizenship", FactValue.str "egyptian") ∷ []

abbrev told_objects : Dict Object
told_objects =
    ("birth_date", Object.value (FactValue.date born))
    ∷ ("citizenship", Object.value (FactValue.str "egyptian"))
    ∷ []

abbrev prepared : PreparedFacts
prepared = record {
  values =
      ("age_years_on_evaluation_date", FactValue.int (pos 26))
      ∷ ("birth_date", FactValue.date born)
      ∷ ("citizenship", FactValue.str "egyptian")
      ∷ [];
  submitted_keys = "birth_date" ∷ "citizenship" ∷ [];
  missing_source_dependencies =
      ("card_expired_before_evaluation_date", "national_id_expiry_date" ∷ [])
      ∷ ("only_son_candidate", "father_alive" ∷ "other_living_sons_of_father_count" ∷ [])
      ∷ ("renewal_deadline_date", "national_id_expiry_date" ∷ [])
      ∷ ("renewal_deadline_passed", "national_id_expiry_date" ∷ [])
      ∷ [];
}

preparing : prepare_case fact_definitions service told_objects today ≡ ok (success prepared)
unfolding prepare_case incompatible_keys derive_all derive contradictory_keys
    derived_definition_is_compatible validate_submitted_facts validate_from value_fits
    fact_definitions completed_years date_lt sort Dict.get Dict.put Dict.keys KeySet.member
    KeySet.add KeySet.difference
preparing = refl

prepare_case-Keeps_example :
    (is_empty (incompatible_keys fact_definitions) ≡ true)
    × ((source : Dict FactValue) × ((validate_submitted_facts fact_definitions told_objects).facts
          ≡ some source)
        × Keeps source prepared)
prepare_case-Keeps_example =
    prepare_case-Keeps fact_definitions service told_objects today prepared preparing
