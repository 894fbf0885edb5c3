-- ===== src/Examples/Stored.antt =====
-- Stored rules, decoded: what validate_rule_v1 returns on small trees, and the laws of the decoding at
-- them.
use bardi.Prelude.{
  ◌≡◌, refl, String, true, false, none, some, [], ◌∷◌, str_eq, if◌then◌else◌, pos, sort,
}
use bardi.Calendar.{Date}
use bardi.Dict
use bardi.Dict.{Dict}
use bardi.Facts.{
  value_fits, FactKind, FactValue, FactDefinition, Definitions, Object, Objects, Entries,
  validate_submitted_facts,
}
use bardi.Rules.{RuleOperator, Operand, Predicate, Predicates}
use bardi.Rules.Typing.{is_well_typed}
use bardi.Rules.Text.{DateText, serialize_rule_v1, text_object}
use bardi.Rules.Validation.{validate_rule_v1}
use bardi.Rules.Validation.Typed.{validate_rule_v1-typed}
use bardi.Evaluator.{evaluate}
use bardi.Evaluator.Total.{Returns}
use bardi.Evaluator.Accepted.{evaluate-accepted}

abbrev leap_day : Date
leap_day = record { year = 2024; month = 2; day = 29 }

-- Texts of one day only.
abbrev pub leap_text : DateText
leap_text = record {
  isoformat = λ d. "2024-02-29";
  fromisoformat = λ s. if str_eq s "2024-02-29" then some leap_day else none;
}

abbrev age_definition : FactDefinition
age_definition = record {
  key = "applicant_age";
  kind = FactKind.integer;
  enum_values = [];
  minimum = none;
  derived = false;
}

abbrev issue_date_definition : FactDefinition
issue_date_definition = record age_definition { key = "issue_date"; kind = FactKind.date }

abbrev pub small_definitions : Definitions
small_definitions = ("applicant_age", age_definition) ∷ ("issue_date", issue_date_definition) ∷ []

abbrev leaf : RuleOperator → String → Operand → Predicate
leaf op fact expected = Predicate.predicate op (some fact) expected Predicates.nil

-- Of age, or no document that was issued on the leap day.
abbrev pub nested : Predicate
nested = Predicate.predicate RuleOperator.any none Operand.absent (
    Predicates.cons (leaf RuleOperator.gte "applicant_age" (Operand.one (FactValue.int (pos 16)))) (
      Predicates.cons
        (Predicate.predicate RuleOperator.not none Operand.absent (
          Predicates.cons
            (leaf RuleOperator.in_ "issue_date" (Operand.many (FactValue.date leap_day ∷ [])))
            Predicates.nil))
        Predicates.nil))

abbrev entry : String → Object → Entries → Entries
entry key v rest = Entries.entry (text_object key) v rest

-- The stored form of `nested`.
abbrev pub stored : Object
stored = Object.dict (
    entry "op" (text_object "any") (
      entry "children"
        (Object.list (
          Objects.cons
            (Object.dict (
              entry "op" (text_object "gte") (
                entry "fact" (text_object "applicant_age")
                  (entry "value" (Object.value (FactValue.int (pos 16))) Entries.end))))
            (Objects.cons
              (Object.dict (
                entry "op" (text_object "not") (
                  entry "children"
                    (Object.list (
                      Objects.cons
                        (Object.dict (
                          entry "op" (text_object "in") (
                            entry "fact" (text_object "issue_date") (
                              entry "value"
                                (Object.list (
                                  Objects.cons
                                    (Object.dict
                                      (entry "$date" (text_object "2024-02-29") Entries.end))
                                    Objects.nil))
                                Entries.end))))
                        Objects.nil))
                    Entries.end)))
              Objects.nil)))
        Entries.end))

stored_form : serialize_rule_v1 leap_text nested ≡ stored
unfolding serialize_rule_v1
stored_form = refl

pub decoded_form : (validate_rule_v1 leap_text stored small_definitions).predicate ≡ some nested
unfolding validate_rule_v1 Dict.get sort value_fits
decoded_form = refl

-- An ordering of texts is refused, and so is a date that is not canonical.
refused_literal :
    (validate_rule_v1 leap_text
      (Object.dict (
        entry "op" (text_object "eq") (
          entry "fact"
            (text_object "issue_date")
            (entry "value" (text_object "2024-02-29") Entries.end))))
      small_definitions).predicate
    ≡ none
unfolding validate_rule_v1 Dict.get sort value_fits
refused_literal = refl

validate_rule_v1-typed_example : is_well_typed small_definitions nested ≡ true
validate_rule_v1-typed_example =
    validate_rule_v1-typed leap_text stored small_definitions nested decoded_form

abbrev submitted : Dict Object
submitted = ("applicant_age", Object.value (FactValue.int (pos 12))) ∷ []

accepted_facts :
    (validate_submitted_facts small_definitions submitted).facts
    ≡ some (("applicant_age", FactValue.int (pos 12)) ∷ [])
unfolding validate_submitted_facts Dict.get Dict.put sort
accepted_facts = refl

evaluate-accepted_example :
    Returns
      (evaluate nested (("applicant_age", FactValue.int (pos 12)) ∷ []) ("applicant_age" ∷ []))
evaluate-accepted_example =
    evaluate-accepted leap_text small_definitions stored submitted nested
      (("applicant_age", FactValue.int (pos 12)) ∷ []) ("applicant_age" ∷ []) decoded_form
      accepted_facts
