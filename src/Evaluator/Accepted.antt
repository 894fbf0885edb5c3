-- ===== src/Evaluator/Accepted.antt =====
-- A stored rule and submitted Facts that are accepted: the evaluator returns.
use bardi.Prelude.{◌≡◌, some}
use bardi.KeySet.{KeySet}
use bardi.Dict.{Dict}
use bardi.Facts.{Object, FactValue, Definitions, validate_submitted_facts}
use bardi.Facts.Accepted.{validate_submitted_facts-IsTyped}
use bardi.Rules.{Predicate}
use bardi.Rules.Text.{DateText}
use bardi.Rules.Validation.{validate_rule_v1}
use bardi.Rules.Validation.Typed.{validate_rule_v1-typed}
use bardi.Evaluator.{evaluate}
use bardi.Evaluator.Total.{Returns, evaluate-Returns}

-- Where the validation of a stored rule returned a predicate and the validation of submitted Facts
-- returned Facts, the evaluation of the predicate on the Facts returns: it raises no exception,
-- whatever the rule, the Facts and the submitted keys are.
pub evaluate-accepted :
    (dates : DateText) (definitions : Definitions) (stored : Object) (submitted : Dict Object)
    (p : Predicate) (facts : Dict FactValue) (submitted_keys : KeySet)
    → (validate_rule_v1 dates stored definitions).predicate ≡ some p
    → (validate_submitted_facts definitions submitted).facts ≡ some facts
    → Returns (evaluate p facts submitted_keys)
evaluate-accepted dates definitions stored submitted p facts submitted_keys accepted_rule
      accepted_facts =
    evaluate-Returns definitions p facts submitted_keys
      (validate_rule_v1-typed dates stored definitions p accepted_rule)
      (validate_submitted_facts-IsTyped definitions submitted facts accepted_facts)
