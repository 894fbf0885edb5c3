-- ===== src/Rules.antt =====
-- backend/planning/rules.py: the v1 rule tree that validation hands to the evaluator.
pub mod Typing
pub mod Text
pub mod Decoding
pub mod Leaves
pub mod Validation
use bardi.Prelude.{String, Option, List}
use bardi.Facts.{FactValue}

pub data RuleOperator : Type 0 where
  eq in_ lt lte gt gte exists all any not : RuleOperator

-- `FactValue | tuple[FactValue, ...] | None`
pub data Operand : Type 0 where
  absent : Operand
  one : FactValue → Operand
  many : List FactValue → Operand

mutual
  pub data Predicate : Type 0 where
    predicate : RuleOperator → Option String → Operand → Predicates → Predicate

  pub data Predicates : Type 0 where
    nil : Predicates
    cons : Predicate → Predicates → Predicates
