-- ===== src/Rules/Typing.antt =====
-- What a valid v1 rule is, apart from its stored form: every operator has the parts that the
-- evaluator asks for, and every operand is a value that the definition of its Fact allows.
use bardi.Prelude.{
  ℕ, ◌≡◌, String, Bool, true, false, not, ◌&&◌, Option, none, some, all, is_empty, length, leb,
  some_and,
}
use bardi.Dict
use bardi.Dict.{Dict}
use bardi.Facts.{FactKind, FactValue, FactDefinition, Definitions, value_fits}
use bardi.Rules.{RuleOperator, Operand, Predicate, Predicates}

-- MAX_IN_OPERANDS
abbrev pub max_in_operands : ℕ
max_in_operands = 128

abbrev pub is_ordered_kind : FactKind → Bool
is_ordered_kind FactKind.integer = true
is_ordered_kind FactKind.date = true
is_ordered_kind _ = false

abbrev pub is_ordering : RuleOperator → Bool
is_ordering RuleOperator.lt = true
is_ordering RuleOperator.lte = true
is_ordering RuleOperator.gt = true
is_ordering RuleOperator.gte = true
is_ordering _ = false

-- The operand of a leaf on a Fact with this definition.
unfoldable pub is_operand : RuleOperator → FactDefinition → Operand → Bool
is_operand RuleOperator.exists definition Operand.absent = not definition.derived
is_operand RuleOperator.eq definition (Operand.one v) = value_fits definition v
is_operand RuleOperator.in_ definition (Operand.many vs) =
    not (is_empty vs) && (leb (length vs) max_in_operands && all (λ v. value_fits definition v) vs)
is_operand RuleOperator.lt definition (Operand.one v) =
    is_ordered_kind definition.kind && value_fits definition v
is_operand RuleOperator.lte definition (Operand.one v) =
    is_ordered_kind definition.kind && value_fits definition v
is_operand RuleOperator.gt definition (Operand.one v) =
    is_ordered_kind definition.kind && value_fits definition v
is_operand RuleOperator.gte definition (Operand.one v) =
    is_ordered_kind definition.kind && value_fits definition v
is_operand _ definition _ = false

module _ (definitions : Definitions) where
  unfoldable pub is_leaf : RuleOperator → Option String → Operand → Bool
  is_leaf op none expected = false
  is_leaf op (some fact) expected =
      some_and (λ definition. is_operand op definition expected) (Dict.get definitions fact)

  unfoldable mutual
    pub is_well_typed : Predicate → Bool
    is_well_typed
          (Predicate.predicate RuleOperator.all none Operand.absent (Predicates.cons p ps)) =
        is_well_typed p && are_well_typed ps
    is_well_typed
          (Predicate.predicate RuleOperator.any none Operand.absent (Predicates.cons p ps)) =
        is_well_typed p && are_well_typed ps
    is_well_typed
          (Predicate.predicate RuleOperator.not none Operand.absent
            (Predicates.cons p Predicates.nil)) =
        is_well_typed p
    is_well_typed (Predicate.predicate op fact expected Predicates.nil) = is_leaf op fact expected
    is_well_typed (Predicate.predicate op fact expected (Predicates.cons p ps)) = false

    pub are_well_typed : Predicates → Bool
    are_well_typed Predicates.nil = true
    are_well_typed (Predicates.cons p ps) = is_well_typed p && are_well_typed ps

-- Every value is one that the definition of its Fact allows.
abbrev pub IsTyped : Definitions → Dict FactValue → Type 0
IsTyped definitions facts =
    (key : String) (v : FactValue)
    → Dict.get facts key ≡ some v
    → (d : FactDefinition) × (Dict.get definitions key ≡ some d) × (value_fits d v ≡ true)
