-- ===== src/Evaluator.antt =====
-- backend/planning/evaluator.py: exhaustive Strong Kleene evaluation of a predicate, with its trace.
-- A predicate or a Fact that validation would have refused raises what the Python expression raises.
mod Inversion
pub mod Kleene
pub mod Missing
pub mod Decided
pub mod Stable
pub mod Total
pub mod Accepted
use bardi.Prelude.{
  String, Bool, true, false, not, ◌&&◌, ◌||◌, Option, none, some, List, [], ◌∷◌, ℤ, pos, int_lt,
  int_eq, str_eq, str_lt, any, is_some, if◌then◌else◌, Result, ok, raise, type_error,
  assertion_error, index_error, ◌>>=◌,
}
use bardi.KeySet
use bardi.KeySet.{KeySet}
use bardi.Dict
use bardi.Dict.{Dict}
use bardi.Calendar.{date_lt, date_eq}
use bardi.Facts.{FactValue}
use bardi.Rules.{RuleOperator, Operand, Predicate, Predicates}

pub data TruthValue : Type 0 where
  is_true is_false is_unknown : TruthValue

abbrev pub truth_eq : TruthValue → TruthValue → Bool
truth_eq is_true is_true = true
truth_eq is_false is_false = true
truth_eq is_unknown is_unknown = true
truth_eq _ _ = false

-- The fields of an `EvaluationTrace` but its children.
pub record TraceNode : Type 0 where
  pub op : RuleOperator
  pub result : TruthValue
  pub fact_key : Option String
  pub fact_present : Option Bool
  pub submitted : Option Bool
  pub actual_value : Option FactValue
  pub expected_value : Operand
  pub missing_facts : KeySet
  pub affected_result : Bool

mutual
  pub data EvaluationTrace : Type 0 where
    trace : TraceNode → Traces → EvaluationTrace

  pub data Traces : Type 0 where
    nil : Traces
    cons : EvaluationTrace → Traces → Traces

abbrev pub node_of : EvaluationTrace → TraceNode
node_of (EvaluationTrace.trace node _) = node

abbrev pub result_of : EvaluationTrace → TruthValue
result_of t = (node_of t).result

abbrev pub missing_of : EvaluationTrace → KeySet
missing_of t = (node_of t).missing_facts

unfoldable mutual
  pub dominated : EvaluationTrace → EvaluationTrace
  dominated (EvaluationTrace.trace node children) =
      EvaluationTrace.trace (record node { affected_result = false }) (dominated_all children)

  pub dominated_all : Traces → Traces
  dominated_all Traces.nil = Traces.nil
  dominated_all (Traces.cons t ts) = Traces.cons (dominated t) (dominated_all ts)

-- `value in values` and `all(item is value for item in values)`, over the children's results
unfoldable pub some_result : TruthValue → Traces → Bool
some_result value Traces.nil = false
some_result value (Traces.cons t ts) = truth_eq (result_of t) value || some_result value ts

unfoldable pub every_result : TruthValue → Traces → Bool
every_result value Traces.nil = true
every_result value (Traces.cons t ts) = truth_eq (result_of t) value && every_result value ts

-- `all` is decided by one FALSE, `any` by one TRUE; `deciding` and `neutral` are those values.
unfoldable pub composed_result : TruthValue → TruthValue → Traces → TruthValue
unfolding some_result every_result
composed_result deciding neutral children =
    if some_result deciding children
    then deciding
    else if every_result neutral children
    then neutral
    else is_unknown

-- children whose result is not the influential one are marked as dominated
unfoldable pub composed_children : TruthValue → Traces → Traces
unfolding dominated
composed_children influential Traces.nil = Traces.nil
composed_children influential (Traces.cons t ts) =
    Traces.cons (if truth_eq (result_of t) influential then t else dominated t)
      (composed_children influential ts)

unfoldable pub unknown_missing : Traces → KeySet
unknown_missing Traces.nil = []
unknown_missing (Traces.cons t ts) =
    if truth_eq (result_of t) is_unknown
    then KeySet.union (missing_of t) (unknown_missing ts)
    else unknown_missing ts

abbrev plain_node : RuleOperator → TruthValue → KeySet → TraceNode
plain_node op result missing = record {
  op = op;
  result = result;
  fact_key = none;
  fact_present = none;
  submitted = none;
  actual_value = none;
  expected_value = Operand.absent;
  missing_facts = missing;
  affected_result = true;
}

composed : RuleOperator → TruthValue → Traces → EvaluationTrace
unfolding composed_children unknown_missing
composed op result children =
    EvaluationTrace.trace
      (plain_node op result (if truth_eq result is_unknown then unknown_missing children else []))
      (composed_children result children)

-- `_compose` is called at `all` and `any` alone: its `else` is `any`.
unfoldable pub compose : RuleOperator → Traces → EvaluationTrace
unfolding composed_result composed
compose RuleOperator.all children =
    composed RuleOperator.all (composed_result is_false is_true children) children
compose op children = composed op (composed_result is_true is_false children) children

-- Python's `==` between Fact values: a bool is the int 0 or 1, other types differ.
abbrev int_of_bool : Bool → ℤ
int_of_bool true = pos 1
int_of_bool false = pos 0

unfoldable pub value_eq : FactValue → FactValue → Bool
value_eq (FactValue.bool a) (FactValue.bool b) = int_eq (int_of_bool a) (int_of_bool b)
value_eq (FactValue.bool a) (FactValue.int b) = int_eq (int_of_bool a) b
value_eq (FactValue.int a) (FactValue.bool b) = int_eq a (int_of_bool b)
value_eq (FactValue.int a) (FactValue.int b) = int_eq a b
value_eq (FactValue.date a) (FactValue.date b) = date_eq a b
value_eq (FactValue.str a) (FactValue.str b) = str_eq a b
value_eq _ _ = false

-- Python's `<` between Fact values.
unfoldable pub value_lt : FactValue → FactValue → Result Bool
value_lt (FactValue.bool a) (FactValue.bool b) = ok (int_lt (int_of_bool a) (int_of_bool b))
value_lt (FactValue.bool a) (FactValue.int b) = ok (int_lt (int_of_bool a) b)
value_lt (FactValue.int a) (FactValue.bool b) = ok (int_lt a (int_of_bool b))
value_lt (FactValue.int a) (FactValue.int b) = ok (int_lt a b)
value_lt (FactValue.date a) (FactValue.date b) = ok (date_lt a b)
value_lt (FactValue.str a) (FactValue.str b) = ok (str_lt a b)
value_lt _ _ = raise type_error

-- `actual < expected` and the like. No Fact value can be ordered against a tuple or None.
less : FactValue → Operand → Result Bool
unfolding value_lt
less actual (Operand.one expected) = value_lt actual expected
less actual _ = raise type_error

greater : FactValue → Operand → Result Bool
unfolding value_lt
greater actual (Operand.one expected) = value_lt expected actual
greater actual _ = raise type_error

equals : FactValue → Operand → Bool
equals actual (Operand.one expected) = value_eq actual expected
equals actual _ = false

is_in : FactValue → Operand → Result Bool
is_in actual (Operand.many expected) = ok (any (λ v. value_eq actual v) expected)
is_in actual _ = raise assertion_error

-- The leaf's comparison; the last `else` asserts that the operator is `gte`. On the types that
-- can be ordered the order is total, so `<=` is the negation of `>`.
unfoldable pub matches : RuleOperator → FactValue → Operand → Result Bool
unfolding less greater equals is_in value_eq
matches RuleOperator.eq actual expected = ok (equals actual expected)
matches RuleOperator.in_ actual expected = is_in actual expected
matches RuleOperator.lt actual expected = less actual expected
matches RuleOperator.lte actual expected = greater actual expected >>= λ b. ok (not b)
matches RuleOperator.gt actual expected = greater actual expected
matches RuleOperator.gte actual expected = less actual expected >>= λ b. ok (not b)
matches _ actual expected = raise assertion_error

abbrev pub truth_of : Bool → TruthValue
truth_of b = if b then is_true else is_false

abbrev pub negated : TruthValue → TruthValue
negated is_true = is_false
negated is_false = is_true
negated is_unknown = is_unknown

abbrev leaf : TraceNode → EvaluationTrace
leaf node = EvaluationTrace.trace node Traces.nil

abbrev negate : EvaluationTrace → EvaluationTrace
negate child =
    let result = negated (result_of child) in
    EvaluationTrace.trace
      (plain_node RuleOperator.not result
        (if truth_eq result is_unknown then missing_of child else []))
      (Traces.cons child Traces.nil)

module _ (facts : Dict FactValue) (submitted_keys : KeySet) where
  abbrev leaf_node : RuleOperator → String → TruthValue → TraceNode
  leaf_node op fact result = record (plain_node op result []) {
    fact_key = some fact;
    fact_present = some (is_some (Dict.get facts fact));
    submitted = some (KeySet.member fact submitted_keys);
  }

  compared : RuleOperator → String → Operand → Option FactValue → Result EvaluationTrace
  unfolding matches
  compared op fact expected none = ok (
      leaf (record (leaf_node op fact is_unknown) {
        expected_value = expected;
        missing_facts = fact ∷ [];
      }))
  compared op fact expected (some actual) = matches op actual expected >>= λ matched. ok (
      leaf (record (leaf_node op fact (truth_of matched)) {
        actual_value = some actual;
        expected_value = expected;
      }))

  -- The part of `_evaluate_trace` behind the first `assert`.
  unfoldable pub evaluate_leaf : RuleOperator → String → Operand → Result EvaluationTrace
  unfolding compared
  evaluate_leaf RuleOperator.exists fact expected =
      ok (leaf (leaf_node RuleOperator.exists fact (truth_of (KeySet.member fact submitted_keys))))
  evaluate_leaf op fact expected = compared op fact expected (Dict.get facts fact)

  unfoldable mutual
    pub evaluate_trace : Predicate → Result EvaluationTrace
    evaluate_trace (Predicate.predicate RuleOperator.all fact expected children) =
        evaluate_children children >>= λ ts. ok (compose RuleOperator.all ts)
    evaluate_trace (Predicate.predicate RuleOperator.any fact expected children) =
        evaluate_children children >>= λ ts. ok (compose RuleOperator.any ts)
    evaluate_trace (Predicate.predicate RuleOperator.not fact expected Predicates.nil) =
        raise index_error
    evaluate_trace (Predicate.predicate RuleOperator.not fact expected (Predicates.cons p ps)) =
        evaluate_trace p >>= λ t. ok (negate t)
    evaluate_trace (Predicate.predicate op none expected children) = raise assertion_error
    evaluate_trace (Predicate.predicate op (some fact) expected children) =
        evaluate_leaf op fact expected

    pub evaluate_children : Predicates → Result Traces
    evaluate_children Predicates.nil = ok Traces.nil
    evaluate_children (Predicates.cons p ps) =
        evaluate_trace p >>= λ t. evaluate_children ps >>= λ ts. ok (Traces.cons t ts)

pub record Evaluation : Type 0 where
  pub value : TruthValue
  pub missing_facts : KeySet
  pub trace : EvaluationTrace

unfoldable pub evaluate : Predicate → Dict FactValue → KeySet → Result Evaluation
evaluate rule facts submitted_keys = evaluate_trace facts submitted_keys rule >>= λ t.
    ok (record { value = result_of t; missing_facts = missing_of t; trace = t })
