-- ===== src/Rules/Text.antt =====
-- backend/planning/rules.py: the names of the operators, serialize_rule_v1 and _decode_literal.
pub mod Fits
use bardi.Prelude.{
  String, Bool, true, false, Option, none, some, List, [], ◌∷◌, str_eq, if◌then◌else◌, is_some,
}
use bardi.Calendar.{Date}
use bardi.Facts.{FactKind, FactValue, FactDefinition, Object, Objects, Entries, value_fits}
use bardi.Rules.{RuleOperator, Operand, Predicate, Predicates}

-- `date.isoformat` and `date.fromisoformat` of Python's library; `none` is the ValueError.
pub record DateText : Type 0 where
  pub isoformat : Date → String
  pub fromisoformat : String → Option Date

unfoldable pub op_text : RuleOperator → String
op_text RuleOperator.eq = "eq"
op_text RuleOperator.in_ = "in"
op_text RuleOperator.lt = "lt"
op_text RuleOperator.lte = "lte"
op_text RuleOperator.gt = "gt"
op_text RuleOperator.gte = "gte"
op_text RuleOperator.exists = "exists"
op_text RuleOperator.all = "all"
op_text RuleOperator.any = "any"
op_text RuleOperator.not = "not"

-- `op in SUPPORTED_OPERATORS`, with the operator.
unfoldable pub operator_of : String → Option RuleOperator
operator_of op =
    if str_eq op "eq"
    then some RuleOperator.eq
    else if str_eq op "in"
    then some RuleOperator.in_
    else if str_eq op "lt"
    then some RuleOperator.lt
    else if str_eq op "lte"
    then some RuleOperator.lte
    else if str_eq op "gt"
    then some RuleOperator.gt
    else if str_eq op "gte"
    then some RuleOperator.gte
    else if str_eq op "exists"
    then some RuleOperator.exists
    else if str_eq op "all"
    then some RuleOperator.all
    else if str_eq op "any"
    then some RuleOperator.any
    else if str_eq op "not"
    then some RuleOperator.not
    else none

-- `op in BOOLEAN_OPERATORS`
abbrev pub is_boolean : RuleOperator → Bool
is_boolean RuleOperator.all = true
is_boolean RuleOperator.any = true
is_boolean RuleOperator.not = true
is_boolean _ = false

abbrev pub text_object : String → Object
text_object s = Object.value (FactValue.str s)

-- `dict.get` at a text key. No key of another type equals a text.
unfoldable pub get_entry : Entries → String → Option Object
get_entry Entries.end key = none
get_entry (Entries.entry (Object.value (FactValue.str k)) v rest) key =
    if str_eq k key then some v else get_entry rest key
get_entry (Entries.entry k v rest) key = get_entry rest key

module _ (dates : DateText) where
  unfoldable pub encode : FactValue → Object
  encode (FactValue.date d) =
      Object.dict
        (Entries.entry (text_object "$date") (text_object (dates.isoformat d)) Entries.end)
  encode v = Object.value v

  unfoldable pub encode_all : List FactValue → Objects
  unfolding encode
  encode_all [] = Objects.nil
  encode_all (v ∷ vs) = Objects.cons (encode v) (encode_all vs)

  -- The entry of the operand. A rule whose operand has the wrong form, which the casts of the
  -- source exclude, is written with none.
  value_entry : RuleOperator → Operand → Entries
  unfolding encode encode_all
  value_entry RuleOperator.exists expected = Entries.end
  value_entry RuleOperator.in_ (Operand.many vs) =
      Entries.entry (text_object "value") (Object.list (encode_all vs)) Entries.end
  value_entry op (Operand.one v) = Entries.entry (text_object "value") (encode v) Entries.end
  value_entry op expected = Entries.end

  abbrev fact_object : Option String → Object
  fact_object none = Object.opaque
  fact_object (some fact) = text_object fact

  unfoldable mutual
    unfolding value_entry op_text

    pub serialize_rule_v1 : Predicate → Object
    serialize_rule_v1 (Predicate.predicate op fact expected children) =
        if is_boolean op
        then Object.dict (
            Entries.entry (text_object "op") (text_object (op_text op)) (
              Entries.entry (text_object "children") (Object.list (serialize_all children))
                Entries.end))
        else Object.dict (
            Entries.entry (text_object "op") (text_object (op_text op))
              (Entries.entry (text_object "fact") (fact_object fact) (value_entry op expected)))

    pub serialize_all : Predicates → Objects
    serialize_all Predicates.nil = Objects.nil
    serialize_all (Predicates.cons p ps) = Objects.cons (serialize_rule_v1 p) (serialize_all ps)

  -- The text of an envelope `{"$date": text}`, which has no other key.
  unfoldable pub envelope_text : Object → Option String
  envelope_text
        (Object.dict (
          Entries.entry
            (Object.value (FactValue.str k))
            (Object.value (FactValue.str text))
            Entries.end)) =
      if str_eq k "$date" then some text else none
  envelope_text raw = none

  -- A date is accepted in its one canonical text.
  canonical : String → Option Date → Option FactValue
  canonical text none = none
  canonical text (some decoded) =
      if str_eq (dates.isoformat decoded) text then some (FactValue.date decoded) else none

  unfoldable pub decode_date : Option String → Option FactValue
  unfolding canonical
  decode_date none = none
  decode_date (some text) = canonical text (dates.fromisoformat text)

  decode_plain : FactDefinition → Object → Option FactValue
  decode_plain definition (Object.value v) = if value_fits definition v then some v else none
  decode_plain definition raw = none

  decode_kind : FactKind → FactDefinition → Object → Option FactValue
  unfolding decode_plain envelope_text decode_date
  decode_kind FactKind.date definition raw = decode_date (envelope_text raw)
  decode_kind kind definition raw = decode_plain definition raw

  unfoldable pub decode_literal : FactDefinition → Object → Option FactValue
  unfolding decode_kind
  decode_literal definition raw = decode_kind definition.kind definition raw
