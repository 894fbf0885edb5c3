-- ===== src/Rules/Leaves.antt =====
-- backend/planning/rules.py: validate_rule_v1, the branch of a node with a leaf operator.
pub mod Laws
use bardi.Prelude.{
  ℕ, suc, String, Bool, true, false, not, ◌&&◌, ◌||◌, Option, none, some, List, [], ◌∷◌, ◌++◌,
  length, is_empty, eqb, ltb, ◌+++◌, if◌then◌else◌,
}
use bardi.Dict
use bardi.Facts.{FactValue, FactDefinition, Definitions, Object, Objects, Entries, PathSegment}
use bardi.Rules.{RuleOperator, Operand}
use bardi.Rules.Typing.{max_in_operands, is_ordered_kind, is_ordering}
use bardi.Rules.Text.{DateText, get_entry, decode_literal}
use bardi.Rules.Decoding.{DecodedNode, Decoding, add, field_path, objects}

-- The Fact of the node, and its definition where it has one.
pub record FactRead : Type 0 where
  pub state : Decoding
  pub fact : Option String
  pub known : Option (String × FactDefinition)

read_name : Decoding → List PathSegment → String → Option FactDefinition → FactRead
unfolding add
read_name s path fact none = record {
  state = add s ("unsupported_rule_fact:" +++ fact) (field_path path "fact");
  fact = some fact;
  known = none;
}
read_name s path fact (some definition) = record {
  state = s;
  fact = some fact;
  known = some (fact, definition);
}

read_fact : Definitions → Decoding → String → List PathSegment → Option Object → FactRead
unfolding add read_name
read_fact definitions s op path none = record {
  state = add s ("missing_rule_fact:" +++ op) (field_path path "fact");
  fact = none;
  known = none;
}
read_fact definitions s op path (some (Object.value (FactValue.str fact))) =
    read_name s path fact (Dict.get definitions fact)
read_fact definitions s op path (some raw) = record {
  state = add s ("malformed_rule:" +++ op) (field_path path "fact");
  fact = none;
  known = none;
}

pub record ValueRead : Type 0 where
  pub state : Decoding
  pub value : Operand

abbrev refused_operand : Decoding → List PathSegment → String → Decoding
refused_operand s path fact = add s ("invalid_rule_operand:" +++ fact) path

read_one : Decoding → List PathSegment → String → Option FactValue → ValueRead
unfolding add
read_one s path fact none = record {
  state = refused_operand s (field_path path "value") fact;
  value = Operand.absent;
}
read_one s path fact (some v) = record { state = s; value = Operand.one v }

note_operand : Decoding → List PathSegment → String → ℕ → Option FactValue → Decoding
unfolding add
note_operand s path fact index none =
    refused_operand s (path ++ (PathSegment.name "value" ∷ PathSegment.index index ∷ [])) fact
note_operand s path fact index (some v) = s

keep_operand : Option FactValue → List FactValue → List FactValue
keep_operand none decoded = decoded
keep_operand (some v) decoded = v ∷ decoded

pub record OperandsRead : Type 0 where
  pub state : Decoding
  pub decoded : List FactValue

all_decoded : OperandsRead → List Object → ValueRead
all_decoded r operands = record {
  state = r.state;
  value =
      if eqb (length r.decoded) (length operands) then Operand.many r.decoded else Operand.absent;
}

module _ (definition : FactDefinition) (path : List PathSegment) (fact : String) where
  check_order : Decoding → RuleOperator → Decoding
  unfolding add
  check_order s op =
      if is_ordering op && not (is_ordered_kind definition.kind)
      then add s ("ordering_not_supported_for_fact:" +++ fact) (field_path path "fact")
      else s

  check_exists : Decoding → Decoding
  unfolding add
  check_exists s =
      if definition.derived
      then add s ("exists_requires_source_fact:" +++ fact) (field_path path "fact")
      else s

module _ (dates : DateText) (definition : FactDefinition) (path : List PathSegment)
    (fact : String) where
  -- `for index, operand in enumerate(operands)`
  read_operands : Decoding → (index : ℕ) → List Object → OperandsRead
  unfolding note_operand keep_operand decode_literal
  read_operands s index [] = record { state = s; decoded = [] }
  read_operands s index (operand ∷ operands) =
      let decoded = decode_literal dates definition operand in
      let rest = read_operands (note_operand s path fact index decoded) (suc index) operands in
      record { state = rest.state; decoded = keep_operand decoded rest.decoded }

  read_list : Decoding → List Object → ValueRead
  unfolding add read_operands all_decoded
  read_list s operands =
      if is_empty operands || ltb max_in_operands (length operands)
      then record {
        state = refused_operand s (field_path path "value") fact;
        value = Operand.absent;
      }
      else all_decoded (read_operands s 0 operands) operands

  read_many : Decoding → Option Object → ValueRead
  unfolding add read_list objects
  read_many s (some (Object.list operands)) = read_list s (objects operands)
  read_many s raw = record {
    state = refused_operand s (field_path path "value") fact;
    value = Operand.absent;
  }

module _ (dates : DateText) where
  -- `_decode_literal(definition, node.get("value"))`
  decode_entry : FactDefinition → Option Object → Option FactValue
  unfolding decode_literal
  decode_entry definition none = decode_literal dates definition Object.opaque
  decode_entry definition (some raw) = decode_literal dates definition raw

  -- The checks on the value of a node whose Fact is known.
  read_value :
      RuleOperator
      → Decoding
      → List PathSegment
      → String
      → FactDefinition
      → Option Object
      → ValueRead
  unfolding check_exists read_many read_one check_order decode_entry
  read_value RuleOperator.exists s path fact definition raw = record {
    state = check_exists definition path fact s;
    value = Operand.absent;
  }
  read_value RuleOperator.in_ s path fact definition raw =
      read_many dates definition path fact (check_order definition path fact s RuleOperator.in_) raw
  read_value op s path fact definition raw =
      read_one (check_order definition path fact s op) path fact (decode_entry definition raw)

  read_known :
      RuleOperator
      → Decoding
      → List PathSegment
      → Option (String × FactDefinition)
      → Option Object
      → ValueRead
  unfolding read_value
  read_known op s path none raw = record { state = s; value = Operand.absent }
  read_known op s path (some (fact, definition)) raw = read_value op s path fact definition raw

pub record LeafRead : Type 0 where
  pub state : Decoding
  pub node : DecodedNode

unfoldable pub read_leaf :
    DateText
    → Definitions
    → RuleOperator
    → String
    → Decoding
    → List PathSegment
    → Entries
    → LeafRead
unfolding read_fact read_known get_entry
read_leaf dates definitions typed_op op s path node =
    let f = read_fact definitions s op path (get_entry node "fact") in
    let v = read_known dates typed_op f.state path f.known (get_entry node "value") in
    record {
      state = v.state;
      node = record { op = typed_op; fact = f.fact; value = v.value; child_ids = [] };
    }
