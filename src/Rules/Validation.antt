-- ===== src/Rules/Validation.antt =====
-- backend/planning/rules.py: validate_rule_v1, the traversal of a stored rule on an explicit stack
-- and the building of the predicate.
mod Sound
pub mod Typed
use bardi.Prelude.{
  ℕ, zero, suc, ◌+◌, ◌-◌, String, Bool, true, false, ◌&&◌, Option, none, some, List, [], ◌∷◌, ◌++◌,
  length, is_empty, eqb, leb, ltb, ◌+++◌, if◌then◌else◌,
}
use bardi.Facts.{
  FactValue, Definitions, Object, Objects, Entries, PathSegment, ValidationDiagnostic,
}
use bardi.Rules.{RuleOperator, Operand, Predicate, Predicates}
use bardi.Rules.Text.{DateText, operator_of, is_boolean, get_entry}
use bardi.Rules.Decoding.{
  DecodedNode, Decoding, add, field_path, extended, set_record, check_fields, objects,
}
use bardi.Rules.Leaves.{read_leaf}

-- MAX_RULE_NODES
abbrev pub max_rule_nodes : ℕ
max_rule_nodes = 128

-- An entry of the stack: raw node, path, record id.
pub record Pending : Type 0 where
  pub raw : Object
  pub path : List PathSegment
  pub record_id : ℕ

-- What one round leaves: the variables, and what it pushes, top first.
pub record Processed : Type 0 where
  pub state : Decoding
  pub pushed : List Pending

-- The first `count` children with the record ids from `id` on.
push_children : (count : ℕ) → List PathSegment → (index id : ℕ) → List Object → List Pending
push_children zero path index id children = []
push_children (suc count) path index id [] = []
push_children (suc count) path index id (child ∷ children) =
    record {
      raw = child;
      path = path ++ (PathSegment.name "children" ∷ PathSegment.index index ∷ []);
      record_id = id;
    }
    ∷ push_children count path (suc index) (suc id) children

ids_from : ℕ → (count : ℕ) → List ℕ
ids_from id zero = []
ids_from id (suc count) = id ∷ ids_from (suc id) count

min : ℕ → ℕ → ℕ
min a b = if ltb b a then b else a

-- `records[record_id] = _DecodedNode(typed_op, None, None, child_ids)`
set_boolean : Decoding → RuleOperator → ℕ → List ℕ → Decoding
unfolding set_record
set_boolean s op record_id child_ids = record s {
  records =
      set_record s.records record_id
        (record { op = op; fact = none; value = Operand.absent; child_ids = child_ids });
}

-- `descend`: `remaining` nodes may still be taken from the stack after this one.
descend : ℕ → RuleOperator → Decoding → List PathSegment → ℕ → List Object → Processed
unfolding push_children ids_from min set_boolean extended
descend remaining op s path record_id children =
    let visit_count = min (length children) (suc remaining) in
    let first = length s.records in
    record {
      state =
          set_boolean (record s { records = extended s.records visit_count }) op record_id
            (ids_from first visit_count);
      pushed = push_children visit_count path 0 first children;
    }

refused_children : RuleOperator → Decoding → ℕ → Processed
unfolding set_boolean
refused_children op s record_id = record { state = set_boolean s op record_id []; pushed = [] }

process_children : ℕ → RuleOperator → Decoding → List PathSegment → ℕ → List Object → Processed
unfolding descend refused_children add
process_children remaining RuleOperator.not s path record_id children =
    if eqb (length children) 1
    then descend remaining RuleOperator.not s path record_id children
    else refused_children RuleOperator.not (add s "malformed_rule:not" (field_path path "children"))
        record_id
process_children remaining RuleOperator.all s path record_id [] =
    refused_children RuleOperator.all
      (add s "empty_boolean_composition:all" (field_path path "children")) record_id
process_children remaining op s path record_id [] =
    refused_children op (add s "empty_boolean_composition:any" (field_path path "children"))
      record_id
process_children remaining op s path record_id (child ∷ children) =
    descend remaining op s path record_id (child ∷ children)

process_boolean :
    ℕ → RuleOperator → String → Decoding → List PathSegment → ℕ → Option Object → Processed
unfolding process_children refused_children add objects
process_boolean remaining typed_op op s path record_id (some (Object.list children)) =
    process_children remaining typed_op s path record_id (objects children)
process_boolean remaining typed_op op s path record_id raw =
    refused_children typed_op (add s ("malformed_rule:" +++ op) (field_path path "children"))
      record_id

module _ (dates : DateText) (definitions : Definitions) where
  process_leaf : RuleOperator → String → Decoding → List PathSegment → ℕ → Entries → Processed
  unfolding read_leaf set_record
  process_leaf typed_op op s path record_id node =
      let r = read_leaf dates definitions typed_op op s path node in
      record {
        state = record r.state { records = set_record r.state.records record_id r.node };
        pushed = [];
      }

  -- A node whose operator is supported.
  process_node : ℕ → RuleOperator → String → Decoding → List PathSegment → ℕ → Entries → Processed
  unfolding process_boolean process_leaf get_entry
  process_node remaining typed_op op s path record_id node =
      if is_boolean typed_op
      then process_boolean remaining typed_op op s path record_id (get_entry node "children")
      else process_leaf typed_op op s path record_id node

  process_operator :
      ℕ → Option RuleOperator → String → Decoding → List PathSegment → ℕ → Entries → Processed
  unfolding process_node check_fields add
  process_operator remaining none op s path record_id node = record {
    state = add s ("unsupported_rule_operator:" +++ op) (field_path path "op");
    pushed = [];
  }
  process_operator remaining (some typed_op) op s path record_id node =
      process_node remaining typed_op op (check_fields s typed_op op path node) path record_id node

  process_dict : ℕ → Option Object → Decoding → List PathSegment → ℕ → Entries → Processed
  unfolding process_operator add operator_of
  process_dict remaining (some (Object.value (FactValue.str op))) s path record_id node =
      process_operator remaining (operator_of op) op s path record_id node
  process_dict remaining raw s path record_id node = record {
    state = add s "malformed_rule:<unknown>" (field_path path "op");
    pushed = [];
  }

  -- One round of the loop, after the test on the number of nodes.
  process : ℕ → Decoding → Object → List PathSegment → ℕ → Processed
  unfolding process_dict add get_entry
  process remaining s (Object.dict node) path record_id =
      process_dict remaining (get_entry node "op") s path record_id node
  process remaining s raw path record_id = record {
    state = add s "malformed_rule:<unknown>" path;
    pushed = [];
  }

  -- `while stack`, where `remaining` is MAX_RULE_NODES - node_count.
  unfoldable pub visit : (remaining : ℕ) → Decoding → List Pending → Decoding
  unfolding process add extended
  visit remaining s [] = s
  visit zero s (pending ∷ stack) = add s "rule_too_large" (PathSegment.name "rule" ∷ [])
  visit (suc remaining) s (pending ∷ stack) =
      let missing = suc pending.record_id - length s.records in
      let processed =
        process remaining (record s { records = extended s.records missing }) pending.raw
          pending.path pending.record_id in
      visit remaining processed.state (processed.pushed ++ stack)

pub record RuleValidationResult : Type 0 where
  pub predicate : Option Predicate
  pub diagnostics : List ValidationDiagnostic

nth : List Predicate → ℕ → Option Predicate
nth [] i = none
nth (p ∷ ps) zero = some p
nth (p ∷ ps) (suc i) = nth ps i

-- `predicates[child]` while the entry of `index` is built, where `later` has those above it.
built : ℕ → List Predicate → ℕ → Option Predicate
unfolding nth
built index later child = if ltb index child then nth later (child - suc index) else none

and_then : Option Predicate → Option Predicates → Option Predicates
and_then (some p) (some ps) = some (Predicates.cons p ps)
and_then p ps = none

decoded_children : ℕ → List Predicate → List ℕ → Option Predicates
unfolding built and_then
decoded_children index later [] = some Predicates.nil
decoded_children index later (child ∷ ids) =
    and_then (built index later child) (decoded_children index later ids)

predicate_of : DecodedNode → Option Predicates → Option Predicate
predicate_of r none = none
predicate_of r (some children) = some (Predicate.predicate r.op r.fact r.value children)

-- The predicate of one record. `none` stands for a record that is not set, and for a child that is
-- not built, which the source would put into the tuple as None.
build_record : ℕ → List Predicate → Option DecodedNode → Option Predicate
unfolding decoded_children predicate_of
build_record index later none = none
build_record index later (some r) = predicate_of r (decoded_children index later r.child_ids)

also : Option Predicate → List Predicate → Option (List Predicate)
also none later = none
also (some p) later = some (p ∷ later)

build_on : ℕ → Option DecodedNode → Option (List Predicate) → Option (List Predicate)
unfolding build_record also
build_on index r none = none
build_on index r (some later) = also (build_record index later r) later

-- `for index in range(len(records) - 1, -1, -1)`, for the records from `index` on.
build : ℕ → List (Option DecodedNode) → Option (List Predicate)
unfolding build_on
build index [] = some []
build index (r ∷ records) = build_on index r (build (suc index) records)

built_result : Option (List Predicate) → RuleValidationResult
built_result (some (p ∷ later)) = record { predicate = some p; diagnostics = [] }
built_result _ = record {
  predicate = none;
  diagnostics =
      record { code = "malformed_rule:<unknown>"; path = PathSegment.name "rule" ∷ [] } ∷ [];
}

validated : Decoding → RuleValidationResult
unfolding build built_result
validated s =
    if is_empty s.diagnostics
    then built_result (build 0 s.records)
    else record { predicate = none; diagnostics = s.diagnostics }

unfoldable pub validate_rule_v1 : DateText → Object → Definitions → RuleValidationResult
unfolding visit validated
validate_rule_v1 dates raw definitions = validated (
    visit dates definitions max_rule_nodes (record { diagnostics = []; records = [] })
      (record { raw = raw; path = PathSegment.name "rule" ∷ []; record_id = 0 } ∷ []))
