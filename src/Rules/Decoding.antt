-- ===== src/Rules/Decoding.antt =====
-- backend/planning/rules.py: validate_rule_v1, the variables of the traversal, its diagnostics and
-- the checks on the keys of a node.
pub mod Clean
use bardi.Prelude.{
  ℕ, zero, suc, ◌+◌, ◌-◌, String, Bool, true, false, not, ◌&&◌, ◌||◌, Option, none, some, List, [],
  ◌∷◌, ◌++◌, map, length, is_empty, any, eqb, leb, ltb, str_eq, str_lt, ◌+++◌, one_of, sort,
  is_some, if◌then◌else◌,
}
use bardi.Dict
use bardi.Facts.{
  FactKind, FactValue, FactDefinition, Definitions, Object, Objects, Entries, PathSegment,
  ValidationDiagnostic,
}
use bardi.Rules.{RuleOperator, Operand, Predicate, Predicates}
use bardi.Rules.Typing.{max_in_operands, is_ordered_kind, is_ordering}
use bardi.Rules.Text.{DateText, operator_of, is_boolean, get_entry, decode_literal}

pub record DecodedNode : Type 0 where
  pub op : RuleOperator
  pub fact : Option String
  pub value : Operand
  pub child_ids : List ℕ

-- The variables of the traversal but the stack. `seen` holds exactly the recorded diagnostics.
pub record Decoding : Type 0 where
  pub diagnostics : List ValidationDiagnostic
  pub records : List (Option DecodedNode)

segment_eq : PathSegment → PathSegment → Bool
segment_eq (PathSegment.name a) (PathSegment.name b) = str_eq a b
segment_eq (PathSegment.index a) (PathSegment.index b) = eqb a b
segment_eq _ _ = false

path_eq : List PathSegment → List PathSegment → Bool
unfolding segment_eq
path_eq [] [] = true
path_eq (a ∷ p) (b ∷ q) = segment_eq a b && path_eq p q
path_eq _ _ = false

unfoldable pub add : Decoding → String → List PathSegment → Decoding
unfolding path_eq
add s code path =
    if any (λ d. str_eq d.code code && path_eq d.path path) s.diagnostics
    then s
    else record s { diagnostics = s.diagnostics ++ (record { code = code; path = path } ∷ []) }

abbrev pub field_path : List PathSegment → String → List PathSegment
field_path path field = path ++ (PathSegment.name field ∷ [])

-- `while len(records) <= record_id: records.append(None)`: `missing` entries are appended.
unfoldable pub extended : List (Option DecodedNode) → (missing : ℕ) → List (Option DecodedNode)
extended records zero = records
extended records (suc missing) = extended (records ++ (none ∷ [])) missing

unfoldable pub set_record : List (Option DecodedNode) → ℕ → DecodedNode → List (Option DecodedNode)
set_record [] i node = []
set_record (r ∷ records) zero node = some node ∷ records
set_record (r ∷ records) (suc i) node = r ∷ set_record records i node

-- The text keys of a node, and whether it has another key.
text_keys : Entries → List String
text_keys Entries.end = []
text_keys (Entries.entry (Object.value (FactValue.str k)) v rest) = k ∷ text_keys rest
text_keys (Entries.entry k v rest) = text_keys rest

has_other_key : Entries → Bool
has_other_key Entries.end = false
has_other_key (Entries.entry (Object.value (FactValue.str k)) v rest) = has_other_key rest
has_other_key (Entries.entry k v rest) = true

allowed : RuleOperator → List String
allowed RuleOperator.exists = "op" ∷ "fact" ∷ []
allowed op = if is_boolean op then "op" ∷ "children" ∷ [] else "op" ∷ "fact" ∷ "value" ∷ []

add_fields : Decoding → (code : String) → List PathSegment → List String → Decoding
unfolding add
add_fields s code path [] = s
add_fields s code path (field ∷ fields) =
    add_fields (add s code (field_path path field)) code path fields

unexpected : RuleOperator → List String → List String
unfolding allowed
unexpected op [] = []
unexpected op (key ∷ keys) =
    if one_of key (allowed op) then unexpected op keys else key ∷ unexpected op keys

-- The checks on the keys of a node.
unfoldable pub check_fields :
    Decoding → RuleOperator → String → List PathSegment → Entries → Decoding
unfolding add_fields unexpected text_keys has_other_key add
check_fields s typed op path node =
    let s' =
      add_fields s ("malformed_rule:" +++ op) path
        (sort str_lt (unexpected typed (text_keys node))) in
    if has_other_key node then add s' ("malformed_rule:" +++ op) path else s'

unfoldable pub objects : Objects → List Object
objects Objects.nil = []
objects (Objects.cons x xs) = x ∷ objects xs
