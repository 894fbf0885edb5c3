-- ===== src/Facts.antt =====
-- backend/planning/facts.py and diagnostics.py: Fact values and definitions, and the validation of
-- submitted Facts.
pub mod Registry
pub mod Laws
pub mod Accepted
pub mod Kinds
pub mod Submitted
use bardi.Prelude.{
  ℕ, String, Bool, true, false, not, ◌&&◌, ◌||◌, Option, none, some, List, [], ◌∷◌, ◌++◌, ℤ, int_lt,
  int_eq, str_eq, str_lt, ◌+++◌, one_of, none_or, sort, is_empty, if◌then◌else◌,
}
use bardi.KeySet.{KeySet}
use bardi.Dict
use bardi.Dict.{Dict}
use bardi.Calendar.{Date}

-- diagnostics.py
pub data PathSegment : Type 0 where
  name : String → PathSegment
  index : ℕ → PathSegment

pub record ValidationDiagnostic : Type 0 where
  pub code : String
  pub path : List PathSegment

pub data FactKind : Type 0 where
  enum integer boolean date string : FactKind

pub data FactValue : Type 0 where
  bool : Bool → FactValue
  int : ℤ → FactValue
  date : Date → FactValue
  str : String → FactValue

-- A Python object as far as the planner tells them apart: by `type(x) is …`. `opaque` is a value of
-- any other type (`None`, a float, a datetime, an instance of a subclass).
mutual
  pub data Object : Type 0 where
    value : FactValue → Object
    list : Objects → Object
    dict : Entries → Object
    opaque : Object

  pub data Objects : Type 0 where
    nil : Objects
    cons : Object → Objects → Objects

  pub data Entries : Type 0 where
    end : Entries
    entry : Object → Object → Entries → Entries

pub record FactDefinition : Type 0 where
  pub key : String
  pub kind : FactKind
  pub enum_values : List String
  pub minimum : Option ℤ
  pub derived : Bool

abbrev pub Definitions : Type 0
Definitions = Dict FactDefinition

-- The tests of `value_matches_definition`, one clause for each kind and exact type; every other
-- type is refused.
value_matches_kind : FactDefinition → FactKind → FactValue → Bool
value_matches_kind definition FactKind.boolean (FactValue.bool _) = true
value_matches_kind definition FactKind.integer (FactValue.int n) =
    none_or (λ least. not (int_lt n least)) definition.minimum
value_matches_kind definition FactKind.date (FactValue.date _) = true
value_matches_kind definition FactKind.string (FactValue.str _) = true
value_matches_kind definition FactKind.enum (FactValue.str s) = one_of s definition.enum_values
value_matches_kind definition _ _ = false

-- `value_matches_definition` at a value of one of the four types, and at any object.
unfoldable pub value_fits : FactDefinition → FactValue → Bool
unfolding value_matches_kind
value_fits definition v = value_matches_kind definition definition.kind v

unfoldable pub value_matches_definition : FactDefinition → Object → Bool
unfolding value_fits
value_matches_definition definition (Object.value v) = value_fits definition v
value_matches_definition definition _ = false

pub record FactValidationResult : Type 0 where
  pub facts : Option (Dict FactValue)
  pub diagnostics : List ValidationDiagnostic

-- The outcome of one round of the loop: a diagnostic, or the value to copy.
pub data Checked : Type 0 where
  refused : ValidationDiagnostic → Checked
  accepted : FactValue → Checked

abbrev fact_diagnostic : String → String → ValidationDiagnostic
fact_diagnostic code key = record {
  code = code +++ key;
  path = PathSegment.name "facts" ∷ PathSegment.name key ∷ [];
}

check_value : FactDefinition → String → Object → Checked
unfolding value_fits
check_value definition key (Object.value v) =
    if value_fits definition v
    then accepted v
    else refused (fact_diagnostic "invalid_fact_value:" key)
check_value definition key _ = refused (fact_diagnostic "invalid_fact_value:" key)

check_fact : Definitions → String → Object → Checked
unfolding check_value
check_fact definitions key raw = elim (Dict.get definitions key) [
  | none ↦ refused (fact_diagnostic "unsupported_fact_key:" key)
  | some definition ↦
      if definition.derived
      then refused (fact_diagnostic "derived_fact_cannot_be_submitted:" key)
      else check_value definition key raw
]

pub record Copying : Type 0 where
  pub diagnostics : List ValidationDiagnostic
  pub copied : Dict FactValue

pub record_checked : Copying → String → Checked → Copying
record_checked s key (refused d) = record s { diagnostics = s.diagnostics ++ (d ∷ []) }
record_checked s key (accepted v) = record s { copied = Dict.put s.copied key v }

unfoldable pub validate_from : Definitions → Copying → List (String × Object) → Copying
unfolding check_fact record_checked
validate_from definitions s [] = s
validate_from definitions s ((key, raw) ∷ facts) =
    validate_from definitions (record_checked s key (check_fact definitions key raw)) facts

-- `for key in sorted(facts)`, then the value is returned only if nothing was refused.
unfoldable pub validate_submitted_facts : Definitions → Dict Object → FactValidationResult
unfolding validate_from
validate_submitted_facts definitions facts =
    let start : Copying = record { diagnostics = []; copied = [] } in
    let s = validate_from definitions start (sort (λ a b. str_lt a.0 b.0) facts) in
    if is_empty s.diagnostics
    then record { facts = some s.copied; diagnostics = [] }
    else record { facts = none; diagnostics = s.diagnostics }

-- The internal handoff from case preparation.
pub record PreparedFacts : Type 0 where
  pub values : Dict FactValue
  pub submitted_keys : KeySet
  pub missing_source_dependencies : Dict KeySet
