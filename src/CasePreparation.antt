-- ===== src/CasePreparation.antt =====
-- backend/planning/case_preparation.py: derived Facts and contradictions.
pub mod Laws
use bardi.Prelude.{
  String, Bool, true, false, not, ◌&&◌, ◌||◌, Option, none, some, List, [], ◌∷◌, map, ℤ, pos,
  int_eq, ltb, eqb, str_eq, ◌+++◌, any, length, is_empty, is_some, some_and, none_or, if◌then◌else◌,
  Result, ok, raise, assertion_error, key_error, ◌>>=◌,
}
use bardi.KeySet
use bardi.KeySet.{KeySet}
use bardi.Dict
use bardi.Dict.{Dict}
use bardi.Calendar.{Date, date_lt, completed_years, add_calendar_months}
use bardi.Rules.{Predicate, Predicates}
use bardi.Facts.{
  FactKind, FactValue, FactDefinition, Definitions, Object, PathSegment, ValidationDiagnostic,
  PreparedFacts, validate_submitted_facts,
}
use bardi.Facts.Registry.{fact_definitions}
use bardi.Evaluator.{EvaluationTrace, Traces, is_true, truth_eq, evaluate}
use bardi.Catalog.{ServiceSnapshot, ContradictionSnapshot}

-- In ascending order, which is how `prepare_case` goes through them.
abbrev pub derived_fact_dependencies : Dict KeySet
derived_fact_dependencies =
    ("age_years_on_evaluation_date", "birth_date" ∷ [])
    ∷ ("card_expired_before_evaluation_date", "national_id_expiry_date" ∷ [])
    ∷ ("only_son_candidate", "father_alive" ∷ "other_living_sons_of_father_count" ∷ [])
    ∷ ("renewal_deadline_date", "national_id_expiry_date" ∷ [])
    ∷ ("renewal_deadline_passed", "national_id_expiry_date" ∷ [])
    ∷ []

pub data CasePreparationOutcome : Type 0 where
  success : PreparedFacts → CasePreparationOutcome
  invalid : List ValidationDiagnostic → CasePreparationOutcome
  configuration_defect : (diagnostic_codes : List String) → CasePreparationOutcome

-- `==` on tuples of texts; a set is its ascending list.
texts_eq : List String → List String → Bool
texts_eq [] [] = true
texts_eq (x ∷ xs) (y ∷ ys) = str_eq x y && texts_eq xs ys
texts_eq _ _ = false

kind_eq : FactKind → FactKind → Bool
kind_eq FactKind.enum FactKind.enum = true
kind_eq FactKind.integer FactKind.integer = true
kind_eq FactKind.boolean FactKind.boolean = true
kind_eq FactKind.date FactKind.date = true
kind_eq FactKind.string FactKind.string = true
kind_eq _ _ = false

minimum_eq : Option ℤ → Option ℤ → Bool
minimum_eq none none = true
minimum_eq (some m) (some n) = int_eq m n
minimum_eq _ _ = false

same_flag : Bool → Bool → Bool
same_flag true b = b
same_flag false b = not b

-- `==` of the dataclass
definition_eq : FactDefinition → FactDefinition → Bool
unfolding texts_eq kind_eq minimum_eq same_flag
definition_eq a b =
    str_eq a.key b.key
    && (kind_eq a.kind b.kind
        && (texts_eq a.enum_values b.enum_values
            && (minimum_eq a.minimum b.minimum && same_flag a.derived b.derived)))

unfoldable pub derived_definition_is_compatible : FactDefinition → Bool
unfolding definition_eq
derived_definition_is_compatible definition =
    definition.derived
    && (some_and (λ expected. expected.derived && definition_eq definition expected)
          (Dict.get fact_definitions definition.key)
        && is_some (Dict.get derived_fact_dependencies definition.key))

unfoldable mutual
  pub referenced_fact_keys : Predicate → KeySet
  referenced_fact_keys (Predicate.predicate op none expected children) = referenced_by_all children
  referenced_fact_keys (Predicate.predicate op (some fact) expected children) =
      KeySet.add fact (referenced_by_all children)

  pub referenced_by_all : Predicates → KeySet
  referenced_by_all Predicates.nil = []
  referenced_by_all (Predicates.cons p ps) =
      KeySet.union (referenced_fact_keys p) (referenced_by_all ps)

unfoldable mutual
  influential_submitted_fact_keys : EvaluationTrace → KeySet
  influential_submitted_fact_keys (EvaluationTrace.trace node children) =
      let below = influential_children children in
      if not node.affected_result then [] else named node.fact_key node.submitted below
    where
      named : Option String → Option Bool → KeySet → KeySet
      named (some fact) (some true) below = KeySet.add fact below
      named _ _ below = below

  influential_children : Traces → KeySet
  influential_children Traces.nil = []
  influential_children (Traces.cons t ts) =
      KeySet.union (influential_submitted_fact_keys t) (influential_children ts)

-- The value of a derived Fact, or the source Fact whose value is refused.
pub data Derived : Type 0 where
  computed : FactValue → Derived
  refused : (source : String) → Derived

lookup : Dict FactValue → String → Result FactValue
lookup source_values key = elim (Dict.get source_values key) [
  | none ↦ raise key_error
  | some v ↦ ok v
]

age_at : Date → FactValue → Derived
age_at d (FactValue.date birth) =
    if date_lt d birth
    then refused "birth_date"
    else computed (FactValue.int (completed_years birth d))
age_at d _ = refused "birth_date"

-- The overflow of the deadline is a refusal too.
from_deadline : (Date → FactValue) → Option Date → Derived
from_deadline value none = refused "national_id_expiry_date"
from_deadline value (some deadline) = computed (value deadline)

from_expiry : String → Date → FactValue → Derived
unfolding from_deadline
from_expiry key d (FactValue.date expiry) =
    if str_eq key "card_expired_before_evaluation_date"
    then computed (FactValue.bool (date_lt expiry d))
    else from_deadline
        (λ deadline.
          if str_eq key "renewal_deadline_date"
          then FactValue.date deadline
          else FactValue.bool (date_lt deadline d))
        (add_calendar_months expiry 3)
from_expiry key d _ = refused "national_id_expiry_date"

-- `x is True` and `x == 0`: in Python `False == 0`.
is_the_true : FactValue → Bool
is_the_true (FactValue.bool b) = b
is_the_true _ = false

equals_zero : FactValue → Bool
equals_zero (FactValue.int n) = int_eq n (pos 0)
equals_zero (FactValue.bool b) = not b
equals_zero _ = false

unfoldable pub derive : Date → Dict FactValue → String → Result Derived
unfolding lookup age_at from_expiry is_the_true equals_zero
derive d source_values key =
    if str_eq key "age_years_on_evaluation_date"
    then (lookup source_values "birth_date" >>= λ v. ok (age_at d v))
    else if str_eq key "card_expired_before_evaluation_date"
        || (str_eq key "renewal_deadline_date" || str_eq key "renewal_deadline_passed")
    then (lookup source_values "national_id_expiry_date" >>= λ v. ok (from_expiry key d v))
    else (lookup source_values "father_alive" >>= λ alive.
        lookup source_values "other_living_sons_of_father_count" >>= λ sons.
        ok (computed (FactValue.bool (is_the_true alive && equals_zero sons))))

pub record Deriving : Type 0 where
  pub values : Dict FactValue
  pub missing : Dict KeySet
  pub invalid_source : Option String

record_derived : Deriving → String → Derived → Deriving
record_derived s key (computed v) = record s { values = Dict.put s.values key v }
record_derived s key (refused source) = record s { invalid_source = some source }

-- One round of the loop; after a refusal the function has returned.
derive_defined :
    Date → Dict FactValue → Deriving → String → KeySet → FactDefinition → Result Deriving
unfolding derive record_derived
derive_defined d source_values s key dependencies definition =
    let omitted = KeySet.difference dependencies (Dict.keys source_values) in
    if not (derived_definition_is_compatible definition)
    then raise assertion_error
    else if not (is_empty omitted)
    then ok (record s { missing = Dict.put s.missing key omitted })
    else (derive d source_values key >>= λ v. ok (record_derived s key v))

derive_found :
    Date → Dict FactValue → Deriving → String → KeySet → Option FactDefinition → Result Deriving
unfolding derive_defined
derive_found d source_values s key dependencies none = ok s
derive_found d source_values s key dependencies (some definition) =
    derive_defined d source_values s key dependencies definition

unfoldable pub derive_all :
    Definitions → Date → Dict FactValue → Deriving → Dict KeySet → Result Deriving
unfolding derive_found
derive_all definitions d source_values s [] = ok s
derive_all definitions d source_values s ((key, dependencies) ∷ rest) =
    derive_found d source_values s key dependencies (Dict.get definitions key) >>= λ t.
    if is_some t.invalid_source then ok t else derive_all definitions d source_values t rest

-- The tests on a contradiction that its configuration passes.
unfoldable pub is_well_declared : Definitions → ContradictionSnapshot → Bool
unfolding texts_eq
is_well_declared definitions contradiction =
    let declared = contradiction.fact_keys in
    not (ltb (length declared) 2)
    && (eqb (length (KeySet.of_list declared)) (length declared)
        && (texts_eq (KeySet.of_list declared) (referenced_fact_keys contradiction.condition)
            && not (
                any (λ key. none_or (λ definition. definition.derived) (Dict.get definitions key))
                  declared)))

-- `none` is the return of a configuration defect.
unfoldable pub contradictory_keys :
    Definitions → PreparedFacts → KeySet → List ContradictionSnapshot → Result (Option KeySet)
unfolding influential_submitted_fact_keys
contradictory_keys definitions prepared keys [] = ok (some keys)
contradictory_keys definitions prepared keys (c ∷ rest) =
    if not (is_well_declared definitions c)
    then ok none
    else (evaluate c.condition prepared.values prepared.submitted_keys >>= λ e.
        let found =
          if truth_eq e.value is_true then influential_submitted_fact_keys e.trace else [] in
        contradictory_keys definitions prepared (KeySet.union found keys) rest)

-- The keys of the derived definitions that no implementation is pinned for, ascending.
unfoldable pub incompatible_keys : Definitions → KeySet
incompatible_keys [] = []
incompatible_keys ((key, definition) ∷ rest) =
    let others = incompatible_keys rest in
    if definition.derived && not (derived_definition_is_compatible definition)
    then KeySet.add key others
    else others

abbrev facts_diagnostic : String → String → ValidationDiagnostic
facts_diagnostic code key = record {
  code = code;
  path = PathSegment.name "facts" ∷ PathSegment.name key ∷ [];
}

report : PreparedFacts → Option KeySet → CasePreparationOutcome
report prepared none = configuration_defect ("invalid_contradiction_definition" ∷ [])
report prepared (some keys) =
    if not (is_empty keys)
    then invalid (map (facts_diagnostic "contradictory_facts") keys)
    else success prepared

abbrev prepared_of : Dict FactValue → Deriving → PreparedFacts
prepared_of source_values s = record {
  values = s.values;
  submitted_keys = Dict.keys source_values;
  missing_source_dependencies = s.missing;
}

conclude :
    Definitions
    → ServiceSnapshot
    → PreparedFacts
    → (invalid_source : Option String) → Result CasePreparationOutcome
unfolding report
conclude definitions service prepared (some source) =
    ok (invalid (facts_diagnostic ("invalid_fact_value:" +++ source) source ∷ []))
conclude definitions service prepared none =
    contradictory_keys definitions prepared [] service.contradictions >>= λ keys.
    ok (report prepared keys)

prepare_validated :
    Definitions
    → ServiceSnapshot
    → Date
    → List ValidationDiagnostic
    → Option (Dict FactValue)
    → Result CasePreparationOutcome
unfolding conclude
prepare_validated definitions service evaluation_date diagnostics none = ok (invalid diagnostics)
prepare_validated definitions service evaluation_date diagnostics (some source_values) =
    derive_all definitions evaluation_date source_values
      (record { values = source_values; missing = []; invalid_source = none })
      derived_fact_dependencies
    >>= λ s. conclude definitions service (prepared_of source_values s) s.invalid_source

-- The evaluation date is a `Date`, so the test of its type always passes.
unfoldable pub prepare_case :
    Definitions → ServiceSnapshot → Dict Object → Date → Result CasePreparationOutcome
unfolding prepare_validated
prepare_case definitions service submitted_facts evaluation_date =
    let incompatible = incompatible_keys definitions in
    let validation = validate_submitted_facts definitions submitted_facts in
    if not (is_empty incompatible)
    then ok (configuration_defect (map (λ key. "unsupported_derived_fact:" +++ key) incompatible))
    else prepare_validated definitions service evaluation_date validation.diagnostics
        validation.facts
