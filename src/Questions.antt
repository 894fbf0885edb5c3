-- ===== src/Questions.antt =====
-- backend/planning/questions.py: which Question asks for the missing Facts.
pub mod Laws
use bardi.Prelude.{
  String, Bool, not, ◌&&◌, ◌||◌, Option, none, some, List, [], ◌∷◌, map, int_lt, int_eq, str_lt,
  ◌+++◌, any, filter, length, is_empty, some_and, none_or, eqb, if◌then◌else◌, Result, ok, raise,
  value_error,
}
use bardi.KeySet
use bardi.KeySet.{KeySet}
use bardi.Dict
use bardi.Facts.{FactDefinition, Definitions, PreparedFacts}
use bardi.Catalog.{KnowledgeSnapshot, QuestionSnapshot, ServiceSnapshot}
use bardi.Public.{AnswerDefinition, PlanningResult, next_question, invalid}

pub record ConsequentialQuestion : Type 0 where
  pub question : Option QuestionSnapshot
  pub diagnostic_codes : List String

pub data Profile : Type 0 where
  selection consequential : Profile

pub record Expansion : Type 0 where
  pub source_facts : KeySet
  pub defects : KeySet

-- `not dependencies or any(…)`: no dependency left, or one that the profile does not accept.
bad_source : Profile → Definitions → String → Bool
bad_source selection definitions source = some_and (λ d. d.derived) (Dict.get definitions source)
bad_source consequential definitions source = none_or (λ d. d.derived) (Dict.get definitions source)

add_dependencies : Profile → Definitions → String → Expansion → Option KeySet → Expansion
unfolding bad_source
add_dependencies profile definitions key s none = record s {
  defects = KeySet.add ("missing_source_dependencies:" +++ key) s.defects;
}
add_dependencies profile definitions key s (some dependencies) =
    if is_empty dependencies || any (bad_source profile definitions) dependencies
    then record s { defects = KeySet.add ("missing_source_dependencies:" +++ key) s.defects }
    else record s { source_facts = KeySet.union dependencies s.source_facts }

expand_defined :
    Profile → Definitions → PreparedFacts → String → Expansion → FactDefinition → Expansion
unfolding add_dependencies
expand_defined profile definitions prepared key s definition =
    if not definition.derived
    then record s { source_facts = KeySet.add key s.source_facts }
    else add_dependencies profile definitions key s
        (Dict.get prepared.missing_source_dependencies key)

-- One round of the loop over the missing Facts.
expand :
    Profile → Definitions → PreparedFacts → Expansion → String → Option FactDefinition → Expansion
unfolding expand_defined
expand consequential definitions prepared s key none = record s {
  defects = KeySet.add ("unknown_fact:" +++ key) s.defects;
}
expand selection definitions prepared s key none = record s {
  source_facts = KeySet.add key s.source_facts;
}
expand profile definitions prepared s key (some definition) =
    expand_defined profile definitions prepared key s definition

unfoldable pub expand_all : Profile → Definitions → PreparedFacts → Expansion → KeySet → Expansion
unfolding expand
expand_all profile definitions prepared s [] = s
expand_all profile definitions prepared s (key ∷ missing) =
    expand_all profile definitions prepared
      (expand profile definitions prepared s key (Dict.get definitions key)) missing

-- The keys that some Question resolves.
unfoldable pub covered_facts : List QuestionSnapshot → KeySet
covered_facts [] = []
covered_facts (q ∷ qs) = KeySet.union (KeySet.of_list q.resolved_fact_keys) (covered_facts qs)

-- `source_facts.intersection(question.resolved_fact_keys)` is not empty
abbrev pub resolves : KeySet → QuestionSnapshot → Bool
resolves source_facts q = any (λ k. KeySet.member k source_facts) q.resolved_fact_keys

-- `(left.priority, left.semantic_id) < (right.priority, right.semantic_id)`
unfoldable pub asked_before : QuestionSnapshot → QuestionSnapshot → Bool
asked_before left right =
    int_lt left.priority right.priority
    || (int_eq left.priority right.priority && str_lt left.semantic_id right.semantic_id)

-- `min`: the first of the least
least_from : QuestionSnapshot → List QuestionSnapshot → QuestionSnapshot
least_from best [] = best
least_from best (q ∷ qs) = least_from (if asked_before q best then q else best) qs

choose : Profile → String → List QuestionSnapshot → Result ConsequentialQuestion
unfolding least_from
choose selection prefix [] = raise value_error
choose consequential prefix [] =
    ok (record { question = none; diagnostic_codes = (prefix +++ ":no_source_fact") ∷ [] })
choose profile prefix (q ∷ qs) =
    ok (record { question = some (least_from q qs); diagnostic_codes = [] })

pick_from : Profile → String → ServiceSnapshot → Expansion → Result ConsequentialQuestion
unfolding choose
pick_from profile prefix service s =
    let uncovered = KeySet.difference s.source_facts (covered_facts service.questions) in
    if not (is_empty s.defects)
    then ok (record { question = none; diagnostic_codes = s.defects })
    else if not (is_empty uncovered)
    then ok (record {
      question = none;
      diagnostic_codes = map (λ key. prefix +++ ":" +++ key) uncovered;
    })
    else choose profile prefix (filter (resolves s.source_facts) service.questions)

unfoldable pub pick_question :
    Profile
    → String
    → KnowledgeSnapshot
    → ServiceSnapshot
    → PreparedFacts
    → KeySet
    → Result ConsequentialQuestion
unfolding pick_from
pick_question profile diagnostic_prefix snapshot service prepared_facts missing_facts =
    pick_from profile diagnostic_prefix service (
      expand_all profile snapshot.fact_definitions prepared_facts
        (record { source_facts = []; defects = [] }) missing_facts)

abbrev pub pick_procedure_selection_question :
    KnowledgeSnapshot → ServiceSnapshot → PreparedFacts → KeySet → Result ConsequentialQuestion
pick_procedure_selection_question = pick_question selection "missing_procedure_selection_question"

abbrev pub pick_consequential_question :
    String
    → KnowledgeSnapshot
    → ServiceSnapshot
    → PreparedFacts
    → KeySet
    → Result ConsequentialQuestion
pick_consequential_question = pick_question consequential

-- The answers that have a definition, in authored order.
answers_of : Definitions → List String → List AnswerDefinition
answers_of definitions [] = []
answers_of definitions (key ∷ keys) = elim (Dict.get definitions key) [
  | none ↦ answers_of definitions keys
  | some d ↦
      record { key = key; kind = d.kind; enum_options = d.enum_values; minimum = d.minimum }
      ∷ answers_of definitions keys
]

unfoldable pub question_result : KnowledgeSnapshot → String → QuestionSnapshot → PlanningResult
unfolding answers_of
question_result snapshot service_id question =
    let definitions = snapshot.fact_definitions in
    let keys = question.resolved_fact_keys in
    let answers = answers_of definitions keys in
    if not (eqb (length answers) (length keys))
      || any (λ key. some_and (λ d. d.derived) (Dict.get definitions key)) keys
    then invalid (record { code = "knowledge_configuration_invalid"; path = [] } ∷ [])
    else next_question service_id
        (record { id = question.semantic_id; text = question.text; answers = answers })
