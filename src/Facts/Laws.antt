-- ===== src/Facts/Laws.antt =====
-- Which submitted Facts are accepted.
use bardi.Prelude.{
  ◌≡◌, refl, inl, inr, String, Bool, true, false, not, ◌&&◌, none, some, List, [], ◌∷◌, is_empty,
  all, sort, all-sort, is_some, str_lt, Option-cases, arith,
}
use bardi.Dict
use bardi.Dict.{Dict}
use bardi.Facts.{
  Definitions, FactDefinition, Object, Checked, refused, accepted, check_value,
  value_matches_definition, check_fact, Copying, record_checked, validate_from,
  validate_submitted_facts,
}

-- The entry is a source Fact of the registry, and the value is one that its definition allows.
abbrev pub is_valid_entry : Definitions → String × Object → Bool
is_valid_entry definitions (key, raw) = elim (Dict.get definitions key) [
  | none ↦ false
  | some definition ↦ not definition.derived && value_matches_definition definition raw
]

abbrev pub is_accepted : Checked → Bool
is_accepted (refused d) = false
is_accepted (accepted v) = true

check_value-is_accepted :
    (definition : FactDefinition) (key : String) (raw : Object)
    → is_accepted (check_value definition key raw) ≡ value_matches_definition definition raw
unfolding check_value value_matches_definition
check_value-is_accepted definition key (Object.value v) = ground arith
check_value-is_accepted definition key (Object.list xs) = refl
check_value-is_accepted definition key (Object.dict xs) = refl
check_value-is_accepted definition key Object.opaque = refl

check_fact-is_accepted :
    (definitions : Definitions) (key : String) (raw : Object)
    → is_accepted (check_fact definitions key raw) ≡ is_valid_entry definitions (key, raw)
unfolding check_fact
check_fact-is_accepted definitions key raw = elim (Option-cases (Dict.get definitions key)) [
  | inl e ↦ ground arith
  | inr (definition, e) ↦ ground (arith, check_value-is_accepted definition key raw)
]

pub record_checked-is_empty :
    (s : Copying) (key : String) (c : Checked)
    → is_empty (record_checked s key c).diagnostics ≡ (is_empty s.diagnostics && is_accepted c)
unfolding record_checked
record_checked-is_empty s key (refused d) = ground arith
record_checked-is_empty s key (accepted v) = ground arith

pub is_empty-validate_from :
    (definitions : Definitions) (s : Copying) (facts : List (String × Object))
    → is_empty (validate_from definitions s facts).diagnostics
      ≡ (is_empty s.diagnostics && all (is_valid_entry definitions) facts)
unfolding validate_from
is_empty-validate_from definitions s [] = ground arith
is_empty-validate_from definitions s ((key, raw) ∷ facts) = ground (
  arith,
  is_empty-validate_from definitions (record_checked s key (check_fact definitions key raw)) facts,
  record_checked-is_empty s key (check_fact definitions key raw),
  check_fact-is_accepted definitions key raw,
)

-- Submitted Facts are returned exactly if every entry is a source Fact of the registry with a value
-- that its definition allows, and no diagnostic is reported exactly then.
pub validate_submitted_facts-is_valid_entry :
    (definitions : Definitions) (facts : Dict Object)
    → let r = validate_submitted_facts definitions facts in
      (is_some r.facts ≡ all (is_valid_entry definitions) facts)
      × (is_empty r.diagnostics ≡ all (is_valid_entry definitions) facts)
unfolding validate_submitted_facts
validate_submitted_facts-is_valid_entry definitions facts = ground (
  arith,
  is_empty-validate_from definitions (record { diagnostics = []; copied = [] })
      (sort (λ a b. str_lt a.0 b.0) facts),
  all-sort (λ a b. str_lt a.0 b.0) (is_valid_entry definitions) facts,
)
