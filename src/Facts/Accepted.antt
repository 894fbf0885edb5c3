-- ===== src/Facts/Accepted.antt =====
-- Submitted Facts that are accepted are typed by the definitions.
use bardi.Prelude.{
  ◌≡◌, refl, subst, sym, ◌∙◌, inl, inr, String, true, some, List, [], ◌∷◌, is_empty, sort, str_lt,
  str_eq, Bool-cases, Option-cases, if-cases, some_inj, if◌then◌else◌, eq_iff,
}
use bardi.Dict
use bardi.Dict.{Dict}
use bardi.Facts.{
  Definitions, FactDefinition, FactValue, Object, Checked, refused, accepted, check_value,
  fact_diagnostic, value_fits, check_fact, Copying, record_checked, validate_from,
  validate_submitted_facts,
}
use bardi.Rules.Typing.{IsTyped}

module _ (definitions : Definitions) where
  none-IsTyped : IsTyped definitions []
  unfolding Dict.get
  none-IsTyped key v h = cc

  put-IsTyped :
      (facts : Dict FactValue) (key : String) (v : FactValue) (d : FactDefinition)
      → IsTyped definitions facts
      → Dict.get definitions key ≡ some d
      → value_fits d v ≡ true
      → IsTyped definitions (Dict.put facts key v)
  put-IsTyped facts key v d typed known fits k w e =
      let q : (if str_eq key k then some v else Dict.get facts k) ≡ some w =
        sym (Dict.get-put facts key k v) ∙ e in
      elim (if-cases (str_eq key k) (some v) (Dict.get facts k) q) [
        | inl (same, r) ↦
            let s : key ≡ k = (eq_iff key k).0 same in
            (
              d,
              subst (λ j. Dict.get definitions j ≡ some d) s known,
              subst (λ x. value_fits d x ≡ true) (some_inj r) fits,
            )
        | inr (_, r) ↦ typed k w r
      ]

  pub accepted_inj : (v w : FactValue) → accepted v ≡ accepted w → v ≡ w
  accepted_inj v w h = cc

  check_value-fits :
      (d : FactDefinition) (key : String) (raw : Object) (v : FactValue)
      → check_value d key raw ≡ accepted v
      → value_fits d v ≡ true
  unfolding check_value
  check_value-fits d key (Object.value w) v h =
      elim (if-cases (value_fits d w) (accepted w)
        (refused (fact_diagnostic "invalid_fact_value:" key)) h) [
          | inl (fits, e) ↦ subst (λ x. value_fits d x ≡ true) (accepted_inj w v e) fits
          | inr (_, e) ↦ cc
        ]
  check_value-fits d key (Object.list x) v h = cc
  check_value-fits d key (Object.dict x) v h = cc
  check_value-fits d key Object.opaque v h = cc

  check_fact-fits :
      (key : String) (raw : Object) (v : FactValue)
      → check_fact definitions key raw ≡ accepted v
      → (d : FactDefinition) × (Dict.get definitions key ≡ some d) × (value_fits d v ≡ true)
  unfolding check_fact
  check_fact-fits key raw v h = elim (Option-cases (Dict.get definitions key)) [
    | inl e ↦ let q = rw (e, check_fact) at h in cc
    | inr (d, e) ↦ (
      d,
      e,
      elim (if-cases d.derived (refused (fact_diagnostic "derived_fact_cannot_be_submitted:" key))
          (check_value d key raw) (rw (e, check_fact) at h)) [
            | inl (_, q) ↦ cc
            | inr (_, q) ↦ check_value-fits d key raw v q
          ],
    )
  ]

  record_checked-IsTyped :
      (s : Copying) (key : String) (c : Checked)
      → ((v : FactValue)
          → c ≡ accepted v
          → (d : FactDefinition) × (Dict.get definitions key ≡ some d) × (value_fits d v ≡ true))
      → IsTyped definitions s.copied
      → IsTyped definitions (record_checked s key c).copied
  unfolding record_checked
  record_checked-IsTyped s key (refused d) h typed = typed
  record_checked-IsTyped s key (accepted v) h typed =
      let (d, known, fits) = h v refl in put-IsTyped s.copied key v d typed known fits

  validate_from-IsTyped :
      (s : Copying) (facts : List (String × Object))
      → IsTyped definitions s.copied
      → IsTyped definitions (validate_from definitions s facts).copied
  unfolding validate_from
  validate_from-IsTyped s [] typed = typed
  validate_from-IsTyped s ((key, raw) ∷ facts) typed =
      validate_from-IsTyped (record_checked s key (check_fact definitions key raw)) facts (
        record_checked-IsTyped s key (check_fact definitions key raw) (check_fact-fits key raw)
          typed)

-- Every value among the submitted Facts that are accepted is one that the definition of its Fact
-- allows.
pub validate_submitted_facts-IsTyped :
    (definitions : Definitions) (raw : Dict Object) (facts : Dict FactValue)
    → (validate_submitted_facts definitions raw).facts ≡ some facts
    → IsTyped definitions facts
unfolding validate_submitted_facts
validate_submitted_facts-IsTyped definitions raw facts h =
    let start : Copying = record { diagnostics = []; copied = [] } in
    let s = validate_from definitions start (sort (λ a b. str_lt a.0 b.0) raw) in
    let typed =
      validate_from-IsTyped definitions start (sort (λ a b. str_lt a.0 b.0) raw)
        (none-IsTyped definitions) in
    elim (Bool-cases (is_empty s.diagnostics)) [
      | inl e ↦ subst (IsTyped definitions) (some_inj (rw e at h)) typed
      | inr e ↦ let q = rw e at h in cc
    ]
