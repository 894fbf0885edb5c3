-- ===== src/CasePreparation/Laws.antt =====
-- What case preparation keeps of the submitted Facts.
use bardi.Prelude.{
  ◌≡◌, refl, sym, ap, subst, ◌∙◌, ◌⊎◌, inl, inr, ◌>>=◌, String, true, false, not, Option, none,
  some, List, [], ◌∷◌, is_empty, is_some, if-cases, not_false, str_eq, ok, >>=-eq-ok, ok-injective,
  arith,
}
use bardi.KeySet.{KeySet}
use bardi.Dict
use bardi.Dict.{Dict}
use bardi.Calendar.{Date}
use bardi.Facts.{
  FactValue, FactDefinition, Definitions, Object, PreparedFacts, ValidationDiagnostic,
  validate_submitted_facts,
}
use bardi.Catalog.{ServiceSnapshot}
use bardi.CasePreparation.{
  success, derived_fact_dependencies, Derived, computed, refused, derive, Deriving, record_derived,
  derive_defined, derive_found, derive_all, contradictory_keys, incompatible_keys, report, conclude,
  prepared_of, prepare_validated, prepare_case,
}

record_derived-values :
    (s : Deriving) (key j : String) (v : Derived)
    → str_eq key j ≡ false
    → Dict.get (record_derived s key v).values j ≡ Dict.get s.values j
unfolding record_derived
record_derived-values s key j (computed v) other =
    rw (Dict.get-put s.values key j v) (rw other refl)
record_derived-values s key j (refused source) other = refl

derive_defined-cases :
    (d : Date) (facts : Dict FactValue) (s t : Deriving) (key : String) (dependencies : KeySet)
    (definition : FactDefinition)
    → derive_defined d facts s key dependencies definition ≡ ok t
    → (t.values ≡ s.values) ⊎ ((derive d facts key >>= λ v. ok (record_derived s key v)) ≡ ok t)
unfolding derive_defined
derive_defined-cases d facts s t key dependencies definition h = ground arith

derive_defined-values :
    (d : Date) (facts : Dict FactValue) (s t : Deriving) (key j : String) (dependencies : KeySet)
    (definition : FactDefinition)
    → derive_defined d facts s key dependencies definition ≡ ok t
    → str_eq key j ≡ false
    → Dict.get t.values j ≡ Dict.get s.values j
derive_defined-values d facts s t key j dependencies definition h other =
    elim (derive_defined-cases d facts s t key dependencies definition h) [
      | inl same ↦ ap (λ m. Dict.get m j) same
      | inr run ↦
          let (v, _, once) =
            >>=-eq-ok (derive d facts key) (λ v. ok (record_derived s key v)) run in
          subst (λ x. Dict.get x.values j ≡ Dict.get s.values j) (ok-injective once)
            (record_derived-values s key j v other)
    ]

derive_found-values :
    (d : Date) (facts : Dict FactValue) (s t : Deriving) (key j : String) (dependencies : KeySet)
    (definition : Option FactDefinition)
    → derive_found d facts s key dependencies definition ≡ ok t
    → str_eq key j ≡ false
    → Dict.get t.values j ≡ Dict.get s.values j
unfolding derive_found
derive_found-values d facts s t key j dependencies none h other =
    ap (λ x. Dict.get x.values j) (sym (ok-injective h))
derive_found-values d facts s t key j dependencies (some definition) h other =
    derive_defined-values d facts s t key j dependencies definition h other

derive_all-values :
    (definitions : Definitions) (d : Date) (facts : Dict FactValue) (s t : Deriving)
    (rest : Dict KeySet) (j : String)
    → derive_all definitions d facts s rest ≡ ok t
    → Dict.get rest j ≡ none
    → Dict.get t.values j ≡ Dict.get s.values j
unfolding derive_all Dict.get
derive_all-values definitions d facts s t [] j h absent =
    ap (λ x. Dict.get x.values j) (sym (ok-injective h))
derive_all-values definitions d facts s t ((key, dependencies) ∷ rest) j h absent =
    let (u, once, more) =
      >>=-eq-ok (derive_found d facts s key dependencies (Dict.get definitions key)) _ h in
    let (other, absent_later) = not_listed key j dependencies rest absent in
    let first = derive_found-values d facts s u key j dependencies _ once other in
    elim (if-cases (is_some u.invalid_source) _ _ more) [
      | inl (_, stop) ↦ ap (λ x. Dict.get x.values j) (sym (ok-injective stop)) ∙ first
      | inr (_, go) ↦ derive_all-values definitions d facts u t rest j go absent_later ∙ first
    ]
  where
    not_listed :
        (key j : String) (dependencies : KeySet) (rest : Dict KeySet)
        → Dict.get ((key, dependencies) ∷ rest) j ≡ none
        → (str_eq key j ≡ false) × (Dict.get rest j ≡ none)
    not_listed key j dependencies rest absent = ground arith

report-success :
    (prepared result : PreparedFacts) (keys : Option KeySet)
    → report prepared keys ≡ success result
    → prepared ≡ result
unfolding report
report-success prepared result none e = cc
report-success prepared result (some keys) e = elim (if-cases (not (is_empty keys)) _ _ e) [
  | inl (_, q) ↦ cc q
  | inr (_, q) ↦ cc q
]

conclude-success :
    (definitions : Definitions) (service : ServiceSnapshot) (prepared result : PreparedFacts)
    (invalid_source : Option String)
    → conclude definitions service prepared invalid_source ≡ ok (success result)
    → prepared ≡ result
unfolding conclude
conclude-success definitions service prepared result (some source) h = cc
conclude-success definitions service prepared result none h =
    let (keys, _, k) =
      >>=-eq-ok (contradictory_keys definitions prepared [] service.contradictions) _ h in
    report-success prepared result keys (ok-injective k)

-- What the prepared Facts keep of the validated ones.
abbrev pub Keeps : Dict FactValue → PreparedFacts → Type 0
Keeps facts prepared =
    (prepared.submitted_keys ≡ Dict.keys facts)
    × ((key : String)
        → Dict.get derived_fact_dependencies key ≡ none
        → Dict.get prepared.values key ≡ Dict.get facts key)

prepare_validated-Keeps :
    (definitions : Definitions) (service : ServiceSnapshot) (d : Date)
    (diagnostics : List ValidationDiagnostic) (facts : Option (Dict FactValue))
    (prepared : PreparedFacts)
    → prepare_validated definitions service d diagnostics facts ≡ ok (success prepared)
    → (source : Dict FactValue) × (facts ≡ some source) × Keeps source prepared
unfolding prepare_validated
prepare_validated-Keeps definitions service d diagnostics none prepared h = cc
prepare_validated-Keeps definitions service d diagnostics (some source) prepared h =
    let start : Deriving = record { values = source; missing = []; invalid_source = none } in
    let (s, run, k) =
      >>=-eq-ok (derive_all definitions d source start derived_fact_dependencies) _ h in
    let same = conclude-success definitions service (prepared_of source s) prepared _ k in
    let kept : Keeps source (prepared_of source s) =
      (refl, λ key absent. derive_all-values definitions d source start s _ key run absent) in
    (source, refl, subst (Keeps source) same kept)

-- Where a case is prepared, every derived definition of the registry has its pinned implementation
-- and the submitted Facts pass validation; the submitted keys are those of the validated Facts; and
-- every key other than the five derived ones has its validated value, or none.
pub prepare_case-Keeps :
    (definitions : Definitions) (service : ServiceSnapshot) (submitted : Dict Object) (d : Date)
    (prepared : PreparedFacts)
    → prepare_case definitions service submitted d ≡ ok (success prepared)
    → (is_empty (incompatible_keys definitions) ≡ true)
      × ((source : Dict FactValue) × ((validate_submitted_facts definitions submitted).facts
            ≡ some source)
          × Keeps source prepared)
unfolding prepare_case
prepare_case-Keeps definitions service submitted d prepared h =
    elim (if-cases (not (is_empty (incompatible_keys definitions))) _ _ h) [
      | inl (_, q) ↦ cc q
      | inr (compatible, q) ↦
          (not_false _ compatible, prepare_validated-Keeps definitions service d _ _ prepared q)
    ]
