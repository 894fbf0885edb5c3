-- ===== src/Operation/Prepared.antt =====
-- What the prepared Facts of a case have to do with the Facts that were submitted: they pass
-- validation twice, in `plan_stateless` and in `prepare_case`.
use bardi.Prelude.{◌≡◌, refl, sym, ap, ◌∙◌, inl, inr, String, none, some, [], ◌∷◌, In, is_some, ok}
use bardi.KeySet
use bardi.KeySet.{KeySet}
use bardi.Dict
use bardi.Dict.{Dict}
use bardi.Calendar.{Date}
use bardi.Facts.{FactValue, Object, Definitions, PreparedFacts, validate_submitted_facts}
use bardi.Facts.Submitted.{
  has_key, get-In, is_some-get, member-keys, validate_submitted_facts-Copies,
}
use bardi.Catalog.{ServiceSnapshot}
use bardi.CasePreparation.{success, derived_fact_dependencies, prepare_case}
use bardi.CasePreparation.Laws.{prepare_case-Keeps}
use bardi.Operation.{as_objects}

-- The prepared Facts are those of the submitted ones: the submitted keys, and under each key other
-- than the derived ones the submitted value; and they are what case preparation returns.
pub record IsPrepared (definitions : Definitions) (service : ServiceSnapshot)
    (submitted : Dict Object) (d : Date) (facts : PreparedFacts) : Type 0 where
  pub keys : (k : String) → KeySet.member k facts.submitted_keys ≡ has_key submitted k
  pub values :
      (k : String) (v : FactValue)
      → Dict.get derived_fact_dependencies k ≡ none
      → Dict.get facts.values k ≡ some v
      → In (k, Object.value v) submitted
  pub present :
      (k : String)
      → Dict.get derived_fact_dependencies k ≡ none
      → is_some (Dict.get facts.values k) ≡ has_key submitted k
  pub prepared :
      (source : Dict FactValue) × ((validate_submitted_facts definitions submitted).facts
        ≡ some source)
      × (prepare_case definitions service (as_objects source) d ≡ ok (success facts))

as_objects-In :
    (m : Dict FactValue) (k : String) (v : FactValue)
    → In (k, Object.value v) (as_objects m)
    → In (k, v) m
unfolding as_objects
as_objects-In [] k v n = elim n [ ]
as_objects-In ((j, w) ∷ m) k v (inl same) = inl (value_of j k w v same)
  where
    value_of :
        (j k : String) (w v : FactValue)
        → ◌≡◌ {A = String × Object} (j, Object.value w) (k, Object.value v)
        → ◌≡◌ {A = String × FactValue} (j, w) (k, v)
    value_of j k w v same = cc
as_objects-In ((j, w) ∷ m) k v (inr n) = inr (as_objects-In m k v n)

has_key-as_objects : (m : Dict FactValue) (k : String) → has_key (as_objects m) k ≡ has_key m k
unfolding as_objects
has_key-as_objects [] k = refl
has_key-as_objects ((j, v) ∷ m) k = rw (has_key-as_objects m k) refl

pub prepare_case-IsPrepared :
    (definitions : Definitions) (service : ServiceSnapshot) (submitted : Dict Object) (d : Date)
    (source : Dict FactValue) (facts : PreparedFacts)
    → (validate_submitted_facts definitions submitted).facts ≡ some source
    → prepare_case definitions service (as_objects source) d ≡ ok (success facts)
    → IsPrepared definitions service submitted d facts
prepare_case-IsPrepared definitions service submitted d source facts first run =
    let (_, (again, second, (submitted_keys, kept))) =
      prepare_case-Keeps definitions service (as_objects source) d facts run in
    let (copied, same_keys) = validate_submitted_facts-Copies definitions submitted source first in
    let (copied_again, same_again) =
      validate_submitted_facts-Copies definitions (as_objects source) again second in
    let listed : (k : String) → has_key again k ≡ has_key submitted k =
      λ k. same_again k ∙ has_key-as_objects source k ∙ same_keys k in
    record {
      keys = λ k. ap (KeySet.member k) submitted_keys ∙ member-keys again k ∙ listed k;
      values = λ k v source_key e. copied k v (
          as_objects-In source k v
            (copied_again k v (get-In again k v (sym (kept k source_key) ∙ e))));
      present = λ k source_key. ap is_some (kept k source_key) ∙ is_some-get again k ∙ listed k;
      prepared = (source, first, run);
    }
