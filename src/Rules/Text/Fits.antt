-- ===== src/Rules/Text/Fits.antt =====
-- backend/planning/rules.py: a literal that _decode_literal accepts is a value of its definition.
use bardi.Prelude.{
  ◌≡◌, refl, subst, String, true, Option, none, some, if-cases, inl, inr, some_inj, str_eq,
}
use bardi.Calendar.{Date}
use bardi.Facts.{FactKind, FactValue, FactDefinition, Object, value_fits}
use bardi.Facts.Kinds.{date-value_fits}
use bardi.Rules.Text.{
  DateText, canonical, decode_date, decode_plain, decode_kind, decode_literal, envelope_text,
}

module _ (dates : DateText) (d : FactDefinition) (v : FactValue) where
  decode_plain-fits : (raw : Object) → decode_plain dates d raw ≡ some v → value_fits d v ≡ true
  unfolding decode_plain
  decode_plain-fits (Object.value w) h = elim (if-cases (value_fits d w) (some w) none h) [
    | inl (fits, e) ↦ subst (λ x. value_fits d x ≡ true) (some_inj e) fits
    | inr (_, e) ↦ cc
  ]
  decode_plain-fits (Object.list x) h = cc
  decode_plain-fits (Object.dict x) h = cc
  decode_plain-fits Object.opaque h = cc

  canonical-fits :
      (text : String) (o : Option Date)
      → d.kind ≡ FactKind.date
      → canonical dates text o ≡ some v
      → value_fits d v ≡ true
  unfolding canonical
  canonical-fits text none k h = cc
  canonical-fits text (some day) k h =
      elim (if-cases (str_eq (dates.isoformat day) text) (some (FactValue.date day)) none h) [
        | inl (_, same) ↦
            subst (λ x. value_fits d x ≡ true) (some_inj same) (date-value_fits d day k)
        | inr (_, other) ↦ cc
      ]

  decode_date-fits :
      (text : Option String)
      → d.kind ≡ FactKind.date
      → decode_date dates text ≡ some v
      → value_fits d v ≡ true
  unfolding decode_date
  decode_date-fits none k h = cc
  decode_date-fits (some text) k h = canonical-fits text (dates.fromisoformat text) k h

  decode_kind-fits :
      (k : FactKind) (raw : Object)
      → d.kind ≡ k
      → decode_kind dates k d raw ≡ some v
      → value_fits d v ≡ true
  unfolding decode_kind
  decode_kind-fits FactKind.date raw k h = decode_date-fits (envelope_text dates raw) k h
  decode_kind-fits FactKind.enum raw k h = decode_plain-fits raw h
  decode_kind-fits FactKind.integer raw k h = decode_plain-fits raw h
  decode_kind-fits FactKind.boolean raw k h = decode_plain-fits raw h
  decode_kind-fits FactKind.string raw k h = decode_plain-fits raw h

  pub decode_literal-fits :
      (raw : Object) → decode_literal dates d raw ≡ some v → value_fits d v ≡ true
  unfolding decode_literal
  decode_literal-fits raw h = decode_kind-fits d.kind raw refl h
