-- ===== src/Facts/Kinds.antt =====
-- Which values a definition of an ordered kind allows.
use bardi.Prelude.{◌≡◌, refl, subst, true, ℤ}
use bardi.Calendar.{Date}
use bardi.Facts.{FactKind, FactValue, FactDefinition, value_matches_kind, value_fits}

matches_integer :
    (d : FactDefinition) (v : FactValue)
    → value_matches_kind d FactKind.integer v ≡ true
    → (n : ℤ) × (v ≡ FactValue.int n)
unfolding value_matches_kind
matches_integer d (FactValue.int n) h = (n, refl)
matches_integer d (FactValue.bool b) h = cc
matches_integer d (FactValue.date x) h = cc
matches_integer d (FactValue.str x) h = cc

pub value_fits-integer :
    (d : FactDefinition) (v : FactValue)
    → d.kind ≡ FactKind.integer
    → value_fits d v ≡ true
    → (n : ℤ) × (v ≡ FactValue.int n)
unfolding value_fits
value_fits-integer d v k h = matches_integer d v (subst (λ x. value_matches_kind d x v ≡ true) k h)

matches_date :
    (d : FactDefinition) (v : FactValue)
    → value_matches_kind d FactKind.date v ≡ true
    → (n : Date) × (v ≡ FactValue.date n)
unfolding value_matches_kind
matches_date d (FactValue.date x) h = (x, refl)
matches_date d (FactValue.int n) h = cc
matches_date d (FactValue.bool b) h = cc
matches_date d (FactValue.str x) h = cc

pub value_fits-date :
    (d : FactDefinition) (v : FactValue)
    → d.kind ≡ FactKind.date
    → value_fits d v ≡ true
    → (n : Date) × (v ≡ FactValue.date n)
unfolding value_fits
value_fits-date d v k h = matches_date d v (subst (λ x. value_matches_kind d x v ≡ true) k h)

pub date-value_fits :
    (d : FactDefinition) (x : Date)
    → d.kind ≡ FactKind.date
    → value_fits d (FactValue.date x) ≡ true
unfolding value_fits value_matches_kind
date-value_fits d x k = rw k refl
