-- ===== src/Table.antt =====
-- Dicts whose keys are not texts: the last value that was set for a key.
use bardi.Prelude.{◌≡◌, refl, Bool, true, Option, none, some, List, [], ◌∷◌, if◌then◌else◌, arith}

abbrev pub Table : Type 0 → Type 0 → Type 0
Table K V = List (K × V)

module _ {K V : Type 0} (same : K → K → Bool) where
  unfoldable pub lookup : Table K V → K → Option V
  lookup [] k = none
  lookup ((j, v) ∷ t) k = if same j k then some v else lookup t k

  unfoldable pub set : Table K V → K → V → Table K V
  set [] k v = (k, v) ∷ []
  set ((j, w) ∷ t) k v = if same j k then (k, v) ∷ t else (j, w) ∷ set t k v

  module _ (same_sym : (a b : K) → same a b ≡ same b a)
      (same_cong : (a b c : K) → same a b ≡ true → same a c ≡ same b c) where
    pub lookup-set :
        (t : Table K V) (k j : K) (v : V)
        → lookup (set t k v) j ≡ (if same k j then some v else lookup t j)
    unfolding lookup set
    lookup-set [] k j v = refl
    lookup-set ((i, w) ∷ t) k j v =
        ground
          (arith, lookup-set t k j v, same_cong i k j, same_cong k j i, same_sym i k, same_sym i j)
