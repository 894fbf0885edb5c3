-- ===== src/Prelude/Lists.antt =====
-- Sequences over the native numbers, with Boolean tests.
use Prim.Native.Nat.{ℕ, suc}
use mathlib.Core.Path.{◌≡◌, refl, subst, sym, ap}
use mathlib.Core.Bool.{Bool, true, false, ◌&&◌, ◌||◌}
use mathlib.Core.Option.{Option, none, some}
use mathlib.Core.List.{List, [], ◌∷◌, map}
use mathlib.Core.Logic.{◌⊎◌, inl, inr}
use native.Mathlib.Omega.{arith}
use bardi.Prelude.Tests.{if◌then◌else◌, Bool-cases}

pub some_inj {ℓ} : {A : Type ℓ} {a b : A} → some a ≡ some b → a ≡ b
some_inj h = cc

module _ {ℓ} {A : Type ℓ} where
  abbrev pub length : List A → ℕ
  length [] = 0
  length (x ∷ xs) = suc (length xs)

  abbrev pub is_empty : List A → Bool
  is_empty [] = true
  is_empty (x ∷ xs) = false

  abbrev pub all : (A → Bool) → List A → Bool
  all p [] = true
  all p (x ∷ xs) = p x && all p xs

  abbrev pub any : (A → Bool) → List A → Bool
  any p [] = false
  any p (x ∷ xs) = p x || any p xs

  abbrev pub filter : (A → Bool) → List A → List A
  filter p [] = []
  filter p (x ∷ xs) = if p x then x ∷ filter p xs else filter p xs

  -- `next((x for x in xs if p(x)), None)`
  abbrev pub find : (A → Bool) → List A → Option A
  find p [] = none
  find p (x ∷ xs) = if p x then some x else find p xs

  abbrev pub All {κ} : (A → Type κ) → List A → Type κ
  All P [] = Unit
  All P (x ∷ xs) = P x × All P xs

module _ {A : Type 0} where
  -- Some element, with its place.
  abbrev pub Any : (A → Type 0) → List A → Type 0
  Any P [] = ⊥
  Any P (x ∷ xs) = P x ⊎ Any P xs

  abbrev pub In : A → List A → Type 0
  In a xs = Any (λ x. x ≡ a) xs

  pub All-In : (P : A → Type 0) (xs : List A) → ((x : A) → In x xs → P x) → All P xs
  All-In P [] h = tt
  All-In P (x ∷ xs) h = (h x (inl refl), All-In P xs (λ y m. h y (inr m)))

  pub In-All : (P : A → Type 0) (xs : List A) (a : A) → All P xs → In a xs → P a
  In-All P [] a h m = elim m [ ]
  In-All P (x ∷ xs) a h (inl e) = subst P e h.0
  In-All P (x ∷ xs) a h (inr m) = In-All P xs a h.1 m

  filter-In_kept :
      (p : A → Bool) (x : A) (xs : List A) (a : A)
      → p x ≡ true
      → (In a (filter p xs) → In a xs × (p a ≡ true))
      → In a (x ∷ filter p xs)
      → In a (x ∷ xs) × (p a ≡ true)
  filter-In_kept p x xs a e ih (inl q) = (inl q, rw (← q) e)
  filter-In_kept p x xs a e ih (inr m) = let (n, q) = ih m in (inr n, q)

  pub filter-In : (p : A → Bool) (xs : List A) (a : A) → In a (filter p xs) → In a xs × (p a ≡ true)
  filter-In p [] a m = elim m [ ]
  filter-In p (x ∷ xs) a m = elim (Bool-cases (p x)) [
    | inl e ↦ filter-In_kept p x xs a e (filter-In p xs a) (rw e at m)
    | inr e ↦ let (n, q) = filter-In p xs a (rw e at m) in (inr n, q)
  ]

  pub all-In : (p : A → Bool) (xs : List A) (a : A) → all p xs ≡ true → In a xs → p a ≡ true
  all-In p [] a h m = elim m [ ]
  all-In p (x ∷ xs) a h (inl e) = rw (← e) (ground arith)
  all-In p (x ∷ xs) a h (inr m) = all-In p xs a (ground arith) m

  pub find-In : (p : A → Bool) (xs : List A) (a : A) → find p xs ≡ some a → In a xs × (p a ≡ true)
  find-In p [] a h = cc
  find-In p (x ∷ xs) a h = elim (Bool-cases (p x)) [
    | inl e ↦ let q : x ≡ a = some_inj (rw e at h) in (inl q, rw (← q) e)
    | inr e ↦ let (m, q) = find-In p xs a (rw e at h) in (inr m, q)
  ]

  pub any-In : (p : A → Bool) (xs : List A) (a : A) → any p xs ≡ false → In a xs → p a ≡ false
  any-In p [] a h m = elim m [ ]
  any-In p (x ∷ xs) a h (inl e) = rw (← e) (ground arith)
  any-In p (x ∷ xs) a h (inr m) = any-In p xs a (ground arith) m

  pub In-filter : (p : A → Bool) (xs : List A) (a : A) → In a xs → p a ≡ true → In a (filter p xs)
  In-filter p [] a m h = elim m [ ]
  In-filter p (x ∷ xs) a (inl e) h = rw (subst (λ y. p y ≡ true) (sym e) h) (inl e)
  In-filter p (x ∷ xs) a (inr m) h = elim (Bool-cases (p x)) [
    | inl kept ↦ rw kept (inr (In-filter p xs a m h))
    | inr dropped ↦ rw dropped (In-filter p xs a m h)
  ]

  pub any-witness :
      (p : A → Bool) (xs : List A) → any p xs ≡ true → (a : A) × In a xs × (p a ≡ true)
  any-witness p [] h = cc
  any-witness p (x ∷ xs) h = elim (Bool-cases (p x)) [
    | inl e ↦ (x, inl refl, e)
    | inr e ↦ let (a, m, q) = any-witness p xs (rw e at h) in (a, inr m, q)
  ]

module _ {A B : Type 0} (f : A → B) where
  pub In-map : (xs : List A) (a : A) → In a xs → In (f a) (map f xs)
  In-map [] a m = elim m [ ]
  In-map (x ∷ xs) a (inl e) = inl (ap f e)
  In-map (x ∷ xs) a (inr m) = inr (In-map xs a m)

  pub map-In : (xs : List A) (b : B) → In b (map f xs) → (a : A) × In a xs × (f a ≡ b)
  map-In [] b m = elim m [ ]
  map-In (x ∷ xs) b (inl e) = (x, inl refl, e)
  map-In (x ∷ xs) b (inr m) = let (a, n, q) = map-In xs b m in (a, inr n, q)
