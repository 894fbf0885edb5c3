-- ===== src/Prelude/Sorting.antt =====
-- `sorted(xs, key=...)`: a stable insertion sort by a test "comes before".
use mathlib.Core.Logic.{inl, inr}
use mathlib.Core.Path.{◌≡◌, refl}
use mathlib.Core.Bool.{Bool, ◌&&◌, ◌||◌}
use native.Mathlib.Omega.{arith}
use mathlib.Core.List.{List, [], ◌∷◌, Perm}
use mathlib.Core.List.Perm
use bardi.Prelude.Tests.{if◌then◌else◌, Bool-cases}
use bardi.Prelude.Lists.{In, all, any}

module _ {A : Type 0} (before : A → A → Bool) where
  -- `x` stands in front of the elements that do not come before it, so equal keys keep their order.
  insert : A → List A → List A
  insert x [] = x ∷ []
  insert x (y ∷ ys) = if before y x then y ∷ insert x ys else x ∷ y ∷ ys

  unfoldable pub sort : List A → List A
  unfolding insert
  sort [] = []
  sort (x ∷ xs) = insert x (sort xs)

  insert-perm : (x : A) (xs : List A) → Perm (insert x xs) (x ∷ xs)
  unfolding insert
  insert-perm x [] = Perm.rfl
  insert-perm x (y ∷ ys) = elim (Bool-cases (before y x)) [
    | inl e ↦ rw e (Perm.trans (Perm.cons y (insert-perm x ys)) (Perm.swap x y ys))
    | inr e ↦ rw e Perm.rfl
  ]

  pub sort-perm : (xs : List A) → Perm (sort xs) xs
  unfolding sort
  sort-perm [] = Perm.rfl
  sort-perm (x ∷ xs) = Perm.trans (insert-perm x (sort xs)) (Perm.cons x (sort-perm xs))

  insert-In : (x : A) (xs : List A) (a : A) → In a (insert x xs) → In a (x ∷ xs)
  unfolding insert
  insert-In x [] a m = m
  insert-In x (y ∷ ys) a m = elim (Bool-cases (before y x)) [
    | inl e ↦ insert-In_later x y ys a (insert-In x ys a) (rw e at m)
    | inr e ↦ rw e at m
  ]
    where
      insert-In_later :
          (x y : A) (ys : List A) (a : A)
          → (In a (insert x ys) → In a (x ∷ ys))
          → In a (y ∷ insert x ys)
          → In a (x ∷ y ∷ ys)
      insert-In_later x y ys a ih (inl q) = inr (inl q)
      insert-In_later x y ys a ih (inr m) = elim (ih m) [ inl q ↦ inl q | inr n ↦ inr (inr n) ]

  -- What is in the sorted list was in the list.
  pub sort-In : (xs : List A) (a : A) → In a (sort xs) → In a xs
  unfolding sort
  sort-In [] a m = m
  sort-In (x ∷ xs) a m = elim (insert-In x (sort xs) a m) [
    | inl q ↦ inl q
    | inr n ↦ inr (sort-In xs a n)
  ]

  insert_first : (x : A) (ys : List A) (a : A) → In a (x ∷ ys) → In a (insert x ys)
  unfolding insert
  insert_first x [] a m = m
  insert_first x (y ∷ ys) a m = elim (Bool-cases (before y x)) [
    | inl e ↦ rw e (insert_later x y ys a (insert_first x ys a) m)
    | inr e ↦ rw e m
  ]
    where
      insert_later :
          (x y : A) (ys : List A) (a : A)
          → (In a (x ∷ ys) → In a (insert x ys))
          → In a (x ∷ y ∷ ys)
          → In a (y ∷ insert x ys)
      insert_later x y ys a ih (inl q) = inr (ih (inl q))
      insert_later x y ys a ih (inr (inl q)) = inl q
      insert_later x y ys a ih (inr (inr m)) = inr (ih (inr m))

  -- What is in the list is in the sorted list.
  pub In-sort : (xs : List A) (a : A) → In a xs → In a (sort xs)
  unfolding sort
  In-sort [] a m = m
  In-sort (x ∷ xs) a (inl q) = insert_first x (sort xs) a (inl q)
  In-sort (x ∷ xs) a (inr m) = insert_first x (sort xs) a (inr (In-sort xs a m))

  all-insert : (p : A → Bool) (x : A) (xs : List A) → all p (insert x xs) ≡ (p x && all p xs)
  unfolding insert
  all-insert p x [] = refl
  all-insert p x (y ∷ ys) = ground (arith, all-insert p x ys)

  pub all-sort : (p : A → Bool) (xs : List A) → all p (sort xs) ≡ all p xs
  unfolding sort
  all-sort p [] = refl
  all-sort p (x ∷ xs) = ground (arith, all-insert p x (sort xs), all-sort p xs)

  any-insert : (p : A → Bool) (x : A) (xs : List A) → any p (insert x xs) ≡ (p x || any p xs)
  unfolding insert
  any-insert p x [] = refl
  any-insert p x (y ∷ ys) = ground (arith, any-insert p x ys)

  pub any-sort : (p : A → Bool) (xs : List A) → any p (sort xs) ≡ any p xs
  unfolding sort
  any-sort p [] = refl
  any-sort p (x ∷ xs) = ground (arith, any-insert p x (sort xs), any-sort p xs)
