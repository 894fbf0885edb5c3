-- ===== src/Prelude/Results.antt =====
-- What a Python call returns or raises. The exceptions are those that the planner's own
-- expressions can raise: an ordering of values of different types, an `assert`, an index, `min`
-- of nothing, a key that a dict lacks.
use mathlib.Core.Path.{◌≡◌, refl, sym, subst}
use mathlib.Core.Logic.{inl, inr}
use bardi.Prelude.Lists.{In}
use mathlib.Core.List.{List, [], ◌∷◌}

pub data PyException : Type 0 where
  type_error assertion_error index_error value_error key_error : PyException

pub data Result {ℓ} (A : Type ℓ) : Type ℓ where
  ok : A → Result A
  raise : PyException → Result A

infixl 5 ◌>>=◌
abbrev pub ◌>>=◌ {ℓ κ} : {A : Type ℓ} {B : Type κ} → Result A → (A → Result B) → Result B
ok a >>= f = f a
raise e >>= f = raise e

module _ {ℓ κ} {A : Type ℓ} {B : Type κ} where
  -- Where a chain of two calls returned, each of them did.
  pub >>=-eq-ok :
      (call : Result A) (next : A → Result B) {b : B}
      → (call >>= next) ≡ ok b
      → (a : A) × (call ≡ ok a) × (next a ≡ ok b)
  >>=-eq-ok (ok a) next returned = (a, refl, returned)
  >>=-eq-ok (raise e) next returned = cc

pub raise-ne-ok {ℓ} : {A : Type ℓ} {e : PyException} {a : A} → raise e ≡ ok a → ⊥
raise-ne-ok h = cc

pub ok-injective {ℓ} : {A : Type ℓ} {a b : A} → ok a ≡ ok b → a ≡ b
ok-injective h = cc

module _ {ℓ κ} {S : Type ℓ} {A : Type κ} where
  -- A `for` loop whose body may raise.
  unfoldable pub fold : (S → A → Result S) → S → List A → Result S
  fold body s [] = ok s
  fold body s (x ∷ xs) = body s x >>= λ s'. fold body s' xs

  -- What each round keeps holds when the loop ends.
  pub fold_inv {μ} :
      (P : S → Type μ) (body : S → A → Result S)
      → ((s : S) (x : A) (s' : S) → P s → body s x ≡ ok s' → P s')
      → (xs : List A) (s s' : S) → P s
      → fold body s xs ≡ ok s'
      → P s'
  unfolding fold
  fold_inv P body keep [] s s' p h = rw (ok-injective h) at p
  fold_inv P body keep (x ∷ xs) s s' p h =
      let (t, once, rest) = >>=-eq-ok (body s x) (λ t. fold body t xs) h in
      fold_inv P body keep xs t s' (keep s x t p once) rest

module _ {ℓ κ} {A : Type ℓ} {B : Type κ} where
  -- A comprehension whose element may raise.
  unfoldable pub traverse : (A → Result B) → List A → Result (List B)
  traverse f [] = ok []
  traverse f (x ∷ xs) = f x >>= λ y. traverse f xs >>= λ ys. ok (y ∷ ys)

module _ {A B : Type 0} (f : A → Result B) where
  -- Each element has its result in the list, and each result is that of an element.
  pub traverse-result :
      (xs : List A) (ys : List B) (a : A)
      → traverse f xs ≡ ok ys
      → In a xs
      → (b : B) × In b ys × (f a ≡ ok b)
  unfolding traverse
  traverse-result [] ys a h m = elim m [ ]
  traverse-result (x ∷ xs) ys a h m =
      let (y, e, rest) = >>=-eq-ok (f x) (λ y. traverse f xs >>= λ ys. ok (y ∷ ys)) h in
      let (zs, d, q) = >>=-eq-ok (traverse f xs) (λ ys. ok (y ∷ ys)) rest in
      elim m [
        | inl same ↦ (y, subst (In y) (ok-injective q) (inl refl), subst (λ z. f z ≡ ok y) same e)
        | inr n ↦
            let (b, i, r) = traverse-result xs zs a d n in
            (b, subst (In b) (ok-injective q) (inr i), r)
      ]

  pub traverse-element :
      (xs : List A) (ys : List B) (b : B)
      → traverse f xs ≡ ok ys
      → In b ys
      → (a : A) × In a xs × (f a ≡ ok b)
  unfolding traverse
  traverse-element [] ys b h m = elim (subst (In b) (sym (ok-injective h)) m) [ ]
  traverse-element (x ∷ xs) ys b h m =
      let (y, e, rest) = >>=-eq-ok (f x) (λ y. traverse f xs >>= λ ys. ok (y ∷ ys)) h in
      let (zs, d, q) = >>=-eq-ok (traverse f xs) (λ ys. ok (y ∷ ys)) rest in
      let n : In b (y ∷ zs) = subst (In b) (sym (ok-injective q)) m in
      elim n [
        | inl same ↦ (x, inl refl, subst (λ z. f x ≡ ok z) same e)
        | inr i ↦ let (a, j, r) = traverse-element xs zs b d i in (a, inr j, r)
      ]
