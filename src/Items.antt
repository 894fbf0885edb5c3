-- ===== src/Items.antt =====
-- What the selectors of authored material (Checklist Items, Steps, Fees, Warnings, Bases,
-- dependencies) share: the effective interval, an optional rule, and the loop over the items.
use bardi.Prelude.{
  ◌≡◌, refl, sym, subst, ◌⊎◌, inl, inr, Bool, ◌||◌, Option, none, some, List, [], ◌∷◌, ◌++◌,
  some_and, Result, ok, ◌>>=◌, >>=-eq-ok, ok-injective, fold, All, In, String, true, false, one_of,
  str_eq, eq_iff, arith,
}
use bardi.Calendar.{Date, date_lt}
use bardi.Facts.{PreparedFacts}
use bardi.Rules.{Predicate}
use bardi.Trust.{TrustDisposition, assert_current}
use bardi.Provenance.{is_assert_current}
use bardi.Evaluator.{is_true, Evaluation, evaluate}

-- `effective_from is not None and date < effective_from or effective_to is not None and …`
abbrev pub outside_interval : Option Date → Option Date → Date → Bool
outside_interval effective_from effective_to d =
    some_and (λ start. date_lt d start) effective_from
    || some_and (λ end. date_lt end d) effective_to

-- `None if rule is None else evaluate(rule, …)`
unfoldable pub evaluate_optional : Option Predicate → PreparedFacts → Result (Option Evaluation)
evaluate_optional none facts = ok none
evaluate_optional (some rule) facts =
    evaluate rule facts.values facts.submitted_keys >>= λ e. ok (some e)

-- There is no rule, or it is TRUE in the case.
abbrev pub Applies : PreparedFacts → Option Predicate → Type 0
Applies facts rule =
    (rule ≡ none)
    ⊎ ((e : Evaluation) × (evaluate_optional rule facts ≡ ok (some e)) × (e.value ≡ is_true))

pub evaluate_optional-none :
    (rule : Option Predicate) (facts : PreparedFacts)
    → evaluate_optional rule facts ≡ ok none
    → rule ≡ none
unfolding evaluate_optional
evaluate_optional-none none facts h = refl
evaluate_optional-none (some rule) facts h = ground arith

-- The facts that the tests of the selectors leave.
pub is_assert_current_eq : (t : TrustDisposition) → is_assert_current t ≡ true → t ≡ assert_current
is_assert_current_eq t h = ground arith

pub procedure_scope :
    (scope : String)
    → one_of scope ("procedure" ∷ "eligibility_basis" ∷ []) ≡ true
    → str_eq scope "eligibility_basis" ≡ false
    → scope ≡ "procedure"
procedure_scope scope h k = ground (
  arith,
  eq_iff scope "procedure",
  eq_iff "procedure" scope,
  eq_iff "eligibility_basis" scope,
  eq_iff scope "eligibility_basis",
)

module _ {B : Type 0} where
  -- A round leaves the collected items as they are, or adds one that it can justify at the end.
  abbrev pub Grows : (B → Type 0) → List B → List B → Type 0
  Grows J old new = (new ≡ old) ⊎ ((p : B) × J p × (new ≡ old ++ (p ∷ [])))

  pub Grows-weaken :
      {J K : B → Type 0} {old new : List B}
      → ((p : B) → J p → K p)
      → Grows J old new
      → Grows K old new
  Grows-weaken weaken (inl same) = inl same
  Grows-weaken weaken (inr (p, j, longer)) = inr (p, weaken p j, longer)

  pub All-map : {P Q : B → Type 0} → ((p : B) → P p → Q p) → (xs : List B) → All P xs → All Q xs
  All-map weaken [] h = tt
  All-map weaken (x ∷ xs) h = (weaken x h.0, All-map weaken xs h.1)

  All-snoc : (P : B → Type 0) (xs : List B) (x : B) → All P xs → P x → All P (xs ++ (x ∷ []))
  All-snoc P [] x h p = (p, tt)
  All-snoc P (y ∷ ys) x h p = (h.0, All-snoc P ys x h.1 p)

  Grows-All :
      (P J : B → Type 0) (old new : List B)
      → ((p : B) → J p → P p)
      → Grows J old new
      → All P old
      → All P new
  Grows-All P J old new weaken (inl same) h = subst (All P) (sym same) h
  Grows-All P J old new weaken (inr (p, j, longer)) h =
      subst (All P) (sym longer) (All-snoc P old p h (weaken p j))

module _ {S A B : Type 0} (items : S → List B) (J : A → B → Type 0) (body : S → A → Result S) where
  -- A collected item comes from an authored one that justifies it.
  abbrev pub From : List A → B → Type 0
  From authored p = (x : A) × In x authored × J x p

  fold-From_within :
      (authored xs : List A) (s s' : S)
      → ((x : A) → In x xs → In x authored)
      → ((s : S) (x : A) (s' : S) → body s x ≡ ok s' → Grows (J x) (items s) (items s'))
      → fold body s xs ≡ ok s'
      → All (From authored) (items s)
      → All (From authored) (items s')
  unfolding fold
  fold-From_within authored [] s s' within grows h old =
      subst (λ r. All (From authored) (items r)) (ok-injective h) old
  fold-From_within authored (x ∷ xs) s s' within grows h old =
      let (t, once, rest) = >>=-eq-ok (body s x) (λ t. fold body t xs) h in
      fold-From_within authored xs t s' (λ y m. within y (inr m)) grows rest
        (Grows-All (From authored) (J x) (items s) (items t) (λ p j. (x, within x (inl refl), j))
          (grows s x t once) old)

  pub fold-From :
      (authored : List A) (s s' : S)
      → ((s : S) (x : A) (s' : S) → body s x ≡ ok s' → Grows (J x) (items s) (items s'))
      → fold body s authored ≡ ok s'
      → items s ≡ []
      → All (From authored) (items s')
  fold-From authored s s' grows h empty =
      fold-From_within authored authored s s' (λ x m. m) grows h
        (subst (All (From authored)) (sym empty) tt)
