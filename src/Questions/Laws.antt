-- ===== src/Questions/Laws.antt =====
-- What the Question that the picker returns is.
use bardi.Prelude.{
  ◌≡◌, refl, sym, subst, inl, inr, String, Bool, true, false, none, some, List, [], ◌∷◌, filter,
  is_empty, int_lt, int_eq, str_lt, ◌&&◌, ◌||◌, ℤ, In, filter-In, In-filter, Bool-cases, some_inj,
  ok, ok-injective, raise-ne-ok, arith,
}
use bardi.KeySet
use bardi.KeySet.{KeySet}
use bardi.Facts.{PreparedFacts}
use bardi.Catalog.{KnowledgeSnapshot, QuestionSnapshot, ServiceSnapshot}
use bardi.Questions.{
  ConsequentialQuestion, Profile, selection, consequential, Expansion, expand_all, covered_facts,
  resolves, asked_before, least_from, choose, pick_from, pick_question,
}

-- "Not less" is transitive: the order is total.
int_lt_trans : (a b c : ℤ) → int_lt b a ≡ false → int_lt c b ≡ false → int_lt c a ≡ false
int_lt_trans a b c h k = ground arith

int_lt_irrefl : (a : ℤ) → int_lt a a ≡ false
int_lt_irrefl a = ground arith

-- The winner is one of the Questions, and none of them has a lower priority number.
abbrev IsLeast : List QuestionSnapshot → QuestionSnapshot → Type 0
IsLeast qs winner =
    In winner qs × ((q : QuestionSnapshot) → In q qs → int_lt q.priority winner.priority ≡ false)

not_before :
    (q best : QuestionSnapshot)
    → asked_before q best ≡ false
    → int_lt q.priority best.priority ≡ false
unfolding asked_before
not_before q best h = ground arith

lt_or_eq : (a b : ℤ) (s : Bool) → (int_lt a b || (int_eq a b && s)) ≡ true → int_lt b a ≡ false
lt_or_eq a b s h = ground arith

before :
    (q best : QuestionSnapshot)
    → asked_before q best ≡ true
    → int_lt best.priority q.priority ≡ false
unfolding asked_before
before q best h = lt_or_eq q.priority best.priority (str_lt q.semantic_id best.semantic_id) h

-- A Question that does not come before a kept one can be added.
dropped_later :
    (kept dropped winner : QuestionSnapshot) (qs : List QuestionSnapshot)
    → IsLeast (kept ∷ qs) winner
    → int_lt dropped.priority kept.priority ≡ false
    → int_lt dropped.priority winner.priority ≡ false
dropped_later kept dropped winner qs (m, least) h =
    int_lt_trans winner.priority kept.priority dropped.priority (least kept (inl refl)) h

least_from-IsLeast :
    (best : QuestionSnapshot) (qs : List QuestionSnapshot)
    → IsLeast (best ∷ qs) (least_from best qs)
unfolding least_from
least_from-IsLeast best [] = (inl refl, only)
  where
    only : (x : QuestionSnapshot) → In x (best ∷ []) → int_lt x.priority best.priority ≡ false
    only x (inl e) =
        subst (λ y. int_lt y.priority best.priority ≡ false) e (int_lt_irrefl best.priority)
    only x (inr m) = elim m [ ]
least_from-IsLeast best (q ∷ qs) = elim (Bool-cases (asked_before q best)) [
  | inl e ↦
      let step : least_from best (q ∷ qs) ≡ least_from q qs = rw e refl in
      subst (IsLeast (best ∷ q ∷ qs)) (sym step)
        (took (least_from q qs) (least_from-IsLeast q qs) (before q best e))
  | inr e ↦
      let step : least_from best (q ∷ qs) ≡ least_from best qs = rw e refl in
      subst (IsLeast (best ∷ q ∷ qs)) (sym step)
        (stayed (least_from best qs) (least_from-IsLeast best qs) (not_before q best e))
]
  where
    took :
        (w : QuestionSnapshot)
        → IsLeast (q ∷ qs) w
        → int_lt best.priority q.priority ≡ false
        → IsLeast (best ∷ q ∷ qs) w
    took w (m, least) h = (inr m, all_later)
      where
        all_later :
            (x : QuestionSnapshot) → In x (best ∷ q ∷ qs) → int_lt x.priority w.priority ≡ false
        all_later x (inl e) =
            subst (λ y. int_lt y.priority w.priority ≡ false) e
              (dropped_later q best w qs (m, least) h)
        all_later x (inr n) = least x n

    stayed :
        (w : QuestionSnapshot)
        → IsLeast (best ∷ qs) w
        → int_lt q.priority best.priority ≡ false
        → IsLeast (best ∷ q ∷ qs) w
    stayed w (m, least) h = (elim m [ inl e ↦ inl e | inr n ↦ inr (inr n) ], all_later)
      where
        all_later :
            (x : QuestionSnapshot) → In x (best ∷ q ∷ qs) → int_lt x.priority w.priority ≡ false
        all_later x (inl e) = least x (inl e)
        all_later x (inr (inl e)) =
            subst (λ y. int_lt y.priority w.priority ≡ false) e
              (dropped_later best q w qs (m, least) h)
        all_later x (inr (inr n)) = least x (inr n)

choose_nonempty :
    (profile : Profile) (prefix : String) (q : QuestionSnapshot) (qs : List QuestionSnapshot)
    (r : ConsequentialQuestion)
    → choose profile prefix (q ∷ qs) ≡ ok r
    → ok (record { question = some (least_from q qs); diagnostic_codes = [] }) ≡ ok r
unfolding choose
choose_nonempty selection prefix q qs r h = h
choose_nonempty consequential prefix q qs r h = h

choose-IsLeast :
    (profile : Profile) (prefix : String) (qs : List QuestionSnapshot) (r : ConsequentialQuestion)
    (winner : QuestionSnapshot)
    → choose profile prefix qs ≡ ok r
    → r.question ≡ some winner
    → IsLeast qs winner × (is_empty r.diagnostic_codes ≡ true)
unfolding choose
choose-IsLeast selection prefix [] r winner h e = absurd (raise-ne-ok h)
choose-IsLeast consequential prefix [] r winner h e =
    let none_chosen : none ≡ some winner =
      subst (λ x. x.question ≡ some winner) (sym (ok-injective h)) e in
    cc none_chosen
choose-IsLeast profile prefix (q ∷ qs) r winner h e =
    let chosen : ok (record { question = some (least_from q qs); diagnostic_codes = [] }) ≡ ok r =
      choose_nonempty profile prefix q qs r h in
    let same : some (least_from q qs) ≡ some winner =
      subst (λ x. x.question ≡ some winner) (sym (ok-injective chosen)) e in
    (
      subst (IsLeast (q ∷ qs)) (some_inj same) (least_from-IsLeast q qs),
      subst (λ x. is_empty x.diagnostic_codes ≡ true) (ok-injective chosen) refl,
    )

pick_from-cases :
    (profile : Profile) (prefix : String) (service : ServiceSnapshot) (s : Expansion)
    (r : ConsequentialQuestion) (winner : QuestionSnapshot)
    → pick_from profile prefix service s ≡ ok r
    → r.question ≡ some winner
    → (is_empty s.defects ≡ true)
      × (is_empty (KeySet.difference s.source_facts (covered_facts service.questions)) ≡ true)
      × (choose profile prefix (filter (resolves s.source_facts) service.questions) ≡ ok r)
unfolding pick_from
pick_from-cases profile prefix service s r winner h e = ground arith

is_empty-difference :
    (k : String) (s t : KeySet)
    → is_empty (KeySet.difference s t) ≡ true
    → KeySet.member k s ≡ true
    → KeySet.member k t ≡ true
unfolding KeySet.member
is_empty-difference k s t h m =
    ground (arith, KeySet.member-difference k s t, no_member k (KeySet.difference s t) h)
  where
    no_member : (k : String) (s : KeySet) → is_empty s ≡ true → KeySet.member k s ≡ false
    no_member k s h = ground arith

-- The source Facts that the picker asks for, by way of the missing ones.
abbrev pub needed_facts : Profile → KnowledgeSnapshot → PreparedFacts → KeySet → KeySet
needed_facts profile snapshot prepared missing =
    (expand_all profile snapshot.fact_definitions prepared
      (record { source_facts = []; defects = [] }) missing).source_facts

-- The Question to ask for these source Facts.
pub record IsTheQuestion (service : ServiceSnapshot) (needed : KeySet) (winner : QuestionSnapshot)
    : Type 0 where
  pub listed : In winner service.questions
  pub useful : resolves needed winner ≡ true
  pub least :
      (q : QuestionSnapshot)
      → In q service.questions
      → resolves needed q ≡ true
      → int_lt q.priority winner.priority ≡ false
  pub answerable :
      (k : String)
      → KeySet.member k needed ≡ true
      → KeySet.member k (covered_facts service.questions) ≡ true

-- A Question that the picker returns, with either profile, comes without a diagnostic; it is one of
-- the Service's Questions and resolves a source Fact that the missing Facts need; none of the others
-- that do so has a lower priority number; and every needed source Fact is resolved by some Question
-- of the Service.
pub pick_question-picked :
    (profile : Profile) (prefix : String) (snapshot : KnowledgeSnapshot) (service : ServiceSnapshot)
    (prepared : PreparedFacts) (missing : KeySet) (r : ConsequentialQuestion)
    (winner : QuestionSnapshot)
    → pick_question profile prefix snapshot service prepared missing ≡ ok r
    → r.question ≡ some winner
    → (is_empty r.diagnostic_codes ≡ true)
      × IsTheQuestion service (needed_facts profile snapshot prepared missing) winner
unfolding pick_question
pick_question-picked profile prefix snapshot service prepared missing r winner h e =
    let needed = needed_facts profile snapshot prepared missing in
    let (_, covered, chosen) = pick_from-cases profile prefix service _ r winner h e in
    let ((m, least), clean) =
      choose-IsLeast profile prefix (filter (resolves needed) service.questions) r winner chosen
        e in
    let (listed, useful) = filter-In (resolves needed) service.questions winner m in
    (
      clean,
      record {
        listed = listed;
        useful = useful;
        least = λ q n u. least q (In-filter (resolves needed) service.questions q n u);
        answerable = λ k n. is_empty-difference k needed _ covered n;
      },
    )
