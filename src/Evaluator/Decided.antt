-- ===== src/Evaluator/Decided.antt =====
-- How the values of composed traces depend on those of the parts, and on the missing Facts.
use bardi.Prelude.{
  String, ◌≡◌, refl, sym, ◌∙◌, true, false, none, [], ◌∷◌, arith, is_empty, inl, inr, Bool-cases,
}
use bardi.KeySet
use bardi.KeySet.{KeySet}
use bardi.Dict
use bardi.Dict.{Dict}
use bardi.Facts.{FactValue}
use bardi.Rules.{RuleOperator}
use bardi.Evaluator.{
  TruthValue, is_true, is_false, is_unknown, truth_eq, EvaluationTrace, Traces, result_of,
  missing_of, composed_result, compose, negate, unknown_missing,
}
use bardi.Evaluator.Kleene.{both, either, composed_result_all, composed_result_any}

-- `more` has no value for any of these keys.
abbrev pub LacksAll : Dict FactValue → KeySet → Type 0
LacksAll more keys = (k : String) → KeySet.member k keys ≡ true → Dict.get more k ≡ none

-- A decided value stays.
abbrev pub Kept : EvaluationTrace → EvaluationTrace → Type 0
Kept t t' = truth_eq (result_of t) is_unknown ≡ false → result_of t ≡ result_of t'

abbrev pub AllKept : Traces → Traces → Type 0
AllKept Traces.nil Traces.nil = Unit
AllKept (Traces.cons t ts) (Traces.cons t' ts') = Kept t t' × AllKept ts ts'
AllKept _ _ = ⊥

abbrev pub SameResults : Traces → Traces → Type 0
SameResults Traces.nil Traces.nil = Unit
SameResults (Traces.cons t ts) (Traces.cons t' ts') =
    (result_of t ≡ result_of t') × SameResults ts ts'
SameResults _ _ = ⊥

both_kept :
    (a a' b b' : TruthValue)
    → (truth_eq a is_unknown ≡ false → a ≡ a')
    → (truth_eq b is_unknown ≡ false → b ≡ b')
    → truth_eq (both a b) is_unknown ≡ false
    → both a b ≡ both a' b'
both_kept a a' b b' h k d = ground arith

either_kept :
    (a a' b b' : TruthValue)
    → (truth_eq a is_unknown ≡ false → a ≡ a')
    → (truth_eq b is_unknown ≡ false → b ≡ b')
    → truth_eq (either a b) is_unknown ≡ false
    → either a b ≡ either a' b'
either_kept a a' b b' h k d = ground arith

all_kept :
    (ts ts' : Traces)
    → AllKept ts ts'
    → truth_eq (composed_result is_false is_true ts) is_unknown ≡ false
    → composed_result is_false is_true ts ≡ composed_result is_false is_true ts'
all_kept Traces.nil Traces.nil h d = refl
all_kept Traces.nil (Traces.cons t' ts') h d = elim h [ ]
all_kept (Traces.cons t ts) Traces.nil h d = elim h [ ]
all_kept (Traces.cons t ts) (Traces.cons t' ts') h d =
    composed_result_all t ts
    ∙ both_kept _ _ _ _ h.0 (all_kept ts ts' h.1) (rw composed_result_all at d)
    ∙ sym (composed_result_all t' ts')

any_kept :
    (ts ts' : Traces)
    → AllKept ts ts'
    → truth_eq (composed_result is_true is_false ts) is_unknown ≡ false
    → composed_result is_true is_false ts ≡ composed_result is_true is_false ts'
any_kept Traces.nil Traces.nil h d = refl
any_kept Traces.nil (Traces.cons t' ts') h d = elim h [ ]
any_kept (Traces.cons t ts) Traces.nil h d = elim h [ ]
any_kept (Traces.cons t ts) (Traces.cons t' ts') h d =
    composed_result_any t ts
    ∙ either_kept _ _ _ _ h.0 (any_kept ts ts' h.1) (rw composed_result_any at d)
    ∙ sym (composed_result_any t' ts')

all_same :
    (ts ts' : Traces)
    → SameResults ts ts'
    → composed_result is_false is_true ts ≡ composed_result is_false is_true ts'
all_same Traces.nil Traces.nil h = refl
all_same Traces.nil (Traces.cons t' ts') h = elim h [ ]
all_same (Traces.cons t ts) Traces.nil h = elim h [ ]
all_same (Traces.cons t ts) (Traces.cons t' ts') h =
    cc (composed_result_all t ts, composed_result_all t' ts', h.0, all_same ts ts' h.1)

any_same :
    (ts ts' : Traces)
    → SameResults ts ts'
    → composed_result is_true is_false ts ≡ composed_result is_true is_false ts'
any_same Traces.nil Traces.nil h = refl
any_same Traces.nil (Traces.cons t' ts') h = elim h [ ]
any_same (Traces.cons t ts) Traces.nil h = elim h [ ]
any_same (Traces.cons t ts) (Traces.cons t' ts') h =
    cc (composed_result_any t ts, composed_result_any t' ts', h.0, any_same ts ts' h.1)

pub member_of_is_empty :
    (s : KeySet) (k : String) → is_empty s ≡ true → KeySet.member k s ≡ true → ⊥
unfolding KeySet.member
member_of_is_empty [] k h m = cc
member_of_is_empty (x ∷ s) k h m = cc

member-union_left :
    (k : String) (s t : KeySet)
    → KeySet.member k s ≡ true
    → KeySet.member k (KeySet.union s t) ≡ true
member-union_left k s t h = ground (arith, KeySet.member-union k s t)

member-union_right :
    (k : String) (s t : KeySet)
    → KeySet.member k t ≡ true
    → KeySet.member k (KeySet.union s t) ≡ true
member-union_right k s t h = ground (arith, KeySet.member-union k s t)

pub member-unknown_head :
    (t : EvaluationTrace) (ts : Traces) (k : String)
    → truth_eq (result_of t) is_unknown ≡ true
    → KeySet.member k (missing_of t) ≡ true
    → KeySet.member k (unknown_missing (Traces.cons t ts)) ≡ true
unfolding unknown_missing
member-unknown_head t ts k u m = rw u (member-union_left k _ _ m)

pub member-unknown_tail :
    (t : EvaluationTrace) (ts : Traces) (k : String)
    → KeySet.member k (unknown_missing ts) ≡ true
    → KeySet.member k (unknown_missing (Traces.cons t ts)) ≡ true
unfolding unknown_missing
member-unknown_tail t ts k m = elim (Bool-cases (truth_eq (result_of t) is_unknown)) [
  | inl u ↦ rw u (member-union_right k _ _ m)
  | inr u ↦ rw u m
]

pub all-stable :
    (ts ts' : Traces)
    → AllKept ts ts'
    → (truth_eq (composed_result is_false is_true ts) is_unknown ≡ true → SameResults ts ts')
    → result_of (compose RuleOperator.all ts) ≡ result_of (compose RuleOperator.all ts')
unfolding compose
all-stable ts ts' kept same =
    elim (Bool-cases (truth_eq (composed_result is_false is_true ts) is_unknown)) [
      | inl u ↦ all_same ts ts' (same u)
      | inr d ↦ all_kept ts ts' kept d
    ]

pub any-stable :
    (ts ts' : Traces)
    → AllKept ts ts'
    → (truth_eq (composed_result is_true is_false ts) is_unknown ≡ true → SameResults ts ts')
    → result_of (compose RuleOperator.any ts) ≡ result_of (compose RuleOperator.any ts')
unfolding compose
any-stable ts ts' kept same =
    elim (Bool-cases (truth_eq (composed_result is_true is_false ts) is_unknown)) [
      | inl u ↦ any_same ts ts' (same u)
      | inr d ↦ any_kept ts ts' kept d
    ]

pub compose-missing_all :
    (ts : Traces)
    → truth_eq (composed_result is_false is_true ts) is_unknown ≡ true
    → missing_of (compose RuleOperator.all ts) ≡ unknown_missing ts
unfolding compose
compose-missing_all ts u = rw u

pub compose-missing_any :
    (ts : Traces)
    → truth_eq (composed_result is_true is_false ts) is_unknown ≡ true
    → missing_of (compose RuleOperator.any ts) ≡ unknown_missing ts
unfolding compose
compose-missing_any ts u = rw u

pub negate-missing :
    (c : EvaluationTrace)
    → truth_eq (result_of c) is_unknown ≡ true
    → missing_of (negate c) ≡ missing_of c
negate-missing c u = ground arith
