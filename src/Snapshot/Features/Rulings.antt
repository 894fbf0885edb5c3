-- ===== src/Snapshot/Features/Rulings.antt =====
-- The rules of one feature row: when they report nothing, and what the entry has of them.
use bardi.Prelude.{
  ℕ, ◌≡◌, refl, sym, inl, inr, String, Bool, not, ◌&&◌, ◌||◌, Option, none, some, List, is_empty,
  is_some, Bool-cases, some_not_none,
}
use bardi.Facts.{ValidationDiagnostic}
use bardi.Rules.{Predicate}
use bardi.Rules.Validation.{RuleValidationResult}
use bardi.Snapshot.{StoredRuleLoadDiagnostic, Outcome}
use bardi.Snapshot.Features.{optional_as, optional_rule, required_as, required_rule}

module _ {V : Type 0} (owner : String) (diagnostics : List ValidationDiagnostic) where
  optional_as-reported :
      (r : Option Predicate) (b : Bool) (next : Option Predicate → Outcome ℕ V)
      → ((o : Option Predicate) → is_empty (next o).reported ≡ b)
      → is_empty (optional_as owner diagnostics r next).reported ≡ (is_some r && b)
  unfolding optional_as
  optional_as-reported none b next h = refl
  optional_as-reported (some p) b next h = h (some p)

  required_as-reported :
      (r : Option Predicate) (b : Bool) (next : Predicate → Outcome ℕ V)
      → ((p : Predicate) → is_empty (next p).reported ≡ b)
      → is_empty (required_as owner diagnostics r next).reported ≡ (is_some r && b)
  unfolding required_as
  required_as-reported none b next h = refl
  required_as-reported (some p) b next h = h p

  optional_as-entry :
      (r : Option Predicate) (Q : Predicate → Type 0) (next : Option Predicate → Outcome ℕ V)
      (e : ℕ × V)
      → ((p : Predicate) → r ≡ some p → Q p)
      → (optional_as owner diagnostics r next).entry ≡ some e
      → (o : Option Predicate) × ((p : Predicate) → o ≡ some p → Q p) × ((next o).entry ≡ some e)
  unfolding optional_as
  optional_as-entry none Q next e q h = cc
  optional_as-entry (some p) Q next e q h = (some p, q, h)

  required_as-entry :
      (r : Option Predicate) (Q : Predicate → Type 0) (next : Predicate → Outcome ℕ V) (e : ℕ × V)
      → ((p : Predicate) → r ≡ some p → Q p)
      → (required_as owner diagnostics r next).entry ≡ some e
      → (p : Predicate) × Q p × ((next p).entry ≡ some e)
  unfolding required_as
  required_as-entry none Q next e q h = cc
  required_as-entry (some p) Q next e q h = (p, q p refl, h)

module _ {V : Type 0} (owner : String) (omitted : Bool) (result : RuleValidationResult) where
  pub optional_rule-reported :
      (b : Bool) (next : Option Predicate → Outcome ℕ V)
      → ((o : Option Predicate) → is_empty (next o).reported ≡ b)
      → is_empty (optional_rule owner omitted result next).reported
        ≡ ((omitted || is_some result.predicate) && b)
  unfolding optional_rule optional_as
  optional_rule-reported b next h = elim (Bool-cases omitted) [
    | inl e ↦ rw e (h none)
    | inr e ↦ rw e (optional_as-reported owner result.diagnostics result.predicate b next h)
  ]

  pub required_rule-reported :
      (missing : StoredRuleLoadDiagnostic) (b : Bool) (next : Predicate → Outcome ℕ V)
      → ((p : Predicate) → is_empty (next p).reported ≡ b)
      → is_empty (required_rule owner omitted missing result next).reported
        ≡ ((not omitted && is_some result.predicate) && b)
  unfolding required_rule required_as
  required_rule-reported missing b next h = elim (Bool-cases omitted) [
    | inl e ↦ rw e refl
    | inr e ↦ rw e (required_as-reported owner result.diagnostics result.predicate b next h)
  ]

  pub optional_rule-entry :
      (Q : Predicate → Type 0) (next : Option Predicate → Outcome ℕ V) (e : ℕ × V)
      → ((p : Predicate) → result.predicate ≡ some p → Q p)
      → (optional_rule owner omitted result next).entry ≡ some e
      → (o : Option Predicate) × ((p : Predicate) → o ≡ some p → Q p) × ((next o).entry ≡ some e)
  unfolding optional_rule optional_as
  optional_rule-entry Q next e q h = elim (Bool-cases omitted) [
    | inl skip ↦ (none, λ p n. elim (some_not_none (sym n)) [ ], rw skip at h)
    | inr kept ↦
        optional_as-entry owner result.diagnostics result.predicate Q next e q (rw kept at h)
  ]

  pub required_rule-entry :
      (Q : Predicate → Type 0) (missing : StoredRuleLoadDiagnostic) (next : Predicate → Outcome ℕ V)
      (e : ℕ × V)
      → ((p : Predicate) → result.predicate ≡ some p → Q p)
      → (required_rule owner omitted missing result next).entry ≡ some e
      → (p : Predicate) × Q p × ((next p).entry ≡ some e)
  unfolding required_rule required_as
  required_rule-entry Q missing next e q h = elim (Bool-cases omitted) [
    | inl skip ↦ let no = rw skip at h in cc
    | inr kept ↦
        required_as-entry owner result.diagnostics result.predicate Q next e q (rw kept at h)
  ]
