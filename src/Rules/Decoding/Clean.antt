-- ===== src/Rules/Decoding/Clean.antt =====
-- backend/planning/rules.py: what the shared checks leave where they report nothing.
use bardi.Prelude.{
  ◌≡◌, refl, sym, ◌∙◌, String, Bool, true, false, ◌&&◌, Option, List, [], ◌∷◌, ◌++◌, is_empty, any,
  Bool-cases, if-cases, if◌then◌else◌, inl, inr, str_eq, sort, ◌+++◌, str_lt,
}
use bardi.Facts.{Entries, PathSegment, ValidationDiagnostic}
use bardi.Rules.{RuleOperator}
use bardi.Rules.Decoding.{
  DecodedNode, Decoding, path_eq, add, add_fields, check_fields, unexpected, has_other_key,
  text_keys,
}

-- Nothing is reported.
abbrev pub is_clean : Decoding → Bool
is_clean s = is_empty s.diagnostics

seen_or_added :
    (ds : List ValidationDiagnostic) (p : ValidationDiagnostic → Bool) (d : ValidationDiagnostic)
    (records : List (Option DecodedNode))
    → is_clean (
        if any p ds
        then record { diagnostics = ds; records = records }
        else record { diagnostics = ds ++ (d ∷ []); records = records })
      ≡ false
seen_or_added [] p d records = refl
seen_or_added (e ∷ ds) p d records = elim (Bool-cases (any p (e ∷ ds))) [
  | inl h ↦ rw h refl
  | inr h ↦ rw h refl
]

pub add-reports :
    (s : Decoding) (code : String) (path : List PathSegment) → is_clean (add s code path) ≡ false
unfolding add
add-reports s code path =
    seen_or_added s.diagnostics (λ d. str_eq d.code code && path_eq d.path path)
      (record { code = code; path = path }) s.records

pub add-unclean :
    (s : Decoding) (code : String) (path : List PathSegment) → is_clean (add s code path) ≡ true → ⊥
add-unclean s code path h = let q = add-reports s code path in cc

add_fields-clean :
    (s : Decoding) (code : String) (path : List PathSegment) (fields : List String)
    → is_clean (add_fields s code path fields) ≡ true
    → add_fields s code path fields ≡ s
unfolding add_fields
add_fields-clean s code path [] h = refl
add_fields-clean s code path (field ∷ fields) h =
    let s' = add s code (path ++ (PathSegment.name field ∷ [])) in
    let q = add_fields-clean s' code path fields h in
    elim (add-unclean s code (path ++ (PathSegment.name field ∷ [])) (rw q at h)) [ ]

pub check_fields-clean :
    (s : Decoding) (op : RuleOperator) (name : String) (path : List PathSegment) (node : Entries)
    → is_clean (check_fields s op name path node) ≡ true
    → check_fields s op name path node ≡ s
unfolding check_fields
check_fields-clean s op name path node h =
    let code = "malformed_rule:" +++ name in
    let fields = sort str_lt (unexpected op (text_keys node)) in
    elim (if-cases (has_other_key node) (add (add_fields s code path fields) code path)
      (add_fields s code path fields) refl) [
        | inl (other, e) ↦
            elim (add-unclean (add_fields s code path fields) code path (rw (← e) at h)) [ ]
        | inr (none_other, e) ↦ sym e ∙ add_fields-clean s code path fields (rw (← e) at h)
      ]

pub report_if-clean :
    (b : Bool) (s : Decoding) (code : String) (path : List PathSegment)
    → is_clean (if b then add s code path else s) ≡ true
    → ((if b then add s code path else s) ≡ s) × (b ≡ false)
report_if-clean true s code path h = elim (add-unclean s code path h) [ ]
report_if-clean false s code path h = (refl, refl)
