-- ===== src/Api/Privacy/Laws.antt =====
-- What can be logged of a planning request.
use bardi.Prelude.{
  ℕ, ◌≤◌, ◌≡◌, refl, String, true, ◌&&◌, inl, inr, Bool-cases, pos, leb, str_eq, one_of, eq_iff,
  if◌then◌else◌, arith,
}
use bardi.Facts.{FactValue, Object}
use bardi.Api.Privacy.{
  planning_route, planning_error_codes, PlanningMetadata, candidate_method, safe_method,
  safe_status, safe_code, planning_observability_metadata,
}

safe_method-fixed : (candidate : String) → safe_method candidate ≡ "POST"
unfolding safe_method
safe_method-fixed candidate = elim (Bool-cases (str_eq candidate "POST")) [
  | inl e ↦ rw e ((eq_iff candidate "POST").0 e)
  | inr e ↦ rw e refl
]

safe_status-number :
    (n : ℕ)
    → (100 ≤ (if leb 100 n && leb n 599 then n else 500))
      × ((if leb 100 n && leb n 599 then n else 500) ≤ 599)
safe_status-number n = (ground arith, ground arith)

safe_status-bounded : (status : Object) → (100 ≤ safe_status status) × (safe_status status ≤ 599)
unfolding safe_status
safe_status-bounded (Object.value (FactValue.int (pos n))) = safe_status-number n
safe_status-bounded _ = (ground arith, ground arith)

safe_code-allowed : (code : Object) → one_of (safe_code code) planning_error_codes ≡ true
unfolding safe_code
safe_code-allowed (Object.value (FactValue.str code)) =
    elim (Bool-cases (one_of code planning_error_codes)) [ inl e ↦ rw e e | inr e ↦ rw e refl ]
safe_code-allowed _ = refl

-- The metadata of the allow-list, and nothing else.
abbrev pub IsCoarse : PlanningMetadata → Type 0
IsCoarse m =
    (m.method ≡ "POST")
    × (m.route ≡ planning_route)
    × (100 ≤ m.status_code)
    × (m.status_code ≤ 599)
    × (one_of m.error_code planning_error_codes ≡ true)

-- Whatever method, status and error code are handed in, texts of any content included, the metadata
-- has the fixed method and route, a status from 100 to 599 and one of the four error codes.
pub planning_observability_metadata-IsCoarse :
    (upper : String → String) (method status_code error_code : Object)
    → IsCoarse (planning_observability_metadata upper method status_code error_code)
unfolding planning_observability_metadata
planning_observability_metadata-IsCoarse upper method status_code error_code =
    let (low, high) = safe_status-bounded status_code in
    (
      safe_method-fixed (candidate_method upper method),
      refl,
      low,
      high,
      safe_code-allowed error_code,
    )
