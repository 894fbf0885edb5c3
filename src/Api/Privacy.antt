-- ===== src/Api/Privacy.antt =====
-- backend/api/privacy.py: planning_observability_metadata, all that is logged of a planning request.
pub mod Laws
use bardi.Prelude.{
  ℕ, String, Bool, true, false, ◌&&◌, List, [], ◌∷◌, ℤ, pos, leb, str_eq, one_of, if◌then◌else◌,
}
use bardi.Facts.{FactValue, Object}

-- PLANNING_ROUTE
abbrev pub planning_route : String
planning_route = "/v1/planning"

-- PLANNING_ERROR_CODES
abbrev pub planning_error_codes : List String
planning_error_codes =
    "internal_error" ∷ "knowledge_snapshot_invalid" ∷ "knowledge_unavailable" ∷ "request_error" ∷ []

pub record PlanningMetadata : Type 0 where
  pub method : String
  pub route : String
  pub status_code : ℕ
  pub error_code : String

-- `upper` is Python's `str.upper`.
candidate_method : (upper : String → String) → Object → String
candidate_method upper (Object.value (FactValue.str method)) = upper method
candidate_method upper _ = "POST"

safe_method : String → String
safe_method candidate = if str_eq candidate "POST" then candidate else "POST"

safe_status : Object → ℕ
safe_status (Object.value (FactValue.int (pos n))) = if leb 100 n && leb n 599 then n else 500
safe_status _ = 500

safe_code : Object → String
safe_code (Object.value (FactValue.str code)) =
    if one_of code planning_error_codes then code else "internal_error"
safe_code _ = "internal_error"

unfoldable pub planning_observability_metadata :
    (upper : String → String) → (method status_code error_code : Object) → PlanningMetadata
unfolding candidate_method safe_method safe_status safe_code
planning_observability_metadata upper method status_code error_code = record {
  method = safe_method (candidate_method upper method);
  route = planning_route;
  status_code = safe_status status_code;
  error_code = safe_code error_code;
}
