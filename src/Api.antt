-- ===== src/Api.antt =====
-- backend/api: the guards that stand between a request and the planner.
pub mod RateLimit
pub mod BodyLimit
pub mod Privacy
