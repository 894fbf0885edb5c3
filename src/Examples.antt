-- ===== src/Examples.antt =====
-- Runs on small data, and the laws of the development at them.
mod Data
mod Planning
mod Rules
mod Dates
mod Requests
mod Stored
mod Guards
mod Captured
