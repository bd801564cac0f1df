-- ===== src/Backend.antt =====
-- The backend simulator (backend/): its load signals and its request handling.
pub mod Load
pub mod Requests
pub mod Cors
