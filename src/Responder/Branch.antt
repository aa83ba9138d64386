-- ===== src/Responder/Branch.antt =====
-- The answer to DISC_UNIQUE_BRANCH.
pub mod Request
pub mod Found
