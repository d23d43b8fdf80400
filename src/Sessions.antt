-- ===== src/Sessions.antt =====
-- The operator's sessions: the login with the Access Key, and what a session allows.
pub mod Login
pub mod Leases
pub mod Direct
pub mod Subjects
mod Tests
