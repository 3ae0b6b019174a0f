-- ===== src/Auth.antt =====
-- gateway/acode-upstream/server/src/auth.ts: login sessions, the limit on failed logins, and the
-- tokens that a request carries.
pub mod Sessions
pub mod Logins
pub mod Tokens
