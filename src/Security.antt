-- ===== src/Security.antt =====
-- services/securityService.js: failed logins and the temporary lock, and the access state of users.
pub mod Login
pub mod Access
pub mod Sessions
pub mod Examples
