-- ===== src/Auth.antt =====
-- src/infrastructure/auth: accounts, single-use codes, sessions, and the actor of a request.
pub mod Identity
pub mod Sessions
pub mod Claims
pub mod Actor
pub mod SingleUse
pub mod Lifetime
pub mod Tests
