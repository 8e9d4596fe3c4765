-- ===== src/Routes.antt =====
-- The route handlers of src/app/api: what a request passes before it reaches a service.
pub mod Server
pub mod Actor
pub mod Keys
pub mod Submit
pub mod Rules
pub mod Deploy
pub mod Guards
pub mod Confirmations
pub mod Tests
