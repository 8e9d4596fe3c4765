-- ===== src/Config.antt =====
-- The configuration of the server: src/infrastructure/config/env.ts.
pub mod Env
pub mod Tests
