-- ===== src/UseCases/Laws.antt =====
-- What the use cases promise over any database that is lawful.
pub mod Issuance
pub mod Revocation
pub mod Registration
