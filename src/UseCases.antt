-- ===== src/UseCases.antt =====
-- src/application/use-cases: the use cases over the persistence port.
pub mod Database
pub mod Participation
pub mod Credential
pub mod Entity
pub mod Laws
pub mod Memory
pub mod Tests
