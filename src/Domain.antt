-- ===== src/Domain.antt =====
-- src/domain: the pure domain layer, one module for each of its files.
pub mod Operations
pub mod Catalog
pub mod Participation
pub mod Entities
pub mod Credentials
pub mod Relationships
pub mod Passport
pub mod CredentialsV2
pub mod Tests
