-- ===== src/Stellar/Chain.antt =====
-- src/infrastructure/stellar/InMemoryChainTransport.ts: the chain of tests and demos, an instance of the
-- transport port. JSON and SHA-256 are parameters.
pub mod Ledger
pub mod Immutability
pub mod Port
