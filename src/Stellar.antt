-- ===== src/Stellar.antt =====
-- The chain pipeline: src/infrastructure/stellar and its ports.
pub mod Operation
pub mod Store
pub mod Transport
pub mod Readback
pub mod SmartWallet
pub mod Commands
pub mod Gateway
pub mod Worker
pub mod Admin
pub mod Network
pub mod Allowlist
pub mod Chain
pub mod Indexer
pub mod TtlQueue
pub mod Tests
