-- ===== src/Stellar/Gateway.antt =====
-- src/infrastructure/stellar/SorobanStellarGateway.ts: the pipeline of a chain operation.
pub mod Confirm
pub mod Confirmation
pub mod Prepare
pub mod Preparation
pub mod Submit
pub mod Submission
