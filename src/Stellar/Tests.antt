-- ===== src/Stellar/Tests.antt =====
-- A scripted transport and sample operations for the concrete inputs of the chain pipeline.
pub mod Stores
pub mod Pipeline
pub mod Contracts
pub mod Events
pub mod Admin
use culturago_stellar.Base.{
  ℕ, Bool, true, false, Option, none, some, String, [], ◌∷◌, DomainErrorCode,
}
use culturago_stellar.Domain.Operations.{Phase, awaiting_signature, signed, submitted, restoring}
use culturago_stellar.Stellar.Operation.{
  OperationState, PreparedPayload, SignedPayload, StoredOperation, Intent,
}
use culturago_stellar.Stellar.Operation as Kind
use culturago_stellar.Stellar.Store.{Store}
use culturago_stellar.Stellar.Transport.{
  SorobanTransport, SimulationOutcome, TransactionStatus, Attempt, threw, done, thrown_error,
  thrown_value, Raw, World,
}
use culturago_stellar.Stellar.SmartWallet.{Envelope}
use culturago_stellar.Stellar.Commands.{Config, Command, register, Document, identifier}
use culturago_stellar.Stellar.Gateway.Prepare.{Host}

-- The answers that the transport gives.
pub record Script : Type 0 where
  pub simulation : SimulationOutcome
  pub submission : Attempt String
  pub status : TransactionStatus
  pub back : Raw

abbrev pub scripted : SorobanTransport Script
scripted = record {
  simulate = λ spec c. (c, done c.simulation);
  submit = λ xdr c. (c, c.submission);
  poll_transaction = λ hash c. (c, done c.status);
  readback = λ spec c. (c, done c.back);
  verify_signed_matches = λ unsigned xdr c. (c, done true);
  enforcing_simulate_and_assemble = λ xdr c. (c, done c.simulation);
}

abbrev plain_hash : String → Document → String
plain_hash schema (identifier id) = id
plain_hash schema _ = schema

abbrev pub config : Config
config = record {
  network_passphrase = "Test SDF Network ; September 2015";
  entity_registry_contract_id = "CENTITY";
  credential_registry_contract_id = "CCREDENTIAL";
  fee_payer_address = none;
  fee_payer_secret = none;
  hash_document = plain_hash;
}

abbrev pub host : Host
host = record {
  is_plain_transaction = λ xdr. done true;
  decode = λ xdr. threw thrown_value;
  sign = λ secret xdr. done xdr;
  message = λ code. "refused";
}

abbrev pub state_in : Phase → Option String → OperationState
state_in phase hash = record {
  operation_id = "op1";
  idempotency_key = "register:e1";
  phase = phase;
  tx_hash = hash;
  ledger = none;
  error_code = none;
}

abbrev pub payload : PreparedPayload
payload = record {
  operation_id = "op1";
  network_passphrase = "Test SDF Network ; September 2015";
  unsigned_xdr = "AAAA";
  prepared_at_ledger = 7;
  intent_fingerprint = "f";
}

abbrev pub operation_in : Phase → Option String → StoredOperation
operation_in phase hash = record {
  state = state_in phase hash;
  intent = record {
    kind = Kind.register_entity;
    actor_address = "GACTOR";
    fingerprint = "f";
    subject_key = "e1";
    prepared = some payload;
    signed = none;
    expected = none;
  };
  attempt_count = none;
  next_retry_at = none;
}

abbrev pub store_with : StoredOperation → Store
store_with op = record {
  by_id = ("op1", op) ∷ [];
  by_idempotency_key = ("register:e1", "op1") ∷ [];
  claims = [];
}

abbrev pub empty_store : Store
empty_store = record { by_id = []; by_idempotency_key = []; claims = [] }
