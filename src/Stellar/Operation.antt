-- ===== src/Stellar/Operation.antt =====
-- The durable record of a chain operation: OperationState of src/ports/StellarGateway.ts, the payloads of
-- src/ports/SignerPort.ts and StoredOperation of src/ports/OperationStore.ts. A time is a number of
-- milliseconds.
use culturago_stellar.Base.{ℕ, Bool, Option, none, some, String, Eq, enum_eq}
use culturago_stellar.Domain.Operations.{Phase}

pub record OperationState : Type 0 where
  pub operation_id : String
  pub idempotency_key : String
  pub phase : Phase
  pub tx_hash : Option String
  pub ledger : Option ℕ
  pub error_code : Option String

pub record PreparedPayload : Type 0 where
  pub operation_id : String
  pub network_passphrase : String
  pub unsigned_xdr : String
  pub prepared_at_ledger : ℕ
  pub intent_fingerprint : String

pub record SignedPayload : Type 0 where
  pub operation_id : String
  pub signed_xdr : String
  pub signer_address : String

pub data OperationKind : Type 0 where
  register_entity issue_credential revoke_credential link_wallet admin_provision : OperationKind

unfoldable pub OperationKind-discrete : Discrete OperationKind
OperationKind-discrete = hlevel

instance abbrev pub operation_kind_eq : Eq OperationKind
operation_kind_eq = enum_eq OperationKind-discrete

-- The on-chain state that the readback must show; a field that is left out is `none`. The reason of a
-- revocation is optional twice: left out, or `null`.
pub record Expected : Type 0 where
  pub metadata_hash : Option String
  pub hash_schema : Option ℕ
  pub revoked : Option Bool
  pub credential_id : Option String
  pub issuer_id : Option String
  pub subject_id : Option String
  pub event_id : Option String
  pub credential_type : Option ℕ
  pub issued_by : Option String
  pub revoked_reason_hash : Option (Option String)

abbrev pub nothing_expected : Expected
nothing_expected = record {
  metadata_hash = none;
  hash_schema = none;
  revoked = none;
  credential_id = none;
  issuer_id = none;
  subject_id = none;
  event_id = none;
  credential_type = none;
  issued_by = none;
  revoked_reason_hash = none;
}

pub record Intent : Type 0 where
  pub kind : OperationKind
  pub actor_address : String
  pub fingerprint : String
  pub subject_key : String
  pub prepared : Option PreparedPayload
  pub signed : Option SignedPayload
  pub expected : Option Expected

pub record StoredOperation : Type 0 where
  pub state : OperationState
  pub intent : Intent
  pub attempt_count : Option ℕ
  pub next_retry_at : Option ℕ

-- `value ?? fallback`
abbrev pub or_else : Option ℕ → ℕ → ℕ
or_else none fallback = fallback
or_else (some n) fallback = n
