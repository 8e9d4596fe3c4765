-- ===== src/Stellar/Commands.antt =====
-- The commands of src/ports/StellarGateway.ts and what src/infrastructure/stellar/SorobanStellarGateway.ts
-- derives from one: its contract call, its expected state, its idempotency key and its fingerprint.
use Prim.Native.String.{◌++◌}
use culturago_stellar.Base.{
  ℕ, Bool, true, false, Option, none, some, String, List, [], ◌∷◌, Result, ok, ◌>>◌, require,
  invalid_input, if◌then◌else◌, ◌==◌, text_eq,
}
use culturago_stellar.Domain.Entities.{is_hex64}
use culturago_stellar.Stellar.Operation.{Expected, nothing_expected, OperationKind, Intent}
use culturago_stellar.Stellar.Operation as Kind
use culturago_stellar.Stellar.Transport.{
  ContractArg, address, bytes32, u32, optional_bytes32, ContractCallSpec,
}

pub record RegisterEntity : Type 0 where
  pub idempotency_key : String
  pub actor_address : String
  pub entity_id : String
  pub metadata_hash : String
  pub hash_schema : ℕ

pub record IssueCredential : Type 0 where
  pub idempotency_key : String
  pub actor_address : String
  pub credential_id : String
  pub issuer_id : String
  pub subject_id : String
  pub event_id : String
  pub credential_type : ℕ
  pub metadata_hash : String
  pub hash_schema : ℕ

pub record RevokeCredential : Type 0 where
  pub idempotency_key : String
  pub actor_address : String
  pub credential_id : String
  pub reason_hash : Option String

pub data Command : Type 0 where
  register : RegisterEntity → Command
  issue : IssueCredential → Command
  revoke : RevokeCredential → Command

abbrev pub kind_of : Command → OperationKind
kind_of (register c) = Kind.register_entity
kind_of (issue c) = Kind.issue_credential
kind_of (revoke c) = Kind.revoke_credential

abbrev pub actor_of : Command → String
actor_of (register c) = c.actor_address
actor_of (issue c) = c.actor_address
actor_of (revoke c) = c.actor_address

-- The documents that are hashed: an identifier, a command without its idempotency key, or a provisioning
-- command of src/infrastructure/stellar/AdminStellarService.ts.
pub data Document : Type 0 where
  identifier : String → Document
  register_document : String → String → String → ℕ → Document
  issue_document : String → String → String → String → String → ℕ → String → ℕ → Document
  revoke_document : String → String → Option String → Document
  provision_document : String → String → String → Document

-- The gateway's configuration, and the hash port that its constructor takes.
pub record Config : Type 0 where
  pub network_passphrase : String
  pub entity_registry_contract_id : String
  pub credential_registry_contract_id : String
  pub fee_payer_address : Option String
  pub fee_payer_secret : Option String
  pub hash_document : String → Document → String

abbrev pub entity_schema : String
entity_schema = "culturago.entity.v1"

abbrev pub credential_schema : String
credential_schema = "culturago.credential.v1"

abbrev is_given : Option String → Bool
is_given none = false
is_given (some s) = true

abbrev pub or_empty : Option String → String
or_empty none = ""
or_empty (some s) = s

unfoldable pub canonical_idempotency_key : Command → String
canonical_idempotency_key (register c) = "register:" ++ c.entity_id
canonical_idempotency_key (issue c) = "issue:" ++ c.credential_id
canonical_idempotency_key (revoke c) = "revoke:" ++ c.credential_id ++ ":" ++ or_empty c.reason_hash

-- `if (reasonHash) assertHex32(reasonHash)`: the empty text is let through, as `null` is.
abbrev assert_reason : Option String → Result (Unit {0})
assert_reason none = ok tt
assert_reason (some h) = if h == "" then ok tt else require (is_hex64 h) invalid_input

unfoldable pub fingerprint_document : Command → Document
fingerprint_document (register c) =
    register_document c.actor_address c.entity_id c.metadata_hash c.hash_schema
fingerprint_document (issue c) =
    issue_document c.actor_address c.credential_id c.issuer_id c.subject_id c.event_id
      c.credential_type c.metadata_hash c.hash_schema
fingerprint_document (revoke c) = revoke_document c.actor_address c.credential_id c.reason_hash

module _ (config : Config) where
  abbrev pub hash_id : String → String → String
  hash_id schema id = config.hash_document schema (identifier id)

  unfoldable pub fingerprint_of : Command → String
  unfolding fingerprint_document
  fingerprint_of command =
      config.hash_document "culturago.fingerprint.v1" (fingerprint_document command)

  unfoldable pub subject_key_for : Command → String
  subject_key_for (register c) = hash_id entity_schema c.entity_id
  subject_key_for (issue c) = hash_id credential_schema c.credential_id
  subject_key_for (revoke c) = hash_id credential_schema c.credential_id

  unfoldable pub expected_for : Command → Expected
  expected_for (register c) = record nothing_expected {
    metadata_hash = some c.metadata_hash;
    hash_schema = some c.hash_schema;
  }
  expected_for (issue c) = record nothing_expected {
    credential_id = some (hash_id credential_schema c.credential_id);
    issuer_id = some (hash_id entity_schema c.issuer_id);
    subject_id = some (hash_id entity_schema c.subject_id);
    event_id = some (hash_id entity_schema c.event_id);
    credential_type = some c.credential_type;
    metadata_hash = some c.metadata_hash;
    hash_schema = some c.hash_schema;
    issued_by = some c.actor_address;
    revoked = some false;
  }
  expected_for (revoke c) = record nothing_expected {
    credential_id = some (hash_id credential_schema c.credential_id);
    revoked = some true;
    revoked_reason_hash = some c.reason_hash;
  }

  abbrev call : String → String → List ContractArg → String → ContractCallSpec
  call contract method args actor = record {
    contract_id = contract;
    method = method;
    args = args;
    actor_address = actor;
    fee_payer_address = config.fee_payer_address;
  }

  unfoldable pub spec_for : Command → Result ContractCallSpec
  spec_for (register c) = do
    require (is_hex64 c.metadata_hash) invalid_input
    ok (
        call config.entity_registry_contract_id "register_entity"
          (address c.actor_address
            ∷ bytes32 (hash_id entity_schema c.entity_id)
            ∷ bytes32 c.metadata_hash
            ∷ u32 c.hash_schema
            ∷ [])
          c.actor_address)
  spec_for (issue c) = do
    require (is_hex64 c.metadata_hash) invalid_input
    ok (
        call config.credential_registry_contract_id "issue_credential"
          (address c.actor_address
            ∷ bytes32 (hash_id credential_schema c.credential_id)
            ∷ bytes32 (hash_id entity_schema c.issuer_id)
            ∷ bytes32 (hash_id entity_schema c.subject_id)
            ∷ bytes32 (hash_id entity_schema c.event_id)
            ∷ u32 c.credential_type
            ∷ bytes32 c.metadata_hash
            ∷ u32 c.hash_schema
            ∷ [])
          c.actor_address)
  spec_for (revoke c) = do
    assert_reason c.reason_hash
    ok (
        call config.credential_registry_contract_id "revoke_credential"
          (address c.actor_address
            ∷ bytes32 (hash_id credential_schema c.credential_id)
            ∷ optional_bytes32 c.reason_hash
            ∷ [])
          c.actor_address)

  abbrev no_digest : String
  no_digest = "0000000000000000000000000000000000000000000000000000000000000000"

  abbrev expected_hash : Option Expected → String
  expected_hash none = no_digest
  expected_hash (some e) = elim e.metadata_hash [ some h ↦ h | none ↦ no_digest ]

  abbrev expected_schema : Option Expected → ℕ
  expected_schema none = 0
  expected_schema (some e) = elim e.hash_schema [ some n ↦ n | none ↦ 0 ]

  unfoldable pub readback_spec_for : Intent → ContractCallSpec
  readback_spec_for intent = elim intent.kind [
    | Kind.register_entity ↦
        call config.entity_registry_contract_id "verify_entity"
          (bytes32 intent.subject_key
            ∷ u32 1
            ∷ bytes32 (expected_hash intent.expected)
            ∷ u32 (expected_schema intent.expected)
            ∷ [])
          intent.actor_address
    | _ ↦
        call config.credential_registry_contract_id "get_credential"
          (bytes32 intent.subject_key ∷ []) intent.actor_address
  ]
