-- ===== src/Stellar/Admin.antt =====
-- src/infrastructure/stellar/AdminStellarService.ts, with the signer of
-- src/infrastructure/stellar/LocalSigner.ts: what a provisioning operation calls and stores.
pub mod Service
pub mod Recovery
pub mod Provision
use Prim.Native.String.{◌++◌}
use culturago_stellar.Base.{
  ℕ, zero, suc, Bool, true, false, not, Option, none, some, is_some, String, List, [], ◌∷◌, Result,
  ok, err, require, invalid_input, already_exists, invalid_state_transition, if◌then◌else◌, ◌==◌,
  text_eq, before_colon,
}
use culturago_stellar.Domain.Entities.{is_hex64}
use culturago_stellar.Domain.Operations.{
  Phase, Phase-discrete, phase_eq, assert_transition, is_terminal, submitted, confirming, confirmed,
  unknown, failed_retryable, failed_terminal,
}
use culturago_stellar.Stellar.Operation.{OperationState, StoredOperation}
use culturago_stellar.Stellar.Operation as Kind
use culturago_stellar.Stellar.Store.{find_by_idempotency_key, create, save}
use culturago_stellar.Stellar.Transport.{
  SorobanTransport, ContractArg, address, bytes32, ContractCallSpec, SimulationOutcome,
  TransactionStatus, success, failed, not_found_yet, pending, Leaf, js_boolean, Raw, raw_leaf,
  Failure, thrown_domain, thrown_error, thrown_value, Attempt, threw, Act, ◌>>=◌, ◌>>◌, return,
  throw, lift, attempt, query, commit, on_chain, catch,
}
use culturago_stellar.Stellar.Commands.{Config, identifier, provision_document}
use culturago_stellar.Stellar.Gateway.Confirm.{with_phase, with_error}
use culturago_stellar.Stellar.Gateway.Prepare.{Host}

pub data AdminOperation : Type 0 where
  grant_issuer grant_revoker grant_registrar : AdminOperation
  revoke_issuer revoke_revoker revoke_registrar : AdminOperation
  link_issuer_operator unlink_issuer_operator : AdminOperation

abbrev pub admin_operation_name : AdminOperation → String
admin_operation_name grant_issuer = "grant_issuer"
admin_operation_name grant_revoker = "grant_revoker"
admin_operation_name grant_registrar = "grant_registrar"
admin_operation_name revoke_issuer = "revoke_issuer"
admin_operation_name revoke_revoker = "revoke_revoker"
admin_operation_name revoke_registrar = "revoke_registrar"
admin_operation_name link_issuer_operator = "link_issuer_operator"
admin_operation_name unlink_issuer_operator = "unlink_issuer_operator"

abbrev pub admin_operations : List AdminOperation
admin_operations =
    grant_issuer ∷ grant_revoker ∷ grant_registrar ∷ revoke_issuer ∷ revoke_revoker
    ∷ revoke_registrar ∷ link_issuer_operator ∷ unlink_issuer_operator ∷ []

abbrev pub named_among : String → List AdminOperation → Option AdminOperation
named_among name [] = none
named_among name (o ∷ os) = if admin_operation_name o == name then some o else named_among name os

-- `allowedOps.has(op)`, with the operation of that name.
unfoldable pub allowed_operation : String → Option AdminOperation
allowed_operation name = named_among name admin_operations

pub record AdminProvisionResult : Type 0 where
  pub operation : String
  pub operation_id : String
  pub tx_hash : Option String
  pub phase : Phase
  pub error_code : Option String

-- The keypair that `LocalSigner` makes of the admin's secret.
pub record LocalSigner : Type 0 where
  pub public_key : String
  pub secret : String

pub record Specs : Type 0 where
  pub spec : ContractCallSpec
  pub readback_spec : Option ContractCallSpec
  pub expected_readback : Option Bool

abbrev pub admin_error_code : Host → Failure → String
admin_error_code host (thrown_domain code) = host.message code
admin_error_code host (thrown_error message) = message
admin_error_code host thrown_value = "PROVISION_FAILED"

abbrev pub with_tx_hash : String → StoredOperation → StoredOperation
with_tx_hash hash op = record op { state = record op.state { tx_hash = some hash } }

unfoldable pub to_result : StoredOperation → AdminProvisionResult
to_result r = record {
  operation = before_colon r.intent.subject_key;
  operation_id = r.state.operation_id;
  tx_hash = r.state.tx_hash;
  phase = r.state.phase;
  error_code = r.state.error_code;
}

abbrev pub admin_idempotency_key : AdminOperation → String → String → String
admin_idempotency_key operation operator_address issuer_hash =
    "admin:" ++ admin_operation_name operation ++ ":" ++ operator_address ++ ":" ++ issuer_hash

-- What `finalize` writes before it reads the contract back.
abbrev pub polled_record : TransactionStatus → StoredOperation → StoredOperation
polled_record (success ledger) op = record op { state = record op.state { ledger = ledger } }
polled_record (failed code) op = op
polled_record not_found_yet op = op
polled_record pending op = op

abbrev pub or_failed : Option String → String
or_failed none = "CONTRACT_FAILED"
or_failed (some code) = code

-- `raw === expected`, false on `null`.
abbrev pub raw_is : Bool → Raw → Bool
raw_is expected (raw_leaf (js_boolean b)) = if expected then b else not b
raw_is expected _ = false

abbrev pub known_hash : StoredOperation → Option String
known_hash op = elim op.state.tx_hash [
  | none ↦ none
  | some hash ↦ if hash == "" then none else some hash
]

module _ (config : Config) (signer : LocalSigner) where
  abbrev pub call_of : String → String → List ContractArg → ContractCallSpec
  call_of contract_id method args = record {
    contract_id = contract_id;
    method = method;
    args = args;
    actor_address = signer.public_key;
    fee_payer_address = none;
  }

  abbrev pub role_specs : String → AdminOperation → String → Specs
  role_specs contract_id operation operator_address = record {
    spec =
        call_of contract_id (admin_operation_name operation)
          (address signer.public_key ∷ address operator_address ∷ []);
    readback_spec = none;
    expected_readback = none;
  }

  abbrev pub link_specs : AdminOperation → String → String → Bool → Specs
  link_specs operation operator_address issuer_hash expected =
      let credential = config.credential_registry_contract_id in
      let args : List ContractArg = bytes32 issuer_hash ∷ address operator_address ∷ [] in
      record {
        spec = call_of credential (admin_operation_name operation) args;
        readback_spec = some (call_of credential "is_issuer_operator" args);
        expected_readback = some expected;
      }

  unfoldable pub build_specs : AdminOperation → String → String → Specs
  build_specs grant_issuer operator hash =
      role_specs config.credential_registry_contract_id grant_issuer operator
  build_specs grant_revoker operator hash =
      role_specs config.credential_registry_contract_id grant_revoker operator
  build_specs grant_registrar operator hash =
      role_specs config.entity_registry_contract_id grant_registrar operator
  build_specs revoke_issuer operator hash =
      role_specs config.credential_registry_contract_id revoke_issuer operator
  build_specs revoke_revoker operator hash =
      role_specs config.credential_registry_contract_id revoke_revoker operator
  build_specs revoke_registrar operator hash =
      role_specs config.entity_registry_contract_id revoke_registrar operator
  build_specs link_issuer_operator operator hash =
      link_specs link_issuer_operator operator hash true
  build_specs unlink_issuer_operator operator hash =
      link_specs unlink_issuer_operator operator hash false

  unfoldable pub admin_fingerprint : AdminOperation → String → String → String
  admin_fingerprint operation operator_address issuer_hash =
      config.hash_document "culturago.fingerprint.v1"
        (provision_document (admin_operation_name operation) operator_address issuer_hash)

  unfoldable pub create_record : String → AdminOperation → String → String → StoredOperation
  unfolding admin_fingerprint
  create_record id operation operator_address issuer_hash = record {
    state = record {
      operation_id = id;
      idempotency_key = admin_idempotency_key operation operator_address issuer_hash;
      phase = submitted;
      tx_hash = none;
      ledger = none;
      error_code = none;
    };
    intent = record {
      kind = Kind.admin_provision;
      actor_address = signer.public_key;
      fingerprint = admin_fingerprint operation operator_address issuer_hash;
      subject_key = admin_operation_name operation ++ ":" ++ operator_address ++ ":" ++ issuer_hash;
      prepared = none;
      signed = none;
      expected = none;
    };
    attempt_count = none;
    next_retry_at = none;
  }
