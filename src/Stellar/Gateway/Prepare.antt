-- ===== src/Stellar/Gateway/Prepare.antt =====
-- prepare and its helpers of src/infrastructure/stellar/SorobanStellarGateway.ts.
use culturago_stellar.Base.{
  ℕ, zero, suc, Bool, true, false, ◌&&◌, Option, none, some, String, or_fail, require, unauthorized,
  invalid_input, already_exists, invalid_state_transition, if◌then◌else◌, ◌==◌, text_eq,
  DomainErrorCode,
}
use culturago_stellar.Domain.Operations.{
  Phase, Phase-discrete, phase_eq, awaiting_signature, restoring, failed_terminal,
}
use culturago_stellar.Stellar.Operation.{OperationState, PreparedPayload, StoredOperation}
use culturago_stellar.Stellar.Store.{find_by_idempotency_key, create}
use culturago_stellar.Stellar.Transport.{
  SorobanTransport, ContractCallSpec, SimulationOutcome, success, failed, not_found_yet, pending,
  Attempt, Act, ◌>>=◌, ◌>>◌, return, throw, lift, attempt, query, commit, on_chain,
}
use culturago_stellar.Stellar.SmartWallet.{Envelope}
use culturago_stellar.Stellar.Commands.{
  Command, kind_of, actor_of, Config, canonical_idempotency_key, fingerprint_of, subject_key_for,
  expected_for, spec_for,
}
use culturago_stellar.Stellar.Gateway.Confirm.{require_operation}

-- What the gateway asks of @stellar/stellar-sdk and of the host: whether an XDR decodes to a plain
-- transaction, its envelope, its signature with a secret key, and the message of a domain error.
pub record Host : Type 0 where
  pub is_plain_transaction : String → Attempt Bool
  pub decode : String → Attempt Envelope
  pub sign : String → String → Attempt String
  pub message : DomainErrorCode → String

-- `!text` for a text that may be missing: the empty one is as good as none.
abbrev pub given : Option String → Option String
given none = none
given (some s) = if s == "" then none else some s

abbrev pub is_given : Option String → Bool
is_given s = elim (given s) [ none ↦ false | some _ ↦ true ]

module _ {Chain : Type 0} (config : Config) (host : Host) (transport : SorobanTransport Chain) where
  -- The record that `prepare` creates where a simulation fails.
  abbrev pub refused_operation : String → Command → Option String → Option String → StoredOperation
  refused_operation id command tx_hash code = record {
    state = record {
      operation_id = id;
      idempotency_key = canonical_idempotency_key command;
      phase = failed_terminal;
      tx_hash = tx_hash;
      ledger = none;
      error_code = code;
    };
    intent = record {
      kind = kind_of command;
      actor_address = actor_of command;
      fingerprint = fingerprint_of config command;
      subject_key = subject_key_for config command;
      prepared = none;
      signed = none;
      expected = none;
    };
    attempt_count = none;
    next_retry_at = none;
  }

  abbrev pub prepared_operation : String → Command → Phase → String → ℕ → StoredOperation
  prepared_operation id command phase unsigned_xdr at_ledger = record {
    state = record {
      operation_id = id;
      idempotency_key = canonical_idempotency_key command;
      phase = phase;
      tx_hash = none;
      ledger = none;
      error_code = none;
    };
    intent = record {
      kind = kind_of command;
      actor_address = actor_of command;
      fingerprint = fingerprint_of config command;
      subject_key = subject_key_for config command;
      prepared = some (record {
        operation_id = id;
        network_passphrase = config.network_passphrase;
        unsigned_xdr = unsigned_xdr;
        prepared_at_ledger = at_ledger;
        intent_fingerprint = fingerprint_of config command;
      });
      signed = none;
      expected = some (expected_for config command);
    };
    attempt_count = none;
    next_retry_at = none;
  }

  unfoldable pub sign_with_fee_payer : String → Act Chain String
  sign_with_fee_payer unsigned_xdr = do
    secret ← lift (or_fail (given config.fee_payer_secret) unauthorized)
    plain ← attempt (host.is_plain_transaction unsigned_xdr)
    lift (require plain invalid_input)
    attempt (host.sign secret unsigned_xdr)

  -- The loop of `waitForSuccess`, with the number of polls that are left.
  unfoldable pub wait_loop : ℕ → String → Act Chain (Unit {0})
  wait_loop zero tx_hash = throw invalid_state_transition
  wait_loop (suc left) tx_hash =
      let again = wait_loop left tx_hash in
      on_chain (transport.poll_transaction tx_hash) >>= λ status. elim status [
        | success ledger ↦ return tt
        | failed code ↦ throw invalid_state_transition
        | not_found_yet ↦ again
        | pending ↦ again
      ]

  unfoldable pub wait_for_success : String → Act Chain (Unit {0})
  unfolding wait_loop
  wait_for_success tx_hash = wait_loop 15 tx_hash

  abbrev pub stored_as : StoredOperation → Act Chain OperationState
  stored_as op = do commit (create op); return op.state

  -- The end of `prepare` on a simulation that did not fail.
  abbrev pub ready : String → Command → Phase → SimulationOutcome → Act Chain OperationState
  ready id command phase sim =
      stored_as (prepared_operation id command phase sim.prepared_xdr sim.latest_ledger)

  -- The second simulation, after the restore transaction.
  unfoldable pub after_restore :
      String → Command → String → SimulationOutcome → Act Chain OperationState
  after_restore id command tx_hash sim =
      if is_given sim.contract_error
      then stored_as (refused_operation id command (some tx_hash) sim.contract_error)
      else if sim.needs_restore
      then throw invalid_state_transition
      else ready id command awaiting_signature sim

  unfoldable pub restore_first :
      String → Command → ContractCallSpec → SimulationOutcome → Act Chain OperationState
  unfolding sign_with_fee_payer wait_for_success after_restore
  restore_first id command spec sim = do
    signed ← sign_with_fee_payer sim.prepared_xdr
    tx_hash ← on_chain (transport.submit signed)
    wait_for_success tx_hash
    again ← on_chain (transport.simulate spec)
    after_restore id command tx_hash again

  -- `prepare` from the first simulation on.
  unfoldable pub after_simulation :
      String → Command → ContractCallSpec → SimulationOutcome → Act Chain OperationState
  unfolding restore_first
  after_simulation id command spec sim =
      if is_given sim.contract_error
      then stored_as (refused_operation id command none sim.contract_error)
      else if sim.needs_restore && is_given config.fee_payer_secret
      then restore_first id command spec sim
      else ready id command (if sim.needs_restore then restoring else awaiting_signature) sim

  unfoldable pub prepare_new : String → Command → Act Chain OperationState
  unfolding after_simulation
  prepare_new id command = do
    spec ← lift (spec_for config command)
    sim ← on_chain (transport.simulate spec)
    after_simulation id command spec sim

  -- A key that is bound answers with the stored operation, or refuses another payload.
  unfoldable pub prepare_bound : Command → StoredOperation → Act Chain OperationState
  prepare_bound command existing =
      if existing.intent.fingerprint == fingerprint_of config command
      then return existing.state
      else throw already_exists

  unfoldable pub prepare : String → Command → Act Chain OperationState
  unfolding prepare_bound prepare_new
  prepare id command = do
    existing ← query (find_by_idempotency_key (canonical_idempotency_key command))
    elim existing [ some op ↦ prepare_bound command op | none ↦ prepare_new id command ]

  unfoldable pub get_prepared_payload : String → Act Chain PreparedPayload
  unfolding Phase-discrete
  get_prepared_payload id = do
    op ← require_operation config transport id
    lift (require (op.state.phase == awaiting_signature) invalid_state_transition)
    lift (or_fail op.intent.prepared invalid_state_transition)
