-- ===== src/Stellar/Admin/Service.antt =====
-- The service of src/infrastructure/stellar/AdminStellarService.ts. A `try` that changes its record on the
-- way is a chain of calls, each with a handler for the record as it stands there. The log lines are left out.
use culturago_stellar.Base.{
  ℕ, zero, suc, Bool, true, false, not, Option, none, some, String, List, [], ◌∷◌, Result, ok, err,
  require, invalid_input, already_exists, invalid_state_transition, if◌then◌else◌, ◌==◌, text_eq,
}
use culturago_stellar.Domain.Entities.{is_hex64}
use culturago_stellar.Domain.Operations.{
  Phase-discrete, phase_eq, assert_transition, is_terminal, submitted, confirming, confirmed,
  unknown, failed_retryable, failed_terminal,
}
use culturago_stellar.Stellar.Operation.{StoredOperation}
use culturago_stellar.Stellar.Store.{find_by_idempotency_key, create, save}
use culturago_stellar.Stellar.Transport.{
  SorobanTransport, ContractCallSpec, SimulationOutcome, TransactionStatus, success, failed,
  not_found_yet, pending, threw, Act, ◌>>=◌, ◌>>◌, return, throw, lift, attempt, query, commit,
  on_chain, catch,
}
use culturago_stellar.Stellar.Commands.{Config, identifier}
use culturago_stellar.Stellar.Gateway.Confirm.{with_phase, with_error}
use culturago_stellar.Stellar.Gateway.Prepare.{Host}
use culturago_stellar.Stellar.Admin.{
  AdminOperation, allowed_operation, AdminProvisionResult, LocalSigner, Specs, admin_error_code,
  with_tx_hash, to_result, admin_idempotency_key, polled_record, or_failed, raw_is, known_hash,
  build_specs, admin_fingerprint, create_record,
}

module _ {Chain : Type 0} (config : Config) (host : Host) (signer : LocalSigner)
    (transport : SorobanTransport Chain) where
  -- `LocalSigner.sign`, to the signed transaction.
  unfoldable pub local_sign : String → Act Chain String
  local_sign unsigned_xdr = do
    plain ← attempt (host.is_plain_transaction unsigned_xdr)
    lift (require plain invalid_input)
    attempt (host.sign signer.secret unsigned_xdr)

  -- `if (sim.contractError) throw …`: the empty code is let through, as `null` is.
  abbrev pub assert_simulated : SimulationOutcome → Act Chain (Unit {0})
  assert_simulated sim = elim sim.contract_error [
    | none ↦ return tt
    | some code ↦ if code == "" then return tt else throw invalid_state_transition
  ]

  abbrev pub assert_restored : TransactionStatus → Act Chain (Unit {0})
  assert_restored (success ledger) = return tt
  assert_restored (failed code) = throw invalid_state_transition
  assert_restored not_found_yet = throw invalid_state_transition
  assert_restored pending = throw invalid_state_transition

  -- The branch of `submitWithRestore` that restores the archived entries and simulates again.
  unfoldable pub restore_first : ContractCallSpec → SimulationOutcome → Act Chain SimulationOutcome
  unfolding local_sign
  restore_first spec sim = do
    signed ← local_sign sim.prepared_xdr
    restore_hash ← on_chain (transport.submit signed)
    status ← on_chain (transport.poll_transaction restore_hash)
    assert_restored status
    again ← on_chain (transport.simulate spec)
    assert_simulated again
    return again

  abbrev pub restored : ContractCallSpec → SimulationOutcome → Act Chain SimulationOutcome
  restored spec sim = if sim.needs_restore then restore_first spec sim else return sim

  unfoldable pub submit_with_restore : ContractCallSpec → Act Chain String
  unfolding local_sign restore_first
  submit_with_restore spec = do
    first ← on_chain (transport.simulate spec)
    sim ← restored spec first
    assert_simulated sim
    signed ← local_sign sim.prepared_xdr
    on_chain (transport.submit signed)

  abbrev pub read_boolean : Option ContractCallSpec → Option Bool → Act Chain Bool
  read_boolean none expected = return true
  read_boolean (some spec) none = return true
  read_boolean (some spec) (some expected) = do
    raw ← on_chain (transport.readback spec)
    return (raw_is expected raw)

  unfoldable pub verify_readback : Specs → Act Chain Bool
  verify_readback specs = read_boolean specs.readback_spec specs.expected_readback

  abbrev pub mark_provisioned : StoredOperation → Bool → Act Chain StoredOperation
  mark_provisioned op true = do
    lift (assert_transition op.state.phase confirmed)
    return (with_phase confirmed (with_error none op))
  mark_provisioned op false = do
    lift (assert_transition op.state.phase failed_terminal)
    return (with_phase failed_terminal (with_error (some "READBACK_MISMATCH") op))

  abbrev pub timed_out : StoredOperation → Act Chain StoredOperation
  timed_out op = do
    lift (assert_transition op.state.phase unknown)
    return (with_phase unknown (with_error (some "PENDING_TIMEOUT") op))

  -- The part of `finalize` after its first assertion.
  unfoldable pub finalize_status :
      TransactionStatus → Specs → StoredOperation → Act Chain StoredOperation
  unfolding verify_readback
  finalize_status (success ledger) specs op = do
    matches ← verify_readback specs
    mark_provisioned (polled_record (success ledger) op) matches
  finalize_status (failed code) specs op = do
    lift (assert_transition op.state.phase failed_terminal)
    return (with_phase failed_terminal (with_error (some (or_failed code)) op))
  finalize_status not_found_yet specs op = timed_out op
  finalize_status pending specs op = timed_out op

  unfoldable pub finalize : TransactionStatus → Specs → StoredOperation → Act Chain StoredOperation
  unfolding finalize_status
  finalize status specs op = do
    lift (assert_transition op.state.phase confirming)
    finalize_status status specs op

  -- The `catch` of `execute`, for the record as it stands where the call throws.
  unfoldable pub guarded : {A : Type 0} → StoredOperation → Act Chain A → Act Chain A
  guarded op act = catch act λ f. do
    commit (save (with_phase failed_terminal (with_error (some (admin_error_code host f)) op)))
    attempt (threw f)

  -- The parts of the `try` of `execute`, from its end to its start.
  unfoldable pub finish_record : StoredOperation → Act Chain AdminProvisionResult
  unfolding guarded to_result
  finish_record final = do guarded final (commit (save final)); return (to_result final)

  unfoldable pub settle_record :
      Specs → StoredOperation → TransactionStatus → Act Chain AdminProvisionResult
  unfolding guarded finalize finish_record
  settle_record specs sent status = do
    final ← guarded (polled_record status sent) (finalize status specs sent)
    finish_record final

  unfoldable pub poll_record : Specs → StoredOperation → String → Act Chain AdminProvisionResult
  unfolding guarded settle_record
  poll_record specs sent tx_hash = do
    guarded sent (commit (save sent))
    status ← guarded sent (on_chain (transport.poll_transaction tx_hash))
    settle_record specs sent status

  unfoldable pub run_record : Specs → StoredOperation → Act Chain AdminProvisionResult
  unfolding guarded submit_with_restore poll_record
  run_record specs op = do
    guarded op (lift (assert_transition op.state.phase confirming))
    let started = with_phase confirming op
    guarded started (commit (save started))
    tx_hash ← guarded started (submit_with_restore specs.spec)
    poll_record specs (with_tx_hash tx_hash started) tx_hash

  abbrev pub resubmitted : StoredOperation → Act Chain StoredOperation
  resubmitted op = do
    lift (assert_transition op.state.phase submitted)
    return (with_phase submitted op)

  abbrev pub resumed : StoredOperation → Act Chain StoredOperation
  resumed op = if op.state.phase == failed_retryable then resubmitted op else return op

  abbrev pub send_unless_known : ContractCallSpec → Option String → Act Chain String
  send_unless_known spec (some hash) = return hash
  send_unless_known spec none = submit_with_restore spec

  unfoldable pub recover : Specs → StoredOperation → Act Chain AdminProvisionResult
  unfolding submit_with_restore finalize to_result Phase-discrete
  recover specs op = do
    back ← resumed op
    lift (assert_transition back.state.phase confirming)
    tx_hash ← send_unless_known specs.spec (known_hash back)
    let sent = with_tx_hash tx_hash (with_phase confirming back)
    commit (save sent)
    status ← on_chain (transport.poll_transaction tx_hash)
    final ← finalize status specs sent
    commit (save final)
    return (to_result final)

  abbrev pub execute_existing :
      AdminOperation → String → String → StoredOperation → Act Chain AdminProvisionResult
  execute_existing operation operator_address issuer_hash existing =
      if existing.intent.fingerprint
        == admin_fingerprint config signer operation operator_address issuer_hash
      then if is_terminal existing.state.phase
        then return (to_result existing)
        else recover (build_specs config signer operation operator_address issuer_hash) existing
      else throw already_exists

  abbrev pub execute_found :
      String
      → AdminOperation
      → String
      → String
      → Option StoredOperation
      → Act Chain AdminProvisionResult
  execute_found id operation operator_address issuer_hash (some existing) =
      execute_existing operation operator_address issuer_hash existing
  execute_found id operation operator_address issuer_hash none = do
    let op = create_record config signer id operation operator_address issuer_hash
    commit (create op)
    run_record (build_specs config signer operation operator_address issuer_hash) op

  -- `execute`, with the random identifier.
  unfoldable pub execute :
      String → AdminOperation → String → String → Act Chain AdminProvisionResult
  unfolding run_record recover is_terminal
  execute id operation operator_address issuer_hash = do
    existing ←
        query
          (find_by_idempotency_key (admin_idempotency_key operation operator_address issuer_hash))
    execute_found id operation operator_address issuer_hash existing

  abbrev pub allowed_all : List String → Result (List AdminOperation)
  allowed_all [] = ok []
  allowed_all (name ∷ names) = elim (allowed_operation name) [
    | none ↦ err invalid_input
    | some operation ↦ elim (allowed_all names) [
      | err code ↦ err code
      | ok operations ↦ ok (operation ∷ operations)
    ]
  ]

  -- The loop of `provision`; the n-th operation takes the n-th identifier.
  unfoldable pub execute_all :
      (ℕ → String)
      → ℕ
      → List AdminOperation
      → String
      → String
      → Act Chain (List AdminProvisionResult)
  unfolding execute
  execute_all ids n [] operator_address issuer_hash = return []
  execute_all ids n (operation ∷ operations) operator_address issuer_hash = do
    result ← execute (ids n) operation operator_address issuer_hash
    results ← execute_all ids (suc n) operations operator_address issuer_hash
    return (result ∷ results)

  abbrev pub is_empty : List String → Bool
  is_empty [] = true
  is_empty (x ∷ xs) = false

  unfoldable pub provision :
      (ℕ → String) → String → String → List String → Act Chain (List AdminProvisionResult)
  unfolding execute_all allowed_operation
  provision ids operator_address issuer_entity_id names = do
    lift (require (not (is_empty names)) invalid_input)
    operations ← lift (allowed_all names)
    let issuer_hash = config.hash_document "culturago.entity.v1" (identifier issuer_entity_id)
    lift (require (is_hex64 issuer_hash) invalid_input)
    execute_all ids zero operations operator_address issuer_hash
