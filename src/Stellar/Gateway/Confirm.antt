-- ===== src/Stellar/Gateway/Confirm.antt =====
-- pollAndConfirm and reconcile of src/infrastructure/stellar/SorobanStellarGateway.ts. The time of the
-- host's clock is an argument.
use culturago_stellar.Base.{
  ℕ, ◌+◌, ◌*◌, ◌^◌, min, Bool, true, false, ◌||◌, Option, none, some, String, or_fail, not_found,
  invalid_state_transition, if◌then◌else◌, ◌==◌, text_eq, get,
}
use culturago_stellar.Domain.Operations.{
  Phase, Phase-discrete, phase_eq, assert_transition, submitted, confirming, confirmed, unknown,
  restoring, failed_retryable, failed_terminal,
}
use culturago_stellar.Stellar.Operation.{OperationState, StoredOperation, or_else}
use culturago_stellar.Stellar.Store.{save}
use culturago_stellar.Stellar.Transport.{
  SorobanTransport, TransactionStatus, success, failed, not_found_yet, pending, Act, ◌>>=◌, ◌>>◌,
  return, lift, query, commit, on_chain,
}
use culturago_stellar.Stellar.Readback.{raw_matches}
use culturago_stellar.Stellar.Commands.{Config, readback_spec_for}

abbrev pub with_phase : Phase → StoredOperation → StoredOperation
with_phase phase op = record op { state = record op.state { phase = phase } }

abbrev pub with_error : Option String → StoredOperation → StoredOperation
with_error code op = record op { state = record op.state { error_code = code } }

unfoldable pub backoff_ms : ℕ → ℕ
backoff_ms attempt = min (2000 * 2 ^ attempt) 60000

unfoldable pub schedule_retry : ℕ → StoredOperation → StoredOperation
unfolding backoff_ms
schedule_retry now op =
    let attempts = or_else op.attempt_count 0 + 1 in
    record op { attempt_count = some attempts; next_retry_at = some (now + backoff_ms attempts) }

unfoldable pub mark_unknown : ℕ → StoredOperation → StoredOperation
unfolding schedule_retry
mark_unknown now op = with_phase unknown (with_error none (schedule_retry now op))

abbrev or_contract_failed : Option String → String
or_contract_failed none = "CONTRACT_FAILED"
or_contract_failed (some code) = code

abbrev pub mark_failed : Option String → StoredOperation → StoredOperation
mark_failed code op =
    record (with_phase failed_terminal (with_error (some (or_contract_failed code)) op)) {
      next_retry_at = none;
    }

abbrev pub with_ledger : ℕ → StoredOperation → StoredOperation
with_ledger ledger op = record op { state = record op.state { ledger = some ledger } }

abbrev pub mark_read : Bool → StoredOperation → StoredOperation
mark_read true op = with_phase confirmed (with_error none op)
mark_read false op = with_phase failed_terminal (with_error (some "READBACK_MISMATCH") op)

unfoldable pub is_reconcilable : Phase → Bool
unfolding Phase-discrete
is_reconcilable phase =
    phase == submitted
    || phase == confirming
    || phase == unknown
    || phase == restoring
    || phase == failed_retryable

module _ {Chain : Type 0} (config : Config) (transport : SorobanTransport Chain) where
  -- `readbackMatches`
  unfoldable pub readback_matches : StoredOperation → Act Chain Bool
  readback_matches op = do
    raw ← on_chain (transport.readback (readback_spec_for config op.intent))
    return (raw_matches op.intent op.state.ledger raw)

  -- The `switch` of `pollAndConfirm` on the status of the transaction.
  unfoldable pub settle : ℕ → StoredOperation → TransactionStatus → Act Chain StoredOperation
  unfolding readback_matches
  settle now op pending = return (mark_unknown now op)
  settle now op not_found_yet = return (mark_unknown now op)
  settle now op (failed code) = return (mark_failed code op)
  settle now op (success none) = return (with_error (some "MISSING_LEDGER") (mark_unknown now op))
  settle now op (success (some ledger)) = do
    matches ← readback_matches (with_ledger ledger op)
    return (mark_read matches (with_ledger ledger op))

  -- The end of `pollAndConfirm`.
  abbrev pub finish : StoredOperation → Act Chain OperationState
  finish op = do commit (save op); return op.state

  -- An empty hash counts as none, like `null`.
  abbrev pub tx_hash_of : StoredOperation → Option String
  tx_hash_of op = elim op.state.tx_hash [
    | none ↦ none
    | some hash ↦ if hash == "" then none else some hash
  ]

  unfoldable pub poll_and_confirm : ℕ → StoredOperation → Act Chain OperationState
  unfolding settle
  poll_and_confirm now op = do
    tx_hash ← lift (or_fail (tx_hash_of op) invalid_state_transition)
    lift (assert_transition op.state.phase confirming)
    commit (save (with_phase confirming op))
    status ← on_chain (transport.poll_transaction tx_hash)
    settled ← settle now (with_phase confirming op) status
    finish settled

  unfoldable pub require_operation : String → Act Chain StoredOperation
  require_operation id = do found ← query (λ s. get id s.by_id); lift (or_fail found not_found)

  unfoldable pub get_operation : String → Act Chain OperationState
  unfolding require_operation
  get_operation id = do op ← require_operation id; return op.state

  -- `reconcile`, from the operation on.
  unfoldable pub reconcile_found : ℕ → StoredOperation → Act Chain OperationState
  unfolding poll_and_confirm is_reconcilable
  reconcile_found now op =
      if is_reconcilable op.state.phase then poll_and_confirm now op else return op.state

  unfoldable pub reconcile : ℕ → String → Act Chain OperationState
  unfolding require_operation reconcile_found
  reconcile now id = do op ← require_operation id; reconcile_found now op
