-- ===== src/Stellar/Worker.antt =====
-- src/infrastructure/stellar/StellarWorker.ts: one batch of the outbox worker. The loop around it, its
-- pauses and its log are not modelled.
pub mod Attempts
use culturago_stellar.Base.{
  ℕ, ◌+◌, Bool, true, false, ◌&&◌, ◌||◌, not, Option, none, some, String, List, [], ◌∷◌, length,
  if◌then◌else◌, ◌==◌, ltb, get, or_fail, invalid_state_transition, first_chars,
}
use culturago_stellar.Domain.Operations.{
  Phase, Phase-discrete, phase_eq, awaiting_signature, signed, submitted, confirming, confirmed,
  failed_retryable, failed_terminal, unknown, restoring,
}
use culturago_stellar.Stellar.Operation.{OperationState, StoredOperation, or_else}
use culturago_stellar.Stellar.Store.{Store, ClaimOptions, claim_batch, save, is_later}
use culturago_stellar.Stellar.Transport.{
  SorobanTransport, Failure, thrown_domain, thrown_error, thrown_value, Attempt, threw, done, World,
  Act, ◌>>=◌, ◌>>◌, return, lift, commit, query, catch,
}
use culturago_stellar.Stellar.Commands.{Config}
use culturago_stellar.Stellar.Gateway.Prepare.{Host}
use culturago_stellar.Stellar.Gateway.Confirm.{with_phase, with_error, backoff_ms, reconcile}
use culturago_stellar.Stellar.Gateway.Submit.{submit_signed}

pub record WorkerOptions : Type 0 where
  pub batch_size : ℕ
  pub worker_id : String
  pub claim_ttl_seconds : ℕ
  pub max_attempts : ℕ

abbrev message_of : Host → Failure → String
message_of host (thrown_domain code) = host.message code
message_of host (thrown_error message) = message
message_of host thrown_value = "WORKER_ERROR"

unfoldable pub worker_error_code : Host → Failure → String
worker_error_code host f = first_chars 128 (message_of host f)

unfoldable pub settles_by_itself : ℕ → StoredOperation → Bool
unfolding Phase-discrete
settles_by_itself now r = r.state.phase == signed && is_later r.next_retry_at now

-- The record after a failed attempt: given up, or to be tried again.
unfoldable pub after_failure : WorkerOptions → ℕ → String → StoredOperation → StoredOperation
unfolding backoff_ms
after_failure options now code r =
    let attempts = or_else r.attempt_count 0 + 1 in
    let counted = record r { attempt_count = some attempts } in
    if ltb options.max_attempts attempts
    then with_phase failed_terminal (with_error (some "MAX_ATTEMPTS_EXCEEDED") counted)
    else record (with_phase failed_retryable (with_error (some code) counted)) {
      next_retry_at = some (now + backoff_ms attempts);
    }

module _ {Chain : Type 0} (config : Config) (host : Host) (transport : SorobanTransport Chain)
    (options : WorkerOptions) (now : ℕ) where
  unfoldable pub process : StoredOperation → Act Chain (Unit {0})
  process op = elim op.state.phase [
    | signed ↦ do
      payload ← lift (or_fail op.intent.signed invalid_state_transition)
      st ←
          submit_signed config host transport now op.state.operation_id payload.signed_xdr
            payload.signer_address
      return tt
    | submitted ↦ do st ← reconcile config transport now op.state.operation_id; return tt
    | confirming ↦ do st ← reconcile config transport now op.state.operation_id; return tt
    | unknown ↦ do st ← reconcile config transport now op.state.operation_id; return tt
    | restoring ↦ do st ← reconcile config transport now op.state.operation_id; return tt
    | failed_retryable ↦ do st ← reconcile config transport now op.state.operation_id; return tt
    | _ ↦ return tt
  ]

  -- `save(…).catch(() => undefined)`
  abbrev save_quietly : StoredOperation → Act Chain (Unit {0})
  save_quietly r = catch (commit (save r)) (λ f. return tt)

  unfoldable pub note_failure : StoredOperation → String → Act Chain (Unit {0})
  unfolding settles_by_itself after_failure Phase-discrete
  note_failure r code =
      if settles_by_itself now r
      then save_quietly (with_error (some code) r)
      else if r.state.phase == confirmed || r.state.phase == failed_terminal
      then return tt
      else save_quietly (after_failure options now code r)

  -- The handler of an operation's failure.
  unfoldable pub on_failure : StoredOperation → Failure → Act Chain (Unit {0})
  unfolding note_failure worker_error_code
  on_failure op f = do
    found ← query (λ s. get op.state.operation_id s.by_id)
    elim found [ none ↦ return tt | some r ↦ note_failure r (worker_error_code host f) ]

  unfoldable pub process_all : List StoredOperation → Act Chain (Unit {0})
  unfolding process on_failure
  process_all [] = return tt
  process_all (op ∷ ops) = catch (process op) (on_failure op) >> process_all ops

  abbrev pub claim_options : ClaimOptions
  claim_options = record {
    batch_size = options.batch_size;
    worker_id = options.worker_id;
    ttl_seconds = options.claim_ttl_seconds;
    max_attempts = some options.max_attempts;
  }

  unfoldable pub run_one_batch : Act Chain ℕ
  unfolding claim_batch process_all
  run_one_batch w =
      let (s, batch) = claim_batch claim_options now w.store in
      (process_all batch >> return (length batch)) (record w { store = s })
