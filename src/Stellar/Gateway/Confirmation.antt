-- ===== src/Stellar/Gateway/Confirmation.antt =====
-- When an operation is confirmed, and which operations a reconciliation can settle.
use culturago_stellar.Base.{
  ℕ, ◌≡◌, ◌⊎◌, Bool, true, false, Option, none, some, String, ok, invalid_state_transition, arith,
  is_some, ◌↔◌, get, set, get-set_self,
}
use culturago_stellar.Domain.Operations.{
  assert_transition, confirming, confirmed, unknown, restoring, failed_retryable, failed_terminal,
}
use culturago_stellar.Stellar.Operation.{OperationState, StoredOperation}
use culturago_stellar.Stellar.Store.{save}
use culturago_stellar.Stellar.Transport.{
  SorobanTransport, TransactionStatus, success, failed, not_found_yet, pending, World, continue,
  ◌>>=◌, done, threw, thrown_domain, Raw, Attempt,
}
use culturago_stellar.Stellar.Readback.{raw_matches}
use culturago_stellar.Stellar.Commands.{Config, readback_spec_for}
use culturago_stellar.Stellar.Gateway.Confirm.{
  readback_matches, settle, mark_unknown, schedule_retry, with_phase, poll_and_confirm, tx_hash_of,
  reconcile, reconcile_found, require_operation, is_reconcilable, with_ledger, with_error,
  mark_failed, mark_read, finish,
}

abbrev hash_text : Option String → String
hash_text none = ""
hash_text (some hash) = hash

abbrev pub state_of : Option StoredOperation → Option OperationState
state_of none = none
state_of (some op) = some op.state

-- A readback that returned a value which shows what the intent expects.
abbrev pub accepted : StoredOperation → Option ℕ → Attempt Raw → Bool
accepted op ledger (threw f) = false
accepted op ledger (done raw) = raw_matches op.intent ledger raw

module _ {Chain : Type 0} (config : Config) (transport : SorobanTransport Chain) where
  settle_phase :
      (now : ℕ) (op q : StoredOperation) (status : TransactionStatus) (w w' : World Chain)
      → settle config transport now op status w ≡ (w', done q)
      → ((q.state.phase ≡ confirmed)
          ⊎ (q.state.phase ≡ failed_terminal)
          ⊎ (q.state.phase ≡ unknown))
        × (w'.store ≡ w.store)
        × (q.intent ≡ op.intent)
        × (q.state.operation_id ≡ op.state.operation_id)
  unfolding settle readback_matches mark_unknown schedule_retry
  settle_phase now op q status w w' h = ground arith

  settle-confirmed :
      (now : ℕ) (op q : StoredOperation) (status : TransactionStatus) (w w' : World Chain)
      (read : Chain)
      → (back : Attempt Raw)
      → transport.readback (readback_spec_for config op.intent) w.chain ≡ (read, back)
      → settle config transport now op status w ≡ (w', done q)
      → (q.state.phase ≡ confirmed) ↔ (
          (status ≡ success q.state.ledger)
          × (is_some q.state.ledger ≡ true)
          × (accepted op q.state.ledger back ≡ true))
  unfolding settle readback_matches mark_unknown schedule_retry
  settle-confirmed now op q status w w' read back e h = (λ k. ground arith, λ k. ground arith)

  -- A finished poll confirms an operation exactly when the transaction was included with a ledger
  -- number, and the readback made after it returned a value that shows what the intent expects at that
  -- ledger. A transaction hash alone never confirms.
  pub poll_and_confirm-confirmed :
      (now : ℕ) (op : StoredOperation) (st : OperationState) (w w' : World Chain) (hash : String)
      → (polled read : Chain) (answer : Attempt TransactionStatus) (back : Attempt Raw)
      → tx_hash_of config transport op ≡ some hash
      → transport.poll_transaction hash w.chain ≡ (polled, answer)
      → transport.readback (readback_spec_for config op.intent) polled ≡ (read, back)
      → poll_and_confirm config transport now op w ≡ (w', done st)
      → (st.phase ≡ confirmed) ↔ (
          (answer ≡ done (success st.ledger))
          × (is_some st.ledger ≡ true)
          × (accepted op st.ledger back ≡ true))
  unfolding poll_and_confirm settle readback_matches mark_unknown schedule_retry
  poll_and_confirm-confirmed now op st w w' hash polled read answer back a b c h =
      (λ k. ground arith, λ k. ground arith)

  finish_stored :
      (op : StoredOperation) (st : OperationState) (w w' : World Chain)
      → finish config transport op w ≡ (w', done st)
      → state_of (get op.state.operation_id w'.store.by_id) ≡ some st
  unfolding save
  finish_stored op st w w' h = ground (arith, get-set_self op.state.operation_id op w.store.by_id)

  settle_stored :
      (now : ℕ) (op : StoredOperation) (status : TransactionStatus) (st : OperationState)
      (w w' : World Chain)
      → continue (finish config transport) (settle config transport now op status w) ≡ (w', done st)
      → state_of (get op.state.operation_id w'.store.by_id) ≡ some st
  unfolding settle readback_matches mark_unknown schedule_retry
  settle_stored now op pending st w w' h = finish_stored (mark_unknown now op) st w w' h
  settle_stored now op not_found_yet st w w' h = finish_stored (mark_unknown now op) st w w' h
  settle_stored now op (failed code) st w w' h = finish_stored (mark_failed code op) st w w' h
  settle_stored now op (success none) st w w' h =
      finish_stored (with_error (some "MISSING_LEDGER") (mark_unknown now op)) st w w' h
  settle_stored now op (success (some ledger)) st w w' h =
      let after : World Chain = record w {
        chain = (transport.readback (readback_spec_for config op.intent) w.chain).0;
      } in
      ground (
        arith,
        finish_stored (mark_read true (with_ledger ledger op)) st after w',
        finish_stored (mark_read false (with_ledger ledger op)) st after w',
      )

  answer_stored :
      (now : ℕ) (op : StoredOperation) (answer : Attempt TransactionStatus) (st : OperationState)
      → (w w' : World Chain)
      → continue
          (λ status. settle config transport now op status >>= finish config transport)
          (w, answer)
        ≡ (w', done st)
      → state_of (get op.state.operation_id w'.store.by_id) ≡ some st
  answer_stored now op (done status) st w w' h = settle_stored now op status st w w' h
  answer_stored now op (threw f) st w w' h = cc

  -- A finished poll leaves the operation confirmed, failed for good or unknown, the move is one of the
  -- table, and the state that it returns is the stored one.
  pub poll_and_confirm-outcome :
      (now : ℕ) (op : StoredOperation) (st : OperationState) (w w' : World Chain)
      → poll_and_confirm config transport now op w ≡ (w', done st)
      → ((st.phase ≡ confirmed) ⊎ (st.phase ≡ failed_terminal) ⊎ (st.phase ≡ unknown))
        × (assert_transition op.state.phase confirming ≡ ok tt)
        × (assert_transition confirming st.phase ≡ ok tt)
        × (state_of (get op.state.operation_id w'.store.by_id) ≡ some st)
  unfolding poll_and_confirm settle readback_matches mark_unknown schedule_retry save
      assert_transition
  poll_and_confirm-outcome now op st w w' h = (ground arith, ground arith, ground arith, stored)
    where
      stored : state_of (get op.state.operation_id w'.store.by_id) ≡ some st
      stored = ground (
        arith,
        answer_stored now (with_phase confirming op)
            (transport.poll_transaction (hash_text op.state.tx_hash) w.chain).1 st
            (record {
              store = record w.store {
                by_id = set op.state.operation_id (with_phase confirming op) w.store.by_id;
              };
              chain = (transport.poll_transaction (hash_text op.state.tx_hash) w.chain).0;
            })
            w',
      )

  -- A reconciliation never settles a restoring or a retryable operation: the table has no move from
  -- these phases to `confirming`, so it throws before it asks the chain, and changes nothing.
  pub reconcile-stuck :
      (now : ℕ) (id : String) (op : StoredOperation) (w : World Chain)
      → get id w.store.by_id ≡ some op
      → (op.state.phase ≡ restoring) ⊎ (op.state.phase ≡ failed_retryable)
      → reconcile config transport now id w ≡ (w, threw (thrown_domain invalid_state_transition))
  unfolding reconcile require_operation reconcile_found poll_and_confirm assert_transition
      is_reconcilable
  reconcile-stuck now id op w f p = ground arith
