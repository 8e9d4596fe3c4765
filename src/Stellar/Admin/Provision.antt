-- ===== src/Stellar/Admin/Provision.antt =====
-- How a new provisioning ends, and what a later one with the same payload does.
use culturago_stellar.Base.{
  ◌∙◌, ◌≡◌, refl, true, Option, none, some, String, arith, JsMap, get, has, get-set_self, text_eq,
}
use culturago_stellar.Domain.Operations.{assert_transition, confirming, failed_terminal}
use culturago_stellar.Stellar.Operation.{StoredOperation, Intent}
use culturago_stellar.Stellar.Store.{save}
use culturago_stellar.Stellar.Transport.{
  SorobanTransport, ContractCallSpec, TransactionStatus, success, failed, not_found_yet, pending,
  Failure, Attempt, done, threw, Act, commit, lift, on_chain, World, continue,
}
use culturago_stellar.Stellar.Commands.{Config}
use culturago_stellar.Stellar.Gateway.Confirm.{with_phase, with_error}
use culturago_stellar.Stellar.Gateway.Prepare.{Host}
use culturago_stellar.Stellar.Admin.{
  AdminProvisionResult, LocalSigner, Specs, admin_error_code, with_tx_hash, to_result,
  polled_record,
}
use culturago_stellar.Stellar.Admin.Service.{
  local_sign, restore_first, submit_with_restore, verify_readback, finalize_status, finalize,
  guarded, finish_record, settle_record, poll_record, run_record,
}

-- A record that ended for good with the given error.
abbrev pub Failed : Intent → String → Option StoredOperation → Type 0
Failed intent code none = ⊥
Failed intent code (some r) =
    (r.state.phase ≡ failed_terminal) × (r.state.error_code ≡ some code) × (r.intent ≡ intent)

-- The record that a call answered with.
abbrev pub Answered : Intent → AdminProvisionResult → Option StoredOperation → Type 0
Answered intent res none = ⊥
Answered intent res (some r) = (to_result r ≡ res) × (r.intent ≡ intent)

-- What holds after a call, by the way in which it ended.
abbrev pub Outcome :
    {Chain A : Type 0}
    → (Failure → World Chain → Type 0)
    → (A → World Chain → Type 0)
    → World Chain × Attempt A
    → Type 0
Outcome T Q (w, done a) = Q a w
Outcome T Q (w, threw f) = T f w

continue-Outcome :
    {Chain A B : Type 0} (T : Failure → World Chain → Type 0) (P : A → World Chain → Type 0)
    (Q : B → World Chain → Type 0) (next : A → Act Chain B) (r : World Chain × Attempt A)
    → Outcome T P r
    → ((a : A) (w : World Chain) → P a w → Outcome T Q (next a w))
    → Outcome T Q (continue next r)
continue-Outcome T P Q next (w, done a) h k = k a w h
continue-Outcome T P Q next (w, threw f) h k = h

module _ {Chain : Type 0} (config : Config) (host : Host) (signer : LocalSigner)
    (transport : SorobanTransport Chain) where
  local_sign_store :
      (xdr : String) (w : World Chain) → (local_sign config host signer transport xdr w).0 ≡ w
  unfolding local_sign
  local_sign_store xdr w = ground arith

  submit_with_restore_store :
      (spec : ContractCallSpec) (w : World Chain)
      → (submit_with_restore config host signer transport spec w).0.store ≡ w.store
  unfolding submit_with_restore local_sign restore_first
  submit_with_restore_store spec w = ground arith

  verify_readback_store :
      (specs : Specs) (w : World Chain)
      → (verify_readback config host signer transport specs w).0.store ≡ w.store
  unfolding verify_readback
  verify_readback_store specs w = ground arith

  finalize_store :
      (status : TransactionStatus) (specs : Specs) (op : StoredOperation) (w : World Chain)
      → (finalize config host signer transport status specs op w).0.store ≡ w.store
  unfolding finalize finalize_status verify_readback
  finalize_store status specs op w = ground arith

  polled_record_id :
      (status : TransactionStatus) (op : StoredOperation)
      → (polled_record status op).state.operation_id ≡ op.state.operation_id
  polled_record_id (success ledger) op = refl
  polled_record_id (failed code) op = refl
  polled_record_id not_found_yet op = refl
  polled_record_id pending op = refl

  polled_record_intent :
      (status : TransactionStatus) (op : StoredOperation)
      → (polled_record status op).intent ≡ op.intent
  polled_record_intent (success ledger) op = refl
  polled_record_intent (failed code) op = refl
  polled_record_intent not_found_yet op = refl
  polled_record_intent pending op = refl

  module _ (id : String) (keys : JsMap String) (intent : Intent) where
    -- The operation is stored, and the idempotency keys are as given.
    abbrev pub Kept : World Chain → Type 0
    Kept w = (has id w.store.by_id ≡ true) × (w.store.by_idempotency_key ≡ keys)

    abbrev pub Mine : StoredOperation → Type 0
    Mine op = (op.state.operation_id ≡ id) × (op.intent ≡ intent)

    abbrev pub Ended : Failure → World Chain → Type 0
    Ended f w =
        Failed intent (admin_error_code host f) (get id w.store.by_id)
        × (w.store.by_idempotency_key ≡ keys)

    -- The handler stores the failure.
    handled-Ended :
        {A : Type 0} (Q : A → World Chain → Type 0) (op : StoredOperation)
        (outcome : World Chain × Attempt A) (w : World Chain)
        → Mine op
        → Outcome (λ _ w₁. Kept w₁) Q outcome
        → Outcome Ended Q (guarded config host signer transport op (λ _. outcome) w)
    unfolding guarded save
    handled-Ended Q op (w₁, done a) w e h = h
    handled-Ended Q op (w₁, threw g) w (e, i) (there, same) = ground (
      arith,
      get-set_self id (with_phase failed_terminal (with_error (some (admin_error_code host g)) op))
          w₁.store.by_id,
    )

    -- A guarded call and what follows it.
    guarded-Ended :
        {A B : Type 0} (P : A → World Chain → Type 0) (Q : B → World Chain → Type 0)
        (op : StoredOperation) (act : Act Chain A) (next : A → Act Chain B) (w : World Chain)
        → Mine op
        → Outcome (λ _ w₁. Kept w₁) P (act w)
        → ((a : A) (w₁ : World Chain) → P a w₁ → Outcome Ended Q (next a w₁))
        → Outcome Ended Q (continue next (guarded config host signer transport op act w))
    unfolding guarded
    guarded-Ended P Q op act next w e h k =
        continue-Outcome Ended P Q next (guarded config host signer transport op act w)
          (handled-Ended P op (act w) w e h) k

    commit-Kept :
        (op : StoredOperation) (w : World Chain)
        → op.state.operation_id ≡ id
        → Kept w
        → Outcome
            (λ _ w₁. Kept w₁)
            (λ _ w₁. Kept w₁ × (get id w₁.store.by_id ≡ some op))
            (commit (save op) w)
    unfolding save
    commit-Kept op w e k = ground (arith, get-set_self id op w.store.by_id)

    finalize-Kept :
        (status : TransactionStatus) (specs : Specs) (op : StoredOperation) (w : World Chain)
        → Kept w
        → Outcome
            (λ _ w₁. Kept w₁)
            (λ q w₁.
              Kept w₁ × (q.state.operation_id ≡ op.state.operation_id) × (q.intent ≡ op.intent))
            (finalize config host signer transport status specs op w)
    unfolding finalize finalize_status verify_readback
    finalize-Kept (success ledger) specs op w k = ground arith
    finalize-Kept (failed code) specs op w k = ground arith
    finalize-Kept not_found_yet specs op w k = ground arith
    finalize-Kept pending specs op w k = ground arith

    same_store-Kept :
        {A : Type 0} (r : World Chain × Attempt A) (w : World Chain)
        → r.0.store ≡ w.store
        → Kept w
        → Outcome (λ _ w₁. Kept w₁) (λ _ w₁. Kept w₁) r
    same_store-Kept (w₁, done a) w e k = rw e k
    same_store-Kept (w₁, threw f) w e k = rw e k

    abbrev pub Settled : AdminProvisionResult → World Chain → Type 0
    Settled res w = Answered intent res (get id w.store.by_id) × (w.store.by_idempotency_key ≡ keys)

    finish_record-Ended :
        (final : StoredOperation) (w : World Chain)
        → Mine final
        → Kept w
        → Outcome Ended Settled (finish_record config host signer transport final w)
    unfolding finish_record
    finish_record-Ended final w (e, i) k =
        guarded-Ended (λ _ w₁. Kept w₁ × (get id w₁.store.by_id ≡ some final)) Settled final
          (commit (save final)) (λ _ w₁. (w₁, done (to_result final))) w (e, i)
          (commit-Kept final w e k) (λ _ w₁ h. rw h.1 ((refl, i), h.0.1))

    settle_record-Ended :
        (specs : Specs) (sent : StoredOperation) (status : TransactionStatus) (w : World Chain)
        → Mine sent
        → Kept w
        → Outcome Ended Settled (settle_record config host signer transport specs sent status w)
    unfolding settle_record
    settle_record-Ended specs sent status w (e, i) k =
        guarded-Ended
          (λ q w₁.
            Kept w₁ × (q.state.operation_id ≡ sent.state.operation_id) × (q.intent ≡ sent.intent))
          Settled (polled_record status sent)
          (finalize config host signer transport status specs sent)
          (finish_record config host signer transport) w
          (polled_record_id status sent ∙ e, polled_record_intent status sent ∙ i)
          (finalize-Kept status specs sent w k)
          λ q w₁ (kept, same, mine). finish_record-Ended q w₁ (same ∙ e, mine ∙ i) kept

    poll_record-Ended :
        (specs : Specs) (sent : StoredOperation) (tx_hash : String) (w : World Chain)
        → Mine sent
        → Kept w
        → Outcome Ended Settled (poll_record config host signer transport specs sent tx_hash w)
    unfolding poll_record
    poll_record-Ended specs sent tx_hash w e k =
        let poll : Act Chain TransactionStatus = on_chain (transport.poll_transaction tx_hash) in
        let settle : TransactionStatus → Act Chain AdminProvisionResult =
          settle_record config host signer transport specs sent in
        guarded-Ended (λ _ w₁. Kept w₁ × (get id w₁.store.by_id ≡ some sent)) Settled sent
          (commit (save sent))
          (λ _ w₁. continue settle (guarded config host signer transport sent poll w₁)) w e
          (commit-Kept sent w e.0 k)
          λ _ w₁ kept.
            guarded-Ended (λ _ w₂. Kept w₂) Settled sent poll settle w₁ e
              (same_store-Kept (poll w₁) w₁ refl kept.0)
              λ status w₂ kept'. settle_record-Ended specs sent status w₂ e kept'

    -- A new provisioning answers with the stored record, or throws with the failure stored.
    pub run_record-Ended :
        (specs : Specs) (op : StoredOperation) (w : World Chain)
        → Mine op
        → Kept w
        → Outcome Ended Settled (run_record config host signer transport specs op w)
    unfolding run_record
    run_record-Ended specs op w e k =
        let started = with_phase confirming op in
        let start : Act Chain (Unit {0}) = lift (assert_transition op.state.phase confirming) in
        let send : Act Chain String = submit_with_restore config host signer transport specs.spec in
        let poll : String → Act Chain AdminProvisionResult = λ tx_hash.
          poll_record config host signer transport specs (with_tx_hash tx_hash started) tx_hash in
        let sending : Act Chain AdminProvisionResult =
          λ w₂. continue poll (guarded config host signer transport started send w₂) in
        guarded-Ended (λ _ w₁. Kept w₁) Settled op start
          (λ _ w₁.
            continue (λ _. sending)
              (guarded config host signer transport started (commit (save started)) w₁))
          w e (same_store-Kept (start w) w refl k)
          λ _ w₁ k₁.
            guarded-Ended (λ _ w₂. Kept w₂ × (get id w₂.store.by_id ≡ some started)) Settled started
              (commit (save started)) (λ _. sending) w₁ e (commit-Kept started w₁ e.0 k₁)
              λ _ w₂ k₂.
                guarded-Ended (λ _ w₃. Kept w₃) Settled started send poll w₂ e
                  (same_store-Kept (send w₂) w₂ (submit_with_restore_store specs.spec w₂) k₂.0)
                  λ tx_hash w₃ k₃.
                    poll_record-Ended specs (with_tx_hash tx_hash started) tx_hash w₃ e k₃
