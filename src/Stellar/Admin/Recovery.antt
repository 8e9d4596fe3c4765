-- ===== src/Stellar/Admin/Recovery.antt =====
-- What a later provisioning with the same payload does, and what a recovery sends.
use culturago_stellar.Base.{
  subst, sym, ap, ◌∙◌, ◌≡◌, ◌≢◌, refl, true, false, some, String, arith, JsMap, get, set, has,
  get-set_self, Option-cases, is_some, inl, inr, text_eq, eq_iff,
}
use culturago_stellar.Domain.Operations.{is_terminal, failed_terminal}
use culturago_stellar.Stellar.Operation.{StoredOperation}
use culturago_stellar.Stellar.Store.{Store, find_by_idempotency_key, create}
use culturago_stellar.Stellar.Transport.{
  SorobanTransport, ContractCallSpec, SimulationOutcome, Attempt, done, threw, World,
}
use culturago_stellar.Stellar.Commands.{Config}
use culturago_stellar.Stellar.Gateway.Prepare.{Host}
use culturago_stellar.Stellar.Admin.{
  AdminOperation, AdminProvisionResult, LocalSigner, Specs, admin_error_code, to_result,
  admin_idempotency_key, known_hash, build_specs, admin_fingerprint, create_record,
}
use culturago_stellar.Stellar.Admin.Service.{
  run_record, recover, execute, finalize, finalize_status, verify_readback,
}
use culturago_stellar.Stellar.Admin.Provision.{
  Outcome, Mine, Kept, Ended, Settled, run_record-Ended,
}

module _ {Chain : Type 0} (config : Config) (host : Host) (signer : LocalSigner)
    (transport : SorobanTransport Chain) where
  execute_terminal :
      (id : String) (operation : AdminOperation) (operator issuer : String) (r : StoredOperation)
      (w : World Chain)
      → find_by_idempotency_key (admin_idempotency_key operation operator issuer) w.store ≡ some r
      → r.intent.fingerprint ≡ admin_fingerprint config signer operation operator issuer
      → is_terminal r.state.phase ≡ true
      → execute config host signer transport id operation operator issuer w
        ≡ (w, done (to_result r))
  unfolding execute
  execute_terminal id operation operator issuer r w found same ended = ground (
    arith,
    eq_iff r.intent.fingerprint (admin_fingerprint config signer operation operator issuer),
  )

  -- A recovery of an operation whose transaction hash is known simulates, signs and submits nothing: it
  -- is the same with any other simulation and any other submission.
  pub recover-known_hash :
      (specs : Specs) (op : StoredOperation) (hash : String)
      → (simulate : ContractCallSpec → Chain → Chain × Attempt SimulationOutcome)
      → (submit : String → Chain → Chain × Attempt String) → (w : World Chain)
      → known_hash op ≡ some hash
      → recover config host signer transport specs op w
        ≡ recover config host signer
            (record transport { simulate = simulate; submit = submit })
            specs
            op
            w
  unfolding recover finalize finalize_status verify_readback
  recover-known_hash specs op hash simulate submit w known = ground arith

  -- The world in which a new record is run.
  abbrev created : StoredOperation → World Chain → World Chain
  created op w = record w {
    store = record w.store {
      by_id = set op.state.operation_id op w.store.by_id;
      by_idempotency_key =
          set op.state.idempotency_key op.state.operation_id w.store.by_idempotency_key;
    };
  }

  execute_new :
      (id : String) (operation : AdminOperation) (operator issuer : String) (w : World Chain)
      → has (admin_idempotency_key operation operator issuer) w.store.by_idempotency_key ≡ false
      → execute config host signer transport id operation operator issuer w
        ≡ run_record config host signer transport
            (build_specs config signer operation operator issuer)
            (create_record config signer id operation operator issuer)
            (created (create_record config signer id operation operator issuer) w)
  unfolding execute find_by_idempotency_key create create_record
  execute_new id operation operator issuer w free = ground arith

  -- A later call on the world that a first one left.
  abbrev pub Final :
      String
      → AdminOperation
      → String
      → String
      → World Chain × Attempt AdminProvisionResult
      → Type 0
  Final id operation operator issuer (w, done res) =
      is_terminal res.phase ≡ true
      → execute config host signer transport id operation operator issuer w ≡ (w, done res)
  Final id operation operator issuer (w, threw f) =
      (res : AdminProvisionResult) × (execute config host signer transport id operation operator
          issuer w
        ≡ (w, done res))
      × (res.phase ≡ failed_terminal)
      × (res.error_code ≡ some (admin_error_code host f))

  found_again :
      (id : String) (operation : AdminOperation) (operator issuer : String) (store : Store)
      (r : StoredOperation)
      → id ≢ ""
      → get (admin_idempotency_key operation operator issuer) store.by_idempotency_key ≡ some id
      → get id store.by_id ≡ some r
      → find_by_idempotency_key (admin_idempotency_key operation operator issuer) store ≡ some r
  unfolding find_by_idempotency_key
  found_again id operation operator issuer store r given bound kept = ground (arith, eq_iff id "")

  Settled-Final :
      (id id' : String) (operation : AdminOperation) (operator issuer : String)
      (outcome : World Chain × Attempt AdminProvisionResult) (keys : JsMap String)
      → id ≢ ""
      → get (admin_idempotency_key operation operator issuer) keys ≡ some id
      → let intent = (create_record config signer id operation operator issuer).intent in
        Outcome
          (Ended config host signer transport id keys intent)
          (Settled config host signer transport id keys intent)
          outcome
        → Final id' operation operator issuer outcome
  unfolding create_record to_result is_terminal
  Settled-Final id id' operation operator issuer (w, done res) keys given bound (kept, same) =
      elim (Option-cases (get id w.store.by_id)) [
        | inl missing ↦ elim (rw missing at kept) [ ]
        | inr (r, found) ↦ λ ended.
            let (answer, intent) = rw found at kept in
            execute_terminal id' operation operator issuer r w
              (found_again id operation operator issuer w.store r given (rw same bound) found)
              (ap (λ i. i.fingerprint) intent) (ap (λ a. is_terminal a.phase) answer ∙ ended)
            ∙ ap (λ a. (w, done a)) answer
      ]
  Settled-Final id id' operation operator issuer (w, threw f) keys given bound (kept, same) =
      elim (Option-cases (get id w.store.by_id)) [
        | inl missing ↦ elim (rw missing at kept) [ ]
        | inr (r, found) ↦
            let (phase, code, intent) = rw found at kept in
            (
              to_result r,
              execute_terminal id' operation operator issuer r w
                  (found_again id operation operator issuer w.store r given (rw same bound) found)
                  (ap (λ i. i.fingerprint) intent) (ap is_terminal phase),
              phase,
              code,
            )
      ]

  new_Mine :
      (id : String) (operation : AdminOperation) (operator issuer : String) (keys : JsMap String)
      → let op = create_record config signer id operation operator issuer in
        Mine config host signer transport id keys op.intent op
  unfolding create_record
  new_Mine id operation operator issuer keys = (refl, refl)

  created-Kept :
      (id : String) (operation : AdminOperation) (operator issuer : String) (w : World Chain)
      → let op = create_record config signer id operation operator issuer in
        let keys =
          set (admin_idempotency_key operation operator issuer) id w.store.by_idempotency_key in
        Kept config host signer transport id keys op.intent (created op w)
  unfolding create_record
  created-Kept id operation operator issuer w = (
    ap is_some
        (get-set_self id (create_record config signer id operation operator issuer) w.store.by_id),
    refl,
  )

  -- How a new provisioning ends is final. A later call with the same operation, operator and issuer returns
  -- the same result and changes neither the store nor the chain, whatever happened to the role since; and
  -- after a call that threw, it returns a failed record with the error that was thrown, also where the
  -- transaction was submitted and only the poll threw.
  pub execute-Final :
      (id id' : String) (operation : AdminOperation) (operator issuer : String) (w : World Chain)
      → id ≢ ""
      → has (admin_idempotency_key operation operator issuer) w.store.by_idempotency_key ≡ false
      → Final id' operation operator issuer
          (execute config host signer transport id operation operator issuer w)
  execute-Final id id' operation operator issuer w given free =
      let op = create_record config signer id operation operator issuer in
      let key = admin_idempotency_key operation operator issuer in
      let keys = set key id w.store.by_idempotency_key in
      let ended =
        run_record-Ended config host signer transport id keys op.intent
          (build_specs config signer operation operator issuer) op (created op w)
          (new_Mine id operation operator issuer keys)
          (created-Kept id operation operator issuer w) in
      subst (Final id' operation operator issuer)
        (sym (execute_new id operation operator issuer w free))
        (Settled-Final id id' operation operator issuer _ keys given
          (get-set_self key id w.store.by_idempotency_key) ended)
