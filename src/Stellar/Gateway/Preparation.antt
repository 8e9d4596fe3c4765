-- ===== src/Stellar/Gateway/Preparation.antt =====
-- One operation for one idempotency key, over the gateway.
use culturago_stellar.Base.{
  ◌≡◌, ◌≢◌, refl, inl, inr, Option, none, some, String, already_exists, arith, eq_iff, get-set_self,
  Option-cases, Result-cases,
}
use culturago_stellar.Domain.Operations.{Phase, awaiting_signature, restoring}
use culturago_stellar.Stellar.Operation.{OperationState, StoredOperation}
use culturago_stellar.Stellar.Store.{Store, find_by_idempotency_key, create}
use culturago_stellar.Stellar.Transport.{
  SorobanTransport, SimulationOutcome, ContractCallSpec, World, Attempt, done, threw, thrown_domain,
  continue, on_chain, ◌>>=◌, ◌>>◌,
}
use culturago_stellar.Stellar.Commands.{
  Command, Config, canonical_idempotency_key, fingerprint_of, spec_for,
}
use culturago_stellar.Stellar.Gateway.Prepare.{
  Host, prepare, prepare_new, prepare_bound, after_simulation, restore_first, after_restore,
  stored_as, refused_operation, prepared_operation, ready, wait_for_success, sign_with_fee_payer,
}

abbrev pub summary_of : Option StoredOperation → Option (OperationState × String)
summary_of none = none
summary_of (some op) = some (op.state, op.intent.fingerprint)

-- Whether the store has an operation for the command, in the given state and with its fingerprint.
abbrev pub IsBound : Config → Command → OperationState → Store → Type 0
IsBound config command st s =
    summary_of (find_by_idempotency_key (canonical_idempotency_key command) s)
    ≡ some (st, fingerprint_of config command)

module _ {Chain : Type 0} (config : Config) (host : Host) (transport : SorobanTransport Chain) where
  stored-IsBound :
      (command : Command) (op : StoredOperation) (st : OperationState) (w w' : World Chain)
      → op.state.operation_id ≢ ""
      → op.state.idempotency_key ≡ canonical_idempotency_key command
      → op.intent.fingerprint ≡ fingerprint_of config command
      → stored_as config host transport op w ≡ (w', done st)
      → IsBound config command st w'.store
  unfolding create find_by_idempotency_key
  stored-IsBound command op st w w' n k f h = ground (
    arith,
    eq_iff op.state.operation_id "",
    get-set_self op.state.idempotency_key op.state.operation_id w.store.by_idempotency_key,
    get-set_self op.state.operation_id op w.store.by_id,
  )

  refused-IsBound :
      (id : String) (command : Command) (tx_hash code : Option String) (st : OperationState)
      (w w' : World Chain)
      → id ≢ ""
      → stored_as config host transport
          (refused_operation config host transport id command tx_hash code)
          w
        ≡ (w', done st)
      → IsBound config command st w'.store
  refused-IsBound id command tx_hash code st w w' n h =
      stored-IsBound command (refused_operation config host transport id command tx_hash code) st w
        w' n refl refl h

  ready-IsBound :
      (id : String) (command : Command) (phase : Phase) (sim : SimulationOutcome)
      (st : OperationState) (w w' : World Chain)
      → id ≢ ""
      → ready config host transport id command phase sim w ≡ (w', done st)
      → IsBound config command st w'.store
  ready-IsBound id command phase sim st w w' n h =
      stored-IsBound command
        (prepared_operation config host transport id command phase sim.prepared_xdr
          sim.latest_ledger)
        st w w' n refl refl h

  restored-IsBound :
      (id : String) (command : Command) (hash : String) (sim : SimulationOutcome)
      (st : OperationState)
      → (w w' : World Chain) → id ≢ ""
      → after_restore config host transport id command hash sim w ≡ (w', done st)
      → IsBound config command st w'.store
  unfolding after_restore
  restored-IsBound id command hash sim st w w' n h = ground (
    arith,
    refused-IsBound id command (some hash) sim.contract_error st w w' n,
    ready-IsBound id command awaiting_signature sim st w w' n,
  )

  -- The same for an answer of the second simulation, in whatever world it leaves.
  answered-IsBound :
      (id : String) (command : Command) (hash : String) (answer : Attempt SimulationOutcome)
      (st : OperationState)
      → (w w' : World Chain) → id ≢ ""
      → continue (after_restore config host transport id command hash) (w, answer) ≡ (w', done st)
      → IsBound config command st w'.store
  answered-IsBound id command hash (done sim) st w w' n h =
      restored-IsBound id command hash sim st w w' n h
  answered-IsBound id command hash (threw f) st w w' n h = cc

  waited-IsBound :
      (id : String) (command : Command) (hash : String) (spec : ContractCallSpec)
      (st : OperationState)
      → (waited : World Chain × Attempt (Unit {0})) (w' : World Chain) → id ≢ ""
      → continue
          (λ _.
            on_chain (transport.simulate spec)
            >>= after_restore config host transport id command hash)
          waited
        ≡ (w', done st)
      → IsBound config command st w'.store
  waited-IsBound id command hash spec st (w, done _) w' n h =
      answered-IsBound id command hash (transport.simulate spec w.chain).1 st
        (record w { chain = (transport.simulate spec w.chain).0 }) w' n h
  waited-IsBound id command hash spec st (w, threw f) w' n h = cc

  submitted-IsBound :
      (id : String) (command : Command) (spec : ContractCallSpec) (st : OperationState)
      → (answer : World Chain × Attempt String) (w' : World Chain) → id ≢ ""
      → continue
          (λ hash.
            wait_for_success config host transport hash
            >> (on_chain (transport.simulate spec)
                >>= after_restore config host transport id command hash))
          answer
        ≡ (w', done st)
      → IsBound config command st w'.store
  submitted-IsBound id command spec st (w, done hash) w' n h =
      waited-IsBound id command hash spec st (wait_for_success config host transport hash w) w' n h
  submitted-IsBound id command spec st (w, threw f) w' n h = cc

  restore-IsBound :
      (id : String) (command : Command) (spec : ContractCallSpec) (st : OperationState)
      → (signed : World Chain × Attempt String) (w' : World Chain) → id ≢ ""
      → continue
          (λ xdr. on_chain (transport.submit xdr) >>= λ hash.
            wait_for_success config host transport hash
            >> (on_chain (transport.simulate spec)
                >>= after_restore config host transport id command hash))
          signed
        ≡ (w', done st)
      → IsBound config command st w'.store
  restore-IsBound id command spec st (w, done xdr) w' n h =
      submitted-IsBound id command spec st (on_chain (transport.submit xdr) w) w' n h
  restore-IsBound id command spec st (w, threw f) w' n h = cc

  simulated-IsBound :
      (id : String) (command : Command) (spec : ContractCallSpec) (sim : SimulationOutcome)
      (st : OperationState)
      → (w w' : World Chain) → id ≢ ""
      → after_simulation config host transport id command spec sim w ≡ (w', done st)
      → IsBound config command st w'.store
  unfolding after_simulation restore_first
  simulated-IsBound id command spec sim st w w' n h = ground (
    arith,
    refused-IsBound id command none sim.contract_error st w w' n,
    restore-IsBound id command spec st
        (sign_with_fee_payer config host transport sim.prepared_xdr w) w' n,
    ready-IsBound id command restoring sim st w w' n,
    ready-IsBound id command awaiting_signature sim st w w' n,
  )

  first_answer-IsBound :
      (id : String) (command : Command) (spec : ContractCallSpec)
      (answer : World Chain × Attempt SimulationOutcome)
      → (st : OperationState) (w' : World Chain) → id ≢ ""
      → continue (after_simulation config host transport id command spec) answer ≡ (w', done st)
      → IsBound config command st w'.store
  first_answer-IsBound id command spec (w, done sim) st w' n h =
      simulated-IsBound id command spec sim st w w' n h
  first_answer-IsBound id command spec (w, threw f) st w' n h = cc

  new-IsBound :
      (id : String) (command : Command) (st : OperationState) (w w' : World Chain)
      → id ≢ ""
      → prepare_new config host transport id command w ≡ (w', done st)
      → IsBound config command st w'.store
  unfolding prepare_new
  new-IsBound id command st w w' n h = elim (Result-cases (spec_for config command)) [
    | inl (spec, e) ↦
        first_answer-IsBound id command spec (on_chain (transport.simulate spec) w) st w' n
          (rw e at h)
    | inr (c, e) ↦ absurd (ground arith)
  ]

  bound_again :
      (id : String) (command : Command) (st : OperationState) (w : World Chain)
      → IsBound config command st w.store
      → prepare config host transport id command w ≡ (w, done st)
  unfolding prepare prepare_bound
  bound_again id command st w h =
      ground (arith, eq_iff (fingerprint_of config command) (fingerprint_of config command))

  prepared-IsBound :
      (id : String) (command : Command) (st : OperationState) (w w' : World Chain)
      → id ≢ ""
      → prepare config host transport id command w ≡ (w', done st)
      → IsBound config command st w'.store
  unfolding prepare prepare_bound
  prepared-IsBound id command st w w' n h =
      elim (Option-cases (find_by_idempotency_key (canonical_idempotency_key command) w.store)) [
        | inl e ↦ new-IsBound id command st w w' n (ground arith)
        | inr (op, e) ↦ ground (arith, eq_iff op.intent.fingerprint (fingerprint_of config command))
      ]

  bound_refused :
      (id : String) (other : Command) (st : OperationState) (w : World Chain) (kept : String)
      → summary_of (find_by_idempotency_key (canonical_idempotency_key other) w.store)
        ≡ some (st, kept)
      → fingerprint_of config other ≢ kept
      → prepare config host transport id other w ≡ (w, threw (thrown_domain already_exists))
  unfolding prepare prepare_bound
  bound_refused id other st w kept h d = ground (arith, eq_iff kept (fingerprint_of config other))

  -- A command never makes two operations: after a preparation that succeeded, with a new identifier
  -- that is not empty, preparing the same command again, under whatever new identifier, returns the
  -- same state, calls no chain and changes nothing; another command with the same idempotency key and
  -- another fingerprint is refused as `already_exists`.
  pub prepare-twice :
      (id id' : String) (command other : Command) (st : OperationState) (w w' : World Chain)
      → id ≢ ""
      → prepare config host transport id command w ≡ (w', done st)
      → canonical_idempotency_key other ≡ canonical_idempotency_key command
      → (prepare config host transport id' command w' ≡ (w', done st))
        × (fingerprint_of config other ≢ fingerprint_of config command
            → prepare config host transport id' other w'
              ≡ (w', threw (thrown_domain already_exists)))
  prepare-twice id id' command other st w w' n h k =
      let bound = prepared-IsBound id command st w w' n h in
      (
        bound_again id' command st w' bound,
        λ d. bound_refused id' other st w' (fingerprint_of config command) (rw k bound) d,
      )
