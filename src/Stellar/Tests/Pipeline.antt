-- ===== src/Stellar/Tests/Pipeline.antt =====
-- The theorems on the gateway and the worker at concrete inputs.
use culturago_stellar.Base.{
  ℕ, ◌≡◌, ◌≢◌, ◌↔◌, ◌⊎◌, inl, refl, true, false, Option, none, some, String, [], ◌∷◌, ok,
  already_exists, invalid_state_transition, unauthorized, arith, get, set, eq_iff,
}
use culturago_stellar.Domain.Operations.{
  Phase, signed, submitted, restoring, confirming, confirmed, awaiting_signature, unknown,
  failed_terminal, assert_transition,
}
use culturago_stellar.Domain.Entities.{is_hex64}
use culturago_stellar.Domain.Tests.{digest}
use culturago_stellar.Stellar.Operation.{OperationState, SignedPayload, StoredOperation}
use culturago_stellar.Stellar.Store.{create, save, find_by_idempotency_key}
use culturago_stellar.Stellar.Transport.{
  World, done, threw, thrown_domain, thrown_error, raw_leaf, js_boolean, success,
}
use culturago_stellar.Stellar.SmartWallet.{
  AuthEntry, Envelope, EnvelopeOperation, assert_smart_wallet_signed_matches,
}
use culturago_stellar.Stellar.SmartWallet.Tampering.{
  Untampered, assert_smart_wallet_signed_matches-Untampered,
}
use culturago_stellar.Stellar.Commands.{
  Command, register, canonical_idempotency_key, fingerprint_of, spec_for,
}
use culturago_stellar.Stellar.Readback.{raw_matches}
use culturago_stellar.Stellar.Gateway.Confirm.{
  poll_and_confirm, settle, readback_matches, reconcile,
}
use culturago_stellar.Stellar.Gateway.Confirmation.{
  accepted, state_of, poll_and_confirm-confirmed, poll_and_confirm-outcome, reconcile-stuck,
}
use culturago_stellar.Stellar.Gateway.Prepare.{
  prepare, prepare_new, after_simulation, prepared_operation,
}
use culturago_stellar.Stellar.Gateway.Preparation.{prepare-twice}
use culturago_stellar.Stellar.Gateway.Submit.{submit_signed}
use culturago_stellar.Stellar.Gateway.Submission.{submit_signed-guards}
use culturago_stellar.Stellar.Worker.{WorkerOptions}
use culturago_stellar.Stellar.Tests.{
  Script, scripted, config, host, operation_in, state_in, store_with, empty_store,
}

abbrev script : Script
script = record {
  simulation = record {
    needs_restore = false;
    prepared_xdr = "AAAA";
    latest_ledger = 7;
    contract_error = none;
  };
  submission = done "hash";
  status = success (some 9);
  back = raw_leaf (js_boolean true);
}

abbrev world_in : Phase → World Script
world_in phase = record { store = store_with (operation_in phase (some "hash")); chain = script }

abbrev confirmed_state : OperationState
confirmed_state = record (state_in confirmed (some "hash")) { ledger = some 9 }

abbrev confirmed_world : World Script
confirmed_world = record {
  store = store_with (record (operation_in confirmed (some "hash")) { state = confirmed_state });
  chain = script;
}

confirmation :
    poll_and_confirm config scripted 1000
      (operation_in submitted (some "hash"))
      (world_in submitted)
    ≡ (confirmed_world, done confirmed_state)
unfolding poll_and_confirm assert_transition save get set settle readback_matches raw_matches
confirmation = refl

poll_and_confirm-confirmed_example : (confirmed ≡ confirmed) ↔ (
    (done (success (some 9)) ≡ done (success (some 9)))
    × (true ≡ true)
    × (accepted (operation_in submitted (some "hash")) (some 9) (done (raw_leaf (js_boolean true)))
        ≡ true))
poll_and_confirm-confirmed_example =
    poll_and_confirm-confirmed config scripted 1000 (operation_in submitted (some "hash"))
      confirmed_state (world_in submitted) confirmed_world "hash" script script
      (done (success (some 9))) (done (raw_leaf (js_boolean true))) refl refl refl confirmation

poll_and_confirm-outcome_example :
    ((confirmed ≡ confirmed) ⊎ (confirmed ≡ failed_terminal) ⊎ (confirmed ≡ unknown))
    × (assert_transition submitted confirming ≡ ok tt)
    × (assert_transition confirming confirmed ≡ ok tt)
    × (state_of (get "op1" confirmed_world.store.by_id) ≡ some confirmed_state)
poll_and_confirm-outcome_example =
    poll_and_confirm-outcome config scripted 1000 (operation_in submitted (some "hash"))
      confirmed_state (world_in submitted) confirmed_world confirmation

found_in :
    (phase : Phase)
    → get "op1" (world_in phase).store.by_id ≡ some (operation_in phase (some "hash"))
unfolding get
found_in phase = refl

reconcile-stuck_example :
    reconcile config scripted 1000 "op1" (world_in restoring)
    ≡ (world_in restoring, threw (thrown_domain invalid_state_transition))
reconcile-stuck_example =
    reconcile-stuck config scripted 1000 "op1" (operation_in restoring (some "hash"))
      (world_in restoring) (found_in restoring) (inl refl)

abbrev worker : WorkerOptions
worker = record { batch_size = 5; worker_id = "w1"; claim_ttl_seconds = 30; max_attempts = 3 }

abbrev command : Command
command = register (record {
  idempotency_key = "k1";
  actor_address = "GACTOR";
  entity_id = "e1";
  metadata_hash = digest;
  hash_schema = 1;
})

abbrev other_command : Command
other_command = register (record {
  idempotency_key = "k2";
  actor_address = "GACTOR";
  entity_id = "e1";
  metadata_hash = digest;
  hash_schema = 2;
})

abbrev prepared : StoredOperation
prepared = prepared_operation config host scripted "op1" command awaiting_signature "AAAA" 7

abbrev prepared_world : World Script
prepared_world = record { store = store_with prepared; chain = script }

preparation :
    prepare config host scripted "op1" command (record { store = empty_store; chain = script })
    ≡ (prepared_world, done prepared.state)
unfolding prepare prepare_new after_simulation spec_for is_hex64 create get set
    find_by_idempotency_key canonical_idempotency_key
preparation = refl

not_empty : prepared.state.operation_id ≢ ""
not_empty = ground (arith, eq_iff prepared.state.operation_id "")

same_key : canonical_idempotency_key other_command ≡ canonical_idempotency_key command
unfolding canonical_idempotency_key
same_key = refl

prepare-twice_example :
    (prepare config host scripted "op2" command prepared_world
      ≡ (prepared_world, done prepared.state))
    × (fingerprint_of config other_command ≢ fingerprint_of config command
        → prepare config host scripted "op2" other_command prepared_world
          ≡ (prepared_world, threw (thrown_domain already_exists)))
prepare-twice_example =
    prepare-twice config host scripted "op1" "op2" command other_command prepared.state
      (record { store = empty_store; chain = script }) prepared_world not_empty preparation same_key

abbrev other_signer : String
other_signer = "GOTHER"

abbrev sent : String
sent = "BBBB"

submit_signed-guards_example :
    let op = operation_in awaiting_signature (some "hash") in
    (awaiting_signature ≢ awaiting_signature
      → awaiting_signature ≢ signed
      → submit_signed config host scripted 1000 "op1" sent other_signer
          (world_in awaiting_signature)
        ≡ (world_in awaiting_signature, threw (thrown_domain invalid_state_transition)))
    × (awaiting_signature ≡ awaiting_signature
        → other_signer ≢ "GACTOR"
        → submit_signed config host scripted 1000 "op1" sent other_signer
            (world_in awaiting_signature)
          ≡ (world_in awaiting_signature, threw (thrown_domain unauthorized)))
    × ((payload : SignedPayload)
        → awaiting_signature ≡ signed
        → op.intent.signed ≡ some payload
        → (sent ≢ payload.signed_xdr) ⊎ (other_signer ≢ payload.signer_address)
        → submit_signed config host scripted 1000 "op1" sent other_signer
            (world_in awaiting_signature)
          ≡ (world_in awaiting_signature, threw (thrown_domain unauthorized)))
submit_signed-guards_example =
    submit_signed-guards config host scripted 1000 "op1" sent other_signer
      (operation_in awaiting_signature (some "hash")) (world_in awaiting_signature)
      (found_in awaiting_signature)

abbrev down : Script
down = record script { submission = threw (thrown_error "timeout") }

abbrev down_world : World Script
down_world = record { store = store_with (operation_in awaiting_signature none); chain = down }

abbrev entry : Option ℕ → AuthEntry
entry size = record {
  credentials = "sorobancredentialsaddressv2";
  address = "CWALLET";
  signature_is_void = false;
  signature_size = size;
  xdr = "XDR";
}

abbrev envelope : Option ℕ → Envelope
envelope size = record {
  envelope_type = "envelopeTypeTx";
  operations = record { is_invoke_host_function = true; auth = entry size ∷ [] } ∷ [];
  bare_xdr = "BARE";
}

accepted_envelope :
    assert_smart_wallet_signed_matches (envelope none) (envelope (some 1)) "CWALLET" ≡ ok tt
unfolding assert_smart_wallet_signed_matches
accepted_envelope = refl

assert_smart_wallet_signed_matches-Untampered_example :
    (u s : EnvelopeOperation) × ((envelope none).operations ≡ u ∷ [])
    × ((envelope (some 1)).operations ≡ s ∷ [])
    × (s.is_invoke_host_function ≡ true)
    × ((envelope none).bare_xdr ≡ (envelope (some 1)).bare_xdr)
    × Untampered "CWALLET" u.auth s.auth
assert_smart_wallet_signed_matches-Untampered_example =
    assert_smart_wallet_signed_matches-Untampered (envelope none) (envelope (some 1)) "CWALLET"
      accepted_envelope
