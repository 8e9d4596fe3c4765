-- ===== src/Stellar/Gateway/Submit.antt =====
-- submitSigned and the full pipeline of src/infrastructure/stellar/SorobanStellarGateway.ts.
use culturago_stellar.Base.{
  ℕ, ◌&&◌, not, Option, none, some, String, or_fail, require, unauthorized,
  invalid_state_transition, if◌then◌else◌, ◌==◌, text_eq, starts_with,
}
use culturago_stellar.Domain.Operations.{
  Phase-discrete, phase_eq, awaiting_signature, signed, submitted,
}
use culturago_stellar.Stellar.Operation.{
  OperationState, PreparedPayload, SignedPayload, StoredOperation,
}
use culturago_stellar.Stellar.Store.{save}
use culturago_stellar.Stellar.Transport.{
  SorobanTransport, Failure, thrown_domain, thrown_error, thrown_value, Attempt, threw, done, Act,
  ◌>>=◌, ◌>>◌, return, throw, lift, attempt, commit, on_chain, catch,
}
use culturago_stellar.Stellar.SmartWallet.{assert_smart_wallet_signed_matches}
use culturago_stellar.Stellar.Commands.{Command, Config}
use culturago_stellar.Stellar.Gateway.Confirm.{
  with_phase, with_error, schedule_retry, poll_and_confirm, require_operation,
}
use culturago_stellar.Stellar.Gateway.Prepare.{Host, given, is_given, prepare, get_prepared_payload}

abbrev pub with_signed : SignedPayload → StoredOperation → StoredOperation
with_signed payload op =
    with_phase signed (record op { intent = record op.intent { signed = some payload } })

abbrev pub with_hash : String → StoredOperation → StoredOperation
with_hash hash op = record op { state = record op.state { tx_hash = some hash; phase = submitted } }

-- `op.intent.prepared!.unsignedXdr`: without a prepared payload the access throws a `TypeError`.
abbrev pub unsigned_xdr_of : StoredOperation → Attempt String
unsigned_xdr_of op = elim op.intent.prepared [
  | some payload ↦ done payload.unsigned_xdr
  | none ↦ threw (thrown_error "Cannot read properties of null")
]

abbrev pub submit_error_code : Host → Failure → String
submit_error_code host (thrown_domain code) = host.message code
submit_error_code host (thrown_error message) = message
submit_error_code host thrown_value = "SUBMIT_FAILED"

module _ {Chain : Type 0} (config : Config) (host : Host) (transport : SorobanTransport Chain)
    (now : ℕ) where
  -- The `catch` around a submission.
  unfoldable pub retry_later : {A : Type 0} → StoredOperation → Failure → Act Chain A
  unfolding schedule_retry
  retry_later op f = do
    commit (save (with_error (some (submit_error_code host f)) (schedule_retry now op)))
    throw invalid_state_transition

  -- The recovery of an operation that was signed but not yet submitted. Its `try` covers the save after
  -- the submission, but not the poll, whose promise is returned without `await`.
  unfoldable pub submit_recovered : StoredOperation → String → String → Act Chain OperationState
  unfolding retry_later
  submit_recovered op signed_xdr signer_address = do
    payload ← lift (or_fail op.intent.signed invalid_state_transition)
    lift (
        require (signed_xdr == payload.signed_xdr && signer_address == payload.signer_address)
          unauthorized)
    hash ← catch (on_chain (transport.submit payload.signed_xdr)) (retry_later op)
    catch (commit (save (with_hash hash op))) (retry_later (with_hash hash op))
    poll_and_confirm config transport now (with_hash hash op)

  -- The smart wallet's way to the final envelope.
  unfoldable pub wallet_envelope : StoredOperation → String → String → Act Chain String
  wallet_envelope op signed_xdr signer_address = do
    secret ← lift (or_fail (given config.fee_payer_secret) unauthorized)
    unsigned_xdr ← attempt (unsigned_xdr_of op)
    unsigned ← attempt (host.decode unsigned_xdr)
    signed_envelope ← attempt (host.decode signed_xdr)
    lift (assert_smart_wallet_signed_matches unsigned signed_envelope signer_address)
    enforced ← on_chain (transport.enforcing_simulate_and_assemble signed_xdr)
    lift (require (not (is_given enforced.contract_error)) unauthorized)
    attempt (host.sign secret enforced.prepared_xdr)

  -- The classic account's way: the signed envelope is the final one.
  unfoldable pub classic_envelope : StoredOperation → String → Act Chain String
  classic_envelope op signed_xdr = do
    unsigned_xdr ← attempt (unsigned_xdr_of op)
    matches ← on_chain (transport.verify_signed_matches unsigned_xdr signed_xdr)
    lift (require matches unauthorized)
    return signed_xdr

  -- An address of a contract starts with C.
  abbrev pub final_envelope : StoredOperation → String → String → Act Chain String
  final_envelope op signed_xdr signer_address =
      if starts_with 67 signer_address
      then wallet_envelope op signed_xdr signer_address
      else classic_envelope op signed_xdr

  -- The payload is stored in the phase `signed` before the network is touched.
  unfoldable pub submit_final : StoredOperation → String → String → Act Chain OperationState
  unfolding retry_later
  submit_final op final_xdr signer_address =
      let payload : SignedPayload = record {
        operation_id = op.state.operation_id;
        signed_xdr = final_xdr;
        signer_address = signer_address;
      } in
      let kept = with_signed payload op in
      commit (save kept)
      >> (catch (on_chain (transport.submit final_xdr)) (retry_later kept) >>= λ hash.
          commit (save (with_hash hash kept))
          >> poll_and_confirm config transport now (with_hash hash kept))

  unfoldable pub submit_new : StoredOperation → String → String → Act Chain OperationState
  unfolding submit_final
  submit_new op signed_xdr signer_address = do
    lift (require (signer_address == op.intent.actor_address) unauthorized)
    final_xdr ← final_envelope op signed_xdr signer_address
    submit_final op final_xdr signer_address

  -- `submitSigned`, from the operation on.
  unfoldable pub submit_found : StoredOperation → String → String → Act Chain OperationState
  unfolding submit_new submit_recovered Phase-discrete
  submit_found op signed_xdr signer_address =
      if op.state.phase == signed
      then submit_recovered op signed_xdr signer_address
      else if op.state.phase == awaiting_signature
      then submit_new op signed_xdr signer_address
      else throw invalid_state_transition

  unfoldable pub submit_signed : String → String → String → Act Chain OperationState
  unfolding submit_found
  submit_signed id signed_xdr signer_address = do
    op ← require_operation config transport id
    submit_found op signed_xdr signer_address

  unfoldable pub sign_and_submit :
      (PreparedPayload → Attempt SignedPayload) → String → Act Chain OperationState
  unfolding submit_signed
  sign_and_submit sign id = do
    payload ← get_prepared_payload config host transport id
    signed_payload ← attempt (sign payload)
    submit_signed id signed_payload.signed_xdr signed_payload.signer_address

  -- The signer of the fixtures, where the gateway has one.
  unfoldable pub run_full_pipeline :
      Option (PreparedPayload → Attempt SignedPayload) → String → Command → Act Chain OperationState
  unfolding sign_and_submit Phase-discrete
  run_full_pipeline none id command = throw unauthorized
  run_full_pipeline (some sign) id command = prepare config host transport id command >>= λ st.
      if not (st.phase == awaiting_signature)
      then return st
      else sign_and_submit sign st.operation_id
