-- ===== src/Stellar/Gateway/Submission.antt =====
-- What a submission keeps and whom it trusts.
use culturago_stellar.Base.{
  ℕ, ◌≡◌, ◌≢◌, ◌⊎◌, some, String, unauthorized, invalid_state_transition, arith, eq_iff, get,
}
use culturago_stellar.Domain.Operations.{awaiting_signature, signed}
use culturago_stellar.Stellar.Operation.{SignedPayload, StoredOperation}
use culturago_stellar.Stellar.Transport.{SorobanTransport, World, threw, thrown_domain}
use culturago_stellar.Stellar.Commands.{Config}
use culturago_stellar.Stellar.Gateway.Prepare.{Host}
use culturago_stellar.Stellar.Gateway.Confirm.{require_operation}
use culturago_stellar.Stellar.Gateway.Submit.{
  submit_signed, submit_found, submit_new, submit_recovered,
}

module _ {Chain : Type 0} (config : Config) (host : Host) (transport : SorobanTransport Chain)
    (now : ℕ) where
  -- Only an operation that awaits its signature or was signed is submitted, and never for another
  -- signer: any other phase, a signer who is not the actor of an intent, and a payload that differs
  -- from the stored one are refused, and nothing changes.
  pub submit_signed-guards :
      (id xdr signer : String) (op : StoredOperation) (w : World Chain)
      → get id w.store.by_id ≡ some op
      → (op.state.phase ≢ awaiting_signature
          → op.state.phase ≢ signed
          → submit_signed config host transport now id xdr signer w
            ≡ (w, threw (thrown_domain invalid_state_transition)))
        × (op.state.phase ≡ awaiting_signature
            → signer ≢ op.intent.actor_address
            → submit_signed config host transport now id xdr signer w
              ≡ (w, threw (thrown_domain unauthorized)))
        × ((payload : SignedPayload)
            → op.state.phase ≡ signed
            → op.intent.signed ≡ some payload
            → (xdr ≢ payload.signed_xdr) ⊎ (signer ≢ payload.signer_address)
            → submit_signed config host transport now id xdr signer w
              ≡ (w, threw (thrown_domain unauthorized)))
  unfolding submit_signed require_operation submit_found submit_new submit_recovered
  submit_signed-guards id xdr signer op w f = (
    λ a b. ground arith,
    λ a b. ground (arith, eq_iff signer op.intent.actor_address),
    λ payload a b c.
        ground (arith, eq_iff xdr payload.signed_xdr, eq_iff signer payload.signer_address),
  )
