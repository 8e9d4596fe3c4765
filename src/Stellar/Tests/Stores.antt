-- ===== src/Stellar/Tests/Stores.antt =====
-- The theorems on the store of operations at concrete inputs.
use culturago_stellar.Base.{
  ℕ, ◌≡◌, ◌≢◌, ◌≤◌, ◌⊎◌, refl, none, some, [], ok, err, already_exists, arith, get, set, length,
  All, eq_iff,
}
use culturago_stellar.Domain.Operations.{Phase, phase_eq, signed, submitted}
use culturago_stellar.Stellar.Operation.{StoredOperation}
use culturago_stellar.Stellar.Store.{Store, ClaimOptions, create, save, claim_batch, count_by_phase}
use culturago_stellar.Stellar.Store.Idempotency.{start, followed, saved, create-once}
use culturago_stellar.Stellar.Store.Claims.{Claimable, claim_batch-Claimable, claim_batch-exclusive}
use culturago_stellar.Stellar.Tests.{operation_in, store_with, empty_store}

abbrev first : StoredOperation
first = operation_in signed none

abbrev second : StoredOperation
second = operation_in submitted (some "hash")

creation : create first empty_store ≡ ok (store_with first)
unfolding create get set
creation = refl

saving : save second (store_with first) ≡ ok (store_with second)
unfolding save get set
saving = refl

create-once_example : create second (store_with second) ≡ err already_exists
create-once_example =
    create-once empty_store (store_with first) (store_with second) first second creation
      (followed start (saved second saving)) refl

named : first.state.operation_id ≢ ""
named = ground (arith, eq_iff first.state.operation_id "")

abbrev options : ClaimOptions
options = record { batch_size = 5; worker_id = "w1"; ttl_seconds = 30; max_attempts = none }

abbrev other_options : ClaimOptions
other_options = record options { worker_id = "w2" }

claim_batch-Claimable_example :
    let batch = (claim_batch options 1000 (store_with second)).1 in
    All (Claimable options 1000 []) batch × ((length batch ≤ 5) ⊎ (length batch ≤ 1))
claim_batch-Claimable_example = claim_batch-Claimable options 1000 (store_with second) (omega arith)

abbrev claimed_store : Store
claimed_store = (claim_batch options 1000 (store_with second)).0

claim_batch-exclusive_example :
    All
      (λ r.
        All
          (λ q. r.state.operation_id ≢ q.state.operation_id)
          (claim_batch other_options 2000 claimed_store).1)
      (claim_batch options 1000 (store_with second)).1
claim_batch-exclusive_example =
    claim_batch-exclusive options other_options 1000 2000 (store_with second) claimed_store
      (omega arith) refl (omega arith)

abbrev counts : Phase → ℕ
counts = count_by_phase (store_with first)
