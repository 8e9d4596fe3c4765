-- ===== src/Stellar/Store.antt =====
-- src/infrastructure/stellar/InMemoryOperationStore.ts. The host's clock is an argument.
pub mod Idempotency
pub mod Claims
pub mod Counts
use culturago_stellar.Base.{
  ℕ, ◌+◌, ◌*◌, Bool, true, false, ◌||◌, Option, none, some, String, List, [], ◌∷◌, Result, ok, err,
  already_exists, not_found, if◌then◌else◌, ltb, leb, ◌==◌, text_eq, JsMap, get, set, has, values,
  length,
}
use culturago_stellar.Domain.Operations.{
  Phase, Phase-discrete, phase_eq, signed, submitted, confirming, failed_retryable, unknown,
  restoring,
}
use culturago_stellar.Stellar.Operation.{StoredOperation, or_else}

pub record Claim : Type 0 where
  pub worker_id : String
  pub until : ℕ

pub record Store : Type 0 where
  pub by_id : JsMap StoredOperation
  pub by_idempotency_key : JsMap String
  pub claims : JsMap Claim

unfoldable pub is_actionable : Phase → Bool
unfolding Phase-discrete
is_actionable phase =
    phase == signed
    || phase == submitted
    || phase == confirming
    || phase == failed_retryable
    || phase == unknown
    || phase == restoring

-- `id ? … : null`: the empty text is no identifier.
unfoldable pub find_by_idempotency_key : String → Store → Option StoredOperation
find_by_idempotency_key key s = elim (get key s.by_idempotency_key) [
  | none ↦ none
  | some id ↦ if id == "" then none else get id s.by_id
]

unfoldable pub create : StoredOperation → Store → Result Store
create r s =
    if has r.state.idempotency_key s.by_idempotency_key
    then err already_exists
    else ok (record s {
      by_id = set r.state.operation_id r s.by_id;
      by_idempotency_key = set r.state.idempotency_key r.state.operation_id s.by_idempotency_key;
    })

unfoldable pub save : StoredOperation → Store → Result Store
save r s =
    if has r.state.operation_id s.by_id
    then ok (record s { by_id = set r.state.operation_id r s.by_id })
    else err not_found

pub record ClaimOptions : Type 0 where
  pub batch_size : ℕ
  pub worker_id : String
  pub ttl_seconds : ℕ
  pub max_attempts : Option ℕ

-- `date && date.getTime() > now`
abbrev pub is_later : Option ℕ → ℕ → Bool
is_later none now = false
is_later (some t) now = ltb now t

abbrev pub is_held : Option Claim → ℕ → Bool
is_held none now = false
is_held (some c) now = ltb now c.until

-- The tests of the loop of `claimBatch` that `continue`.
unfoldable pub is_skipped : ClaimOptions → ℕ → StoredOperation → JsMap Claim → Bool
unfolding is_actionable
is_skipped options now r claims =
    if is_actionable r.state.phase
    then leb (or_else options.max_attempts 10) (or_else r.attempt_count 0)
      || is_later r.next_retry_at now
      || is_held (get r.state.operation_id claims) now
    else true

abbrev pub new_claim : ClaimOptions → ℕ → Claim
new_claim options now = record {
  worker_id = options.worker_id;
  until = now + options.ttl_seconds * 1000;
}

-- The loop of `claimBatch` over the records, with the number of results so far. It ends on a full
-- batch, which it tests after it has taken a record.
unfoldable pub claim_loop :
    ClaimOptions → ℕ → List StoredOperation → JsMap Claim → ℕ → List StoredOperation × JsMap Claim
unfolding is_skipped
claim_loop options now [] claims taken = ([], claims)
claim_loop options now (r ∷ rs) claims taken =
    let claimed = set r.state.operation_id (new_claim options now) claims in
    let skipped = claim_loop options now rs claims taken in
    let continued = claim_loop options now rs claimed (taken + 1) in
    if is_skipped options now r claims
    then skipped
    else if leb options.batch_size (taken + 1)
    then (r ∷ [], claimed)
    else (r ∷ continued.0, continued.1)

unfoldable pub claim_batch : ClaimOptions → ℕ → Store → Store × List StoredOperation
unfolding claim_loop
claim_batch options now s =
    let (results, claims) = claim_loop options now (values s.by_id) s.claims 0 in
    (record s { claims = claims }, results)

-- The loop of `countByPhase`: the count of each phase.
unfoldable pub count_loop : List StoredOperation → (Phase → ℕ) → Phase → ℕ
unfolding Phase-discrete
count_loop [] counts p = counts p
count_loop (r ∷ rs) counts p =
    count_loop rs (λ q. if r.state.phase == q then counts q + 1 else counts q) p

unfoldable pub count_by_phase : Store → Phase → ℕ
unfolding count_loop
count_by_phase s = count_loop (values s.by_id) (λ _. 0)
