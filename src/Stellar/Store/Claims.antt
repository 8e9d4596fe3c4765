-- ===== src/Stellar/Store/Claims.antt =====
-- What `claimBatch` hands out.
use culturago_stellar.Base.{
  ℕ, ◌+◌, ◌*◌, ◌≡◌, ◌≢◌, ◌≤◌, ◌<◌, ◌⊎◌, inl, inr, refl, true, false, Option, none, some, String,
  List, [], ◌∷◌, arith, eq_iff, JsMap, get, set, get-set, values, length, All, Bool-cases, ◌==◌,
  text_eq,
}
use culturago_stellar.Stellar.Operation.{StoredOperation, or_else}
use culturago_stellar.Stellar.Store.{
  Store, Claim, ClaimOptions, is_actionable, is_later, is_held, is_skipped, new_claim, claim_loop,
  claim_batch,
}

-- A record that a worker may take: in an actionable phase, with attempts left, past its retry time, and
-- without a claim that still runs.
abbrev pub Claimable : ClaimOptions → ℕ → JsMap Claim → StoredOperation → Type 0
Claimable options now claims r =
    (is_actionable r.state.phase ≡ true)
    × (or_else r.attempt_count 0 < or_else options.max_attempts 10)
    × (is_later r.next_retry_at now ≡ false)
    × (is_held (get r.state.operation_id claims) now ≡ false)

abbrev until_of : Option Claim → Option ℕ
until_of none = none
until_of (some c) = some c.until

-- A record that a claim holds until the given time.
abbrev pub HeldUntil : ℕ → JsMap Claim → StoredOperation → Type 0
HeldUntil t claims r = until_of (get r.state.operation_id claims) ≡ some t

-- When the claims of a batch end.
abbrev pub claim_end : ClaimOptions → ℕ → ℕ
claim_end options now = now + options.ttl_seconds * 1000

is_skipped-Claimable :
    (options : ClaimOptions) (now : ℕ) (claims : JsMap Claim) (r : StoredOperation)
    → is_skipped options now r claims ≡ false
    → Claimable options now claims r
unfolding is_skipped
is_skipped-Claimable options now claims r h = ground arith

-- A claim with a time to live hides its record, and no other record is freed by it.
held_more :
    (options : ClaimOptions) (now : ℕ) (k j : String) (claims : JsMap Claim)
    → 0 < options.ttl_seconds
    → is_held (get k (set j (new_claim options now) claims)) now ≡ false
    → is_held (get k claims) now ≡ false
held_more options now k j claims l h =
    ground (arith, get-set j k (new_claim options now) claims, Bool-cases (j == k))

Claimable-before :
    (options : ClaimOptions) (now : ℕ) (j : String) (claims : JsMap Claim)
    (rs : List StoredOperation)
    → 0 < options.ttl_seconds
    → All (Claimable options now (set j (new_claim options now) claims)) rs
    → All (Claimable options now claims) rs
Claimable-before options now j claims [] l h = tt
Claimable-before options now j claims (r ∷ rs) l ((a, b, c, d), h) = (
  (a, b, c, held_more options now r.state.operation_id j claims l d),
  Claimable-before options now j claims rs l h,
)

claim_loop-Claimable :
    (options : ClaimOptions) (now : ℕ) (rs : List StoredOperation) (claims : JsMap Claim)
    (taken : ℕ)
    → 0 < options.ttl_seconds
    → All (Claimable options now claims) (claim_loop options now rs claims taken).0
unfolding claim_loop
claim_loop-Claimable options now [] claims taken l = tt
claim_loop-Claimable options now (r ∷ rs) claims taken l =
    let claimed = set r.state.operation_id (new_claim options now) claims in
    ground (
      arith,
      is_skipped-Claimable options now claims r,
      claim_loop-Claimable options now rs claims taken l,
      Claimable-before options now r.state.operation_id claims
          (claim_loop options now rs claimed (taken + 1)).0 l
          (claim_loop-Claimable options now rs claimed (taken + 1) l),
    )

set-HeldUntil :
    (options : ClaimOptions) (now : ℕ) (j : String) (claims : JsMap Claim) (q : StoredOperation)
    → (j ≡ q.state.operation_id) ⊎ HeldUntil (claim_end options now) claims q
    → HeldUntil (claim_end options now) (set j (new_claim options now) claims) q
set-HeldUntil options now j claims q h = ground (
  arith,
  eq_iff j q.state.operation_id,
  get-set j q.state.operation_id (new_claim options now) claims,
)

claim_loop-keeps :
    (options : ClaimOptions) (now : ℕ) (rs : List StoredOperation) (claims : JsMap Claim)
    (taken : ℕ)
    → (q : StoredOperation) → HeldUntil (claim_end options now) claims q
    → HeldUntil (claim_end options now) (claim_loop options now rs claims taken).1 q
unfolding claim_loop
claim_loop-keeps options now [] claims taken q h = h
claim_loop-keeps options now (r ∷ rs) claims taken q h =
    let claimed = set r.state.operation_id (new_claim options now) claims in
    let kept = set-HeldUntil options now r.state.operation_id claims q (inr h) in
    ground (
      arith,
      kept,
      claim_loop-keeps options now rs claims taken q h,
      claim_loop-keeps options now rs claimed (taken + 1) q kept,
    )

claim_loop-HeldUntil :
    (options : ClaimOptions) (now : ℕ) (rs : List StoredOperation) (claims : JsMap Claim)
    (taken : ℕ)
    → All
        (HeldUntil (claim_end options now) (claim_loop options now rs claims taken).1)
        (claim_loop options now rs claims taken).0
unfolding claim_loop
claim_loop-HeldUntil options now [] claims taken = tt
claim_loop-HeldUntil options now (r ∷ rs) claims taken =
    let claimed = set r.state.operation_id (new_claim options now) claims in
    let held = set-HeldUntil options now r.state.operation_id claims r (inl refl) in
    ground (
      arith,
      held,
      claim_loop-HeldUntil options now rs claims taken,
      claim_loop-HeldUntil options now rs claimed (taken + 1),
      claim_loop-keeps options now rs claimed (taken + 1) r held,
    )

claim_loop-bound :
    (options : ClaimOptions) (now : ℕ) (rs : List StoredOperation) (claims : JsMap Claim)
    (taken : ℕ)
    → let size = length (claim_loop options now rs claims taken).0 in
      (size ≤ 1) ⊎ (taken + size ≤ options.batch_size)
unfolding claim_loop
claim_loop-bound options now [] claims taken = ground arith
claim_loop-bound options now (r ∷ rs) claims taken =
    let claimed = set r.state.operation_id (new_claim options now) claims in
    ground (
      arith,
      claim_loop-bound options now rs claims taken,
      claim_loop-bound options now rs claimed (taken + 1),
    )

-- Every record of a batch is claimable: its phase is actionable, it has attempts left, its retry time
-- is past and no claim on it runs. The batch has at most the size asked for, or one record.
pub claim_batch-Claimable :
    (options : ClaimOptions) (now : ℕ) (s : Store)
    → 0 < options.ttl_seconds
    → let batch = (claim_batch options now s).1 in
      All (Claimable options now s.claims) batch
      × ((length batch ≤ options.batch_size) ⊎ (length batch ≤ 1))
unfolding claim_batch
claim_batch-Claimable options now s l = (
  claim_loop-Claimable options now (values s.by_id) s.claims 0 l,
  ground (arith, claim_loop-bound options now (values s.by_id) s.claims 0),
)

one-apart :
    (t now : ℕ) (claims : JsMap Claim) (r : StoredOperation) (qs : List StoredOperation)
    (options : ClaimOptions)
    → now < t
    → HeldUntil t claims r
    → All (Claimable options now claims) qs
    → All (λ q. r.state.operation_id ≢ q.state.operation_id) qs
one-apart t now claims r [] options l h c = tt
one-apart t now claims r (q ∷ qs) options l h ((_, _, _, free), c) =
    ((λ same. ground (arith, rw same at h)), one-apart t now claims r qs options l h c)

All-apart :
    (t now : ℕ) (claims : JsMap Claim) (rs qs : List StoredOperation) (options : ClaimOptions)
    → now < t
    → All (HeldUntil t claims) rs
    → All (Claimable options now claims) qs
    → All (λ r. All (λ q. r.state.operation_id ≢ q.state.operation_id) qs) rs
All-apart t now claims [] qs options l h c = tt
All-apart t now claims (r ∷ rs) qs options l (h, hs) c =
    (one-apart t now claims r qs options l h c, All-apart t now claims rs qs options l hs c)

-- The same operation is never handed to two workers at a time: after a batch, and any creations and
-- saves, which leave the claims as they are, a batch of whatever worker before the end of the claims
-- (the time to live) has no operation of the first batch.
pub claim_batch-exclusive :
    (options options' : ClaimOptions) (now now' : ℕ) (s u : Store)
    → 0 < options'.ttl_seconds
    → u.claims ≡ (claim_batch options now s).0.claims
    → now' < claim_end options now
    → All
        (λ r.
          All (λ q. r.state.operation_id ≢ q.state.operation_id) (claim_batch options' now' u).1)
        (claim_batch options now s).1
unfolding claim_batch
claim_batch-exclusive options options' now now' s u l same early =
    All-apart (claim_end options now) now' u.claims (claim_batch options now s).1
      (claim_batch options' now' u).1 options' early
      (rw same (claim_loop-HeldUntil options now (values s.by_id) s.claims 0))
      (claim_loop-Claimable options' now' (values u.by_id) u.claims 0 l)
