-- ===== src/Stellar/Store/Idempotency.antt =====
-- An idempotency key is bound to one operation.
use culturago_stellar.Base.{
  ℕ, ◌≡◌, ◌≢◌, true, String, some, ok, err, already_exists, arith, eq_iff, set, has, get-set,
  get-set_self,
}
use culturago_stellar.Stellar.Operation.{StoredOperation}
use culturago_stellar.Stellar.Store.{
  Store, ClaimOptions, find_by_idempotency_key, create, save, claim_batch,
}

-- One call of an operation of the store that changes it.
pub data Step : Store → Store → Type 0 where
  created : {s t : Store} (r : StoredOperation) → create r s ≡ ok t → Step s t
  saved : {s t : Store} (r : StoredOperation) → save r s ≡ ok t → Step s t
  claimed : {s : Store} (options : ClaimOptions) (now : ℕ) → Step s (claim_batch options now s).0

pub data Steps (s : Store) : Store → Type 0 where
  start : Steps s s
  followed : {t u : Store} → Steps s t → Step t u → Steps s u

has-set : (k j i : String) (m : _) → has k m ≡ true → has k (set j i m) ≡ true
has-set k j i m h = ground (arith, get-set j k i m)

Step-has :
    {s t : Store} (k : String)
    → Step s t
    → has k s.by_idempotency_key ≡ true
    → has k t.by_idempotency_key ≡ true
unfolding create save claim_batch
Step-has {s} k (created r e) h =
    ground (arith, has-set k r.state.idempotency_key r.state.operation_id s.by_idempotency_key h)
Step-has k (saved r e) h = ground arith
Step-has k (claimed options now) h = h

Steps-has :
    {s t : Store} (k : String)
    → Steps s t
    → has k s.by_idempotency_key ≡ true
    → has k t.by_idempotency_key ≡ true
Steps-has k start h = h
Steps-has k (followed us u) h = Step-has k u (Steps-has k us h)

create-has :
    (s t : Store) (r : StoredOperation)
    → create r s ≡ ok t
    → has r.state.idempotency_key t.by_idempotency_key ≡ true
unfolding create
create-has s t r e =
    ground (arith, get-set_self r.state.idempotency_key r.state.operation_id s.by_idempotency_key)

create_taken :
    (s : Store) (r : StoredOperation)
    → has r.state.idempotency_key s.by_idempotency_key ≡ true
    → create r s ≡ err already_exists
unfolding create
create_taken s r h = ground arith

-- The same idempotency key never spawns two operations: once `create` has succeeded on a record, then,
-- whatever creations, saves and claims follow, every later `create` of a record with the same key is
-- refused as `already_exists`.
pub create-once :
    (s t u : Store) (r q : StoredOperation)
    → create r s ≡ ok t
    → Steps t u
    → q.state.idempotency_key ≡ r.state.idempotency_key
    → create q u ≡ err already_exists
create-once s t u r q e us same =
    create_taken u q (rw same (Steps-has r.state.idempotency_key us (create-has s t r e)))

-- A created operation, whose identifier is not empty, is found by its key; after a save of a new state of it, that state is found.
pub find-create-save :
    (s t u : Store) (r q : StoredOperation)
    → r.state.operation_id ≢ ""
    → create r s ≡ ok t
    → q.state.operation_id ≡ r.state.operation_id
    → save q t ≡ ok u
    → (find_by_idempotency_key r.state.idempotency_key t ≡ some r)
      × (find_by_idempotency_key r.state.idempotency_key u ≡ some q)
unfolding create save find_by_idempotency_key
find-create-save s t u r q n e same f = ground (
  arith,
  eq_iff r.state.operation_id "",
  get-set_self r.state.idempotency_key r.state.operation_id s.by_idempotency_key,
  get-set_self r.state.operation_id r s.by_id,
  get-set_self q.state.operation_id q t.by_id,
)
