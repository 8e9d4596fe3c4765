-- ===== src/Stellar/TtlQueue.antt =====
-- src/infrastructure/stellar/InMemoryTtlQueue.ts, with src/ports/StellarTtlQueue.ts: the entries of the
-- contracts whose lifetime must be extended. The host's clock is an argument.
pub mod Entries
pub mod Settled
use Prim.Native.String.{◌++◌}
use culturago_stellar.Base.{
  ℕ, suc, ◌+◌, ◌*◌, Bool, true, false, ◌||◌, not, Option, none, some, String, List, [], ◌∷◌, Result,
  ok, err, not_found, if◌then◌else◌, leb, ltb, JsMap, get, set, remove, values, select,
}
use culturago_stellar.Stellar.Store.{Claim, is_held}

pub data EntryKind : Type 0 where
  contract_data contract_code instance_entry : EntryKind

pub data TtlStatus : Type 0 where
  pending alerted extended failed : TtlStatus

-- What names an entry.
pub record EntryId : Type 0 where
  pub network : String
  pub contract_id : String
  pub entry_key : String

-- An entry as `upsert` takes it.
pub record EntryInput : Type 0 where
  pub id : EntryId
  pub entry_kind : EntryKind
  pub expires_at_ledger : Option ℕ
  pub last_extended_ledger : Option ℕ

pub record TtlEntry : Type 0 where
  pub id : EntryId
  pub entry_kind : EntryKind
  pub expires_at_ledger : Option ℕ
  pub last_extended_ledger : Option ℕ
  pub status : TtlStatus
  pub alert_sent_at : Option ℕ
  pub next_run_at : ℕ

pub record TtlQueue : Type 0 where
  pub entries : JsMap TtlEntry
  pub claims : JsMap Claim

abbrev pub key : EntryId → String
key e = e.network ++ ":" ++ e.contract_id ++ ":" ++ e.entry_key

abbrev pub upserted : ℕ → EntryInput → Option TtlEntry → TtlEntry
upserted now entry none = record {
  id = entry.id;
  entry_kind = entry.entry_kind;
  expires_at_ledger = entry.expires_at_ledger;
  last_extended_ledger = entry.last_extended_ledger;
  status = pending;
  alert_sent_at = none;
  next_run_at = now;
}
upserted now entry (some existing) = record {
  id = entry.id;
  entry_kind = entry.entry_kind;
  expires_at_ledger = entry.expires_at_ledger;
  last_extended_ledger = entry.last_extended_ledger;
  status = existing.status;
  alert_sent_at = existing.alert_sent_at;
  next_run_at = existing.next_run_at;
}

unfoldable pub upsert : ℕ → EntryInput → TtlQueue → TtlQueue
upsert now entry q = record q {
  entries = set (key entry.id) (upserted now entry (get (key entry.id) q.entries)) q.entries;
}

pub record DueOptions : Type 0 where
  pub batch_size : ℕ
  pub worker_id : String
  pub ttl_seconds : ℕ

-- `status === 'pending' || status === 'alerted'`
abbrev pub is_open : TtlStatus → Bool
is_open pending = true
is_open alerted = true
is_open extended = false
is_open failed = false

-- The tests of the loop of `claimDue` that `continue`.
unfoldable pub is_passed : ℕ → String → TtlEntry → JsMap Claim → Bool
is_passed now k entry claims =
    not (is_open entry.status) || ltb now entry.next_run_at || is_held (get k claims) now

abbrev pub due_end : DueOptions → ℕ → ℕ
due_end options now = now + options.ttl_seconds * 1000

abbrev pub due_claim : DueOptions → ℕ → Claim
due_claim options now = record { worker_id = options.worker_id; until = due_end options now }

-- The loop of `claimDue`, with the number of results so far.
unfoldable pub due_loop :
    DueOptions → ℕ → JsMap TtlEntry → JsMap Claim → ℕ → List TtlEntry × JsMap Claim
due_loop options now [] claims taken = ([], claims)
due_loop options now ((k, entry) ∷ entries) claims taken =
    let claimed = set k (due_claim options now) claims in
    let out = record entry { next_run_at = due_end options now } in
    let passed = due_loop options now entries claims taken in
    let continued = due_loop options now entries claimed (suc taken) in
    if is_passed now k entry claims
    then passed
    else if leb options.batch_size (suc taken)
    then (out ∷ [], claimed)
    else (out ∷ continued.0, continued.1)

unfoldable pub claim_due : DueOptions → ℕ → TtlQueue → TtlQueue × List TtlEntry
claim_due options now q =
    let (result, claims) = due_loop options now q.entries q.claims 0 in
    (record q { claims = claims }, result)

unfoldable pub mark_result : ℕ → EntryId → TtlStatus → Option ℕ → TtlQueue → Result TtlQueue
mark_result now id status last_extended_ledger q = elim (get (key id) q.entries) [
  | none ↦ err not_found
  | some entry ↦ ok (record {
    entries =
        set (key id)
          (record entry {
            status = status;
            last_extended_ledger = last_extended_ledger;
            next_run_at = now + 60000;
          })
          q.entries;
    claims = remove (key id) q.claims;
  })
]

abbrev expires_by : ℕ → TtlEntry → Bool
expires_by before_ledger e = elim e.expires_at_ledger [
  | none ↦ false
  | some ledger ↦ leb ledger before_ledger
]

unfoldable pub get_at_risk : ℕ → TtlQueue → List TtlEntry
get_at_risk before_ledger q = select (expires_by before_ledger) (values q.entries)
