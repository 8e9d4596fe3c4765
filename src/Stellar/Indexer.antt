-- ===== src/Stellar/Indexer.antt =====
-- src/infrastructure/stellar/InMemoryIndexer.ts: the events of the contracts, deduplicated, indexed, and
-- projected on subjects and events. The fields of an event's decoded data are texts.
pub mod Projections
use Prim.Native.String.{◌++◌}
use culturago_stellar.Base.{
  ℕ, suc, ◌||◌, not, Option, none, some, String, List, [], ◌∷◌, decimal, if◌then◌else◌, ◌==◌,
  text_eq, JsMap, get, set, has, values, length,
}

pub record ContractEvent : Type 0 where
  pub network : String
  pub contract_id : String
  pub ledger : ℕ
  pub event_index : ℕ
  pub event_type : String
  pub topics : List String
  pub event_data : JsMap String
  pub tx_hash : Option String

pub record IndexedEvent : Type 0 where
  pub network : String
  pub contract_id : String
  pub ledger : ℕ
  pub event_index : ℕ
  pub event_type : String
  pub entity_id : Option String
  pub credential_id : Option String
  pub subject_id : Option String
  pub issuer_id : Option String
  pub event_entity_id : Option String
  pub event_data : JsMap String

pub record Indexer : Type 0 where
  pub raw : JsMap ContractEvent
  pub indexed : JsMap IndexedEvent
  pub cursors : JsMap ℕ
  pub projections : JsMap (List IndexedEvent)

pub record IngestResult : Type 0 where
  pub inserted : ℕ
  pub deduplicated : ℕ

abbrev pub event_key : String → String → ℕ → ℕ → String
event_key network contract_id ledger event_index =
    network ++ ":" ++ contract_id ++ ":" ++ decimal ledger ++ ":" ++ decimal event_index

unfoldable pub raw_key : ContractEvent → String
raw_key event = event_key event.network event.contract_id event.ledger event.event_index

-- One round of the loop of `ingest`.
unfoldable pub ingest_event :
    ContractEvent → JsMap ContractEvent → IngestResult → JsMap ContractEvent × IngestResult
ingest_event event raw r =
    if has (raw_key event) raw
    then (raw, record r { deduplicated = suc r.deduplicated })
    else (set (raw_key event) event raw, record r { inserted = suc r.inserted })

unfoldable pub ingest_loop :
    List ContractEvent → JsMap ContractEvent → IngestResult → JsMap ContractEvent × IngestResult
ingest_loop [] raw r = (raw, r)
ingest_loop (event ∷ events) raw r =
    let (raw', r') = ingest_event event raw r in ingest_loop events raw' r'

unfoldable pub ingest : List ContractEvent → Indexer → Indexer × IngestResult
ingest events s =
    let (raw, r) = ingest_loop events s.raw (record { inserted = 0; deduplicated = 0 }) in
    (record s { raw = raw }, r)

abbrev pub index_event : ContractEvent → IndexedEvent
index_event event = record {
  network = event.network;
  contract_id = event.contract_id;
  ledger = event.ledger;
  event_index = event.event_index;
  event_type = event.event_type;
  entity_id = get "entity_id" event.event_data;
  credential_id = get "credential_id" event.event_data;
  subject_id = get "subject_id" event.event_data;
  issuer_id = get "issuer_id" event.event_data;
  event_entity_id = get "event_id" event.event_data;
  event_data = event.event_data;
}

-- `events.push(event)`
abbrev pub push {ℓ} : {A : Type ℓ} → A → List A → List A
push x [] = x ∷ []
push x (y ∷ ys) = y ∷ push x ys

-- One round of the first loop of `processUnprocessed`.
unfoldable pub process_event :
    String
    → String
    → ContractEvent
    → JsMap IndexedEvent
    → List IndexedEvent
    → JsMap IndexedEvent × List IndexedEvent
process_event network contract_id event indexed processed =
    let key = event_key network contract_id event.ledger event.event_index in
    if not (event.network == network) || not (event.contract_id == contract_id)
    then (indexed, processed)
    else if has key indexed
    then (indexed, processed)
    else (set key (index_event event) indexed, push (index_event event) processed)

unfoldable pub process_loop :
    String
    → String
    → List ContractEvent
    → JsMap IndexedEvent
    → List IndexedEvent
    → JsMap IndexedEvent × List IndexedEvent
process_loop network contract_id [] indexed processed = (indexed, processed)
process_loop network contract_id (event ∷ events) indexed processed =
    let (indexed', processed') = process_event network contract_id event indexed processed in
    process_loop network contract_id events indexed' processed'

abbrev pub or_star : Option String → String
or_star none = "*"
or_star (some id) = id

abbrev pub or_empty : Option (List IndexedEvent) → List IndexedEvent
or_empty none = []
or_empty (some events) = events

unfoldable pub projection_key : IndexedEvent → String
projection_key event = or_star event.subject_id ++ "|" ++ or_star event.event_entity_id

-- The loop that `processUnprocessed` and `rebuildProjections` share.
unfoldable pub project : List IndexedEvent → JsMap (List IndexedEvent) → JsMap (List IndexedEvent)
project [] projections = projections
project (event ∷ events) projections = project events (
    set (projection_key event) (push event (or_empty (get (projection_key event) projections)))
      projections)

unfoldable pub process_unprocessed : String → String → Indexer → Indexer × ℕ
process_unprocessed network contract_id s =
    let (indexed, processed) = process_loop network contract_id (values s.raw) s.indexed [] in
    (
      record s { indexed = indexed; projections = project processed s.projections },
      length processed,
    )

unfoldable pub get_cursor : String → String → Indexer → Option ℕ
get_cursor network contract_id s = get (network ++ ":" ++ contract_id) s.cursors

unfoldable pub set_cursor : String → String → ℕ → Indexer → Indexer
set_cursor network contract_id ledger s = record s {
  cursors = set (network ++ ":" ++ contract_id) ledger s.cursors;
}

unfoldable pub rebuild_projections : Indexer → Indexer
rebuild_projections s = record s { projections = project (values s.indexed) [] }

unfoldable pub get_passport : String → String → Indexer → List IndexedEvent
get_passport subject_id event_id s = or_empty (get (subject_id ++ "|" ++ event_id) s.projections)
