-- ===== src/Stellar/Indexer/Projections.antt =====
-- What the indexer keeps and projects, whatever the order of its calls.
use culturago_stellar.Base.{
  ℕ, suc, ◌+◌, ◌≡◌, refl, sym, ap, ◌∙◌, true, false, String, List, [], ◌∷◌, ◌++◌, arith, JsMap, get,
  set, get-set, get-set_self, has, is_some, values, length, All, Bool-cases, ◌==◌, text_eq,
}
use culturago_stellar.Stellar.Indexer.{
  ContractEvent, IndexedEvent, Indexer, IngestResult, raw_key, ingest_event, ingest_loop, ingest,
  push, event_key, index_event, process_event, process_loop, process_unprocessed, project,
  set_cursor, rebuild_projections,
}

-- The calls that change an indexer.
pub data Call : Type 0 where
  ingesting : List ContractEvent → Call
  processing : (network contract_id : String) → Call
  moving_cursor : (network contract_id : String) (ledger : ℕ) → Call
  rebuilding : Call

abbrev pub empty_indexer : Indexer
empty_indexer = record { raw = []; indexed = []; cursors = []; projections = [] }

unfoldable pub call : Call → Indexer → Indexer
call (ingesting events) s = (ingest events s).0
call (processing network contract_id) s = (process_unprocessed network contract_id s).0
call (moving_cursor network contract_id ledger) s = set_cursor network contract_id ledger s
call rebuilding s = rebuild_projections s

unfoldable pub calls : List Call → Indexer → Indexer
calls [] s = s
calls (c ∷ cs) s = calls cs (call c s)

append-push : {A : Type 0} (x : A) (xs ys : List A) → push x (xs ++ ys) ≡ xs ++ push x ys
append-push x [] ys = refl
append-push x (z ∷ xs) ys = ap (λ l. z ∷ l) (append-push x xs ys)

append-nil : {A : Type 0} (xs : List A) → xs ++ [] ≡ xs
append-nil [] = refl
append-nil (x ∷ xs) = ap (λ l. x ∷ l) (append-nil xs)

values-set_new :
    {V : Type 0} (k : String) (v : V) (m : JsMap V)
    → has k m ≡ false
    → values (set k v m) ≡ push v (values m)
unfolding get set
values-set_new k v [] h = refl
values-set_new k v ((j, w) ∷ m) h = ground (arith, values-set_new k v m)

project-append :
    (xs ys : List IndexedEvent) (m : JsMap (List IndexedEvent))
    → project (xs ++ ys) m ≡ project ys (project xs m)
unfolding project
project-append [] ys m = refl
project-append (x ∷ xs) ys m = project-append xs ys _

process_event-values :
    (network contract_id : String) (event : ContractEvent) (indexed : JsMap IndexedEvent)
    (base processed : List IndexedEvent)
    → values indexed ≡ base ++ processed
    → let (indexed', processed') = process_event network contract_id event indexed processed in
      values indexed' ≡ base ++ processed'
unfolding process_event
process_event-values network contract_id event indexed base processed h = ground (
  arith,
  append-push (index_event event) base processed,
  values-set_new (event_key network contract_id event.ledger event.event_index) (index_event event)
      indexed,
)

process_loop-values :
    (network contract_id : String) (events : List ContractEvent) (indexed : JsMap IndexedEvent)
    (base processed : List IndexedEvent)
    → values indexed ≡ base ++ processed
    → let (indexed', processed') = process_loop network contract_id events indexed processed in
      values indexed' ≡ base ++ processed'
unfolding process_loop
process_loop-values network contract_id [] indexed base processed h = h
process_loop-values network contract_id (event ∷ events) indexed base processed h =
    let (indexed', processed') = process_event network contract_id event indexed processed in
    process_loop-values network contract_id events indexed' base processed'
      (process_event-values network contract_id event indexed base processed h)

has-set :
    {V : Type 0} (k j : String) (v : V) (m : JsMap V) → has k m ≡ true → has k (set j v m) ≡ true
has-set k j v m h = ground (arith, get-set j k v m, Bool-cases (j == k))

has-set_self : {V : Type 0} (k : String) (v : V) (m : JsMap V) → has k (set k v m) ≡ true
has-set_self k v m = ap is_some (get-set_self k v m)

ingest_event-has :
    (k : String) (event : ContractEvent) (raw : JsMap ContractEvent) (r : IngestResult)
    → has k raw ≡ true
    → has k (ingest_event event raw r).0 ≡ true
unfolding ingest_event
ingest_event-has k event raw r h = ground (arith, has-set k (raw_key event) event raw h)

ingest_loop-has :
    (k : String) (events : List ContractEvent) (raw : JsMap ContractEvent) (r : IngestResult)
    → has k raw ≡ true
    → has k (ingest_loop events raw r).0 ≡ true
unfolding ingest_loop
ingest_loop-has k [] raw r h = h
ingest_loop-has k (e ∷ es) raw r h =
    let (raw', r') = ingest_event e raw r in
    ingest_loop-has k es raw' r' (ingest_event-has k e raw r h)

ingest_event-stored :
    (event : ContractEvent) (raw : JsMap ContractEvent) (r : IngestResult)
    → has (raw_key event) (ingest_event event raw r).0 ≡ true
unfolding ingest_event
ingest_event-stored event raw r = ground (arith, has-set_self (raw_key event) event raw)

ingest_loop-stored :
    (events : List ContractEvent) (raw : JsMap ContractEvent) (r : IngestResult)
    → All (λ e. has (raw_key e) (ingest_loop events raw r).0 ≡ true) events
unfolding ingest_loop
ingest_loop-stored [] raw r = tt
ingest_loop-stored (e ∷ es) raw r =
    let (raw', r') = ingest_event e raw r in
    (
      ingest_loop-has (raw_key e) es raw' r' (ingest_event-stored e raw r),
      ingest_loop-stored es raw' r',
    )

ingest_loop-known :
    (events : List ContractEvent) (raw : JsMap ContractEvent) (r : IngestResult) (d : ℕ)
    → All (λ e. has (raw_key e) raw ≡ true) events
    → r.deduplicated + length events ≡ d
    → ingest_loop events raw r ≡ (raw, record { inserted = r.inserted; deduplicated = d })
unfolding ingest_loop ingest_event
ingest_loop-known [] raw r d h n =
    ap (λ m. (raw, record { inserted = r.inserted; deduplicated = m })) (omega arith)
ingest_loop-known (e ∷ es) raw r d (h, hs) n =
    rw h
      (ingest_loop-known es raw (record r { deduplicated = suc r.deduplicated }) d hs (omega arith))

-- Ingesting the same events a second time stores nothing, and counts each as a duplicate.
pub ingest-again :
    (events : List ContractEvent) (s : Indexer)
    → let s' = (ingest events s).0 in
      ingest events s' ≡ (s', record { inserted = 0; deduplicated = length events })
unfolding ingest
ingest-again events s =
    let start : IngestResult = record { inserted = 0; deduplicated = 0 } in
    ap (λ p. (record s { raw = p.0 }, p.1))
      (ingest_loop-known events (ingest_loop events s.raw start).0 start (length events)
        (ingest_loop-stored events s.raw start) (omega arith))

-- The projections are those of the indexed events.
abbrev Projected : Indexer → Type 0
Projected s = s.projections ≡ project (values s.indexed) []

empty-Projected : Projected empty_indexer
unfolding project
empty-Projected = refl

process_unprocessed-Projected :
    (network contract_id : String) (s : Indexer)
    → Projected s
    → Projected (process_unprocessed network contract_id s).0
unfolding process_unprocessed
process_unprocessed-Projected network contract_id s h =
    let (indexed, processed) = process_loop network contract_id (values s.raw) s.indexed [] in
    ap (project processed) h
    ∙ sym (project-append (values s.indexed) processed [])
    ∙ ap (λ es. project es [])
        (sym (
          process_loop-values network contract_id (values s.raw) s.indexed (values s.indexed) []
            (sym (append-nil (values s.indexed)))))

call-Projected : (c : Call) (s : Indexer) → Projected s → Projected (call c s)
unfolding call ingest set_cursor rebuild_projections
call-Projected (ingesting events) s h = h
call-Projected (processing network contract_id) s h =
    process_unprocessed-Projected network contract_id s h
call-Projected (moving_cursor network contract_id ledger) s h = h
call-Projected rebuilding s h = refl

calls-Projected : (cs : List Call) (s : Indexer) → Projected s → Projected (calls cs s)
unfolding calls
calls-Projected [] s h = h
calls-Projected (c ∷ cs) s h = calls-Projected cs (call c s) (call-Projected c s h)

-- Whatever was called since an indexer was empty, rebuilding the projections changes nothing: they are
-- a function of the indexed events.
pub rebuild_projections-same :
    (cs : List Call) → let s = calls cs empty_indexer in rebuild_projections s ≡ s
unfolding rebuild_projections
rebuild_projections-same cs =
    let s = calls cs empty_indexer in
    ap (λ p. record s { projections = p }) (sym (calls-Projected cs empty_indexer empty-Projected))
