-- ===== src/Stellar/Tests/Events.antt =====
-- The theorems on the events of the contracts and on the lifetimes of entries at concrete inputs.
use culturago_stellar.Base.{◌≡◌, ◌≢◌, refl, none, some, List, [], ◌∷◌, ok, All, get, set, remove}
use culturago_stellar.Stellar.Indexer.{
  ContractEvent, ingest, rebuild_projections, index_event, get_passport, process_unprocessed,
  project, process_loop, ingest_loop, ingest_event, raw_key, process_event, projection_key,
}
use culturago_stellar.Stellar.Indexer.Projections.{
  Call, ingesting, processing, call, calls, empty_indexer, rebuild_projections-same,
}
use culturago_stellar.Stellar.TtlQueue.{
  EntryId, EntryInput, instance_entry, failed, DueOptions, TtlQueue, key, mark_result, claim_due,
  upsert, due_loop, is_passed,
}
use culturago_stellar.Stellar.TtlQueue.Settled.{upserting, claiming, empty_queue, claim_due-settled}
use culturago_stellar.Stellar.TtlQueue.Settled as Ttl

abbrev issued_event : ContractEvent
issued_event = record {
  network = "testnet";
  contract_id = "CCREDENTIAL";
  ledger = 12;
  event_index = 0;
  event_type = "credential_issued";
  topics = "credential" ∷ [];
  event_data = ("credential_id", "c1") ∷ ("subject_id", "p1") ∷ ("event_id", "e1") ∷ [];
  tx_hash = some "hash";
}

abbrev history : List Call
history = ingesting (issued_event ∷ issued_event ∷ []) ∷ processing "testnet" "CCREDENTIAL" ∷ []

passport : get_passport "p1" "e1" (calls history empty_indexer) ≡ index_event issued_event ∷ []
unfolding calls get_passport get call process_unprocessed project process_loop ingest ingest_loop
    ingest_event set raw_key process_event projection_key
passport = refl

rebuild_projections-same_example :
    rebuild_projections (calls history empty_indexer) ≡ calls history empty_indexer
rebuild_projections-same_example = rebuild_projections-same history

abbrev instance_id : EntryId
instance_id = record { network = "testnet"; contract_id = "CENTITY"; entry_key = "instance" }

abbrev expiring : EntryInput
expiring = record {
  id = instance_id;
  entry_kind = instance_entry;
  expires_at_ledger = some 90;
  last_extended_ledger = none;
}

abbrev due_options : DueOptions
due_options = record { batch_size = 10; worker_id = "w1"; ttl_seconds = 30 }

-- The queue after the entry was marked as failed at the time 2000.
abbrev marked_queue : TtlQueue
marked_queue = record {
  entries =
      (
        "testnet:CENTITY:instance",
        record {
          id = instance_id;
          entry_kind = instance_entry;
          expires_at_ledger = some 90;
          last_extended_ledger = none;
          status = failed;
          alert_sent_at = none;
          next_run_at = 62000;
        },
      )
      ∷ [];
  claims = [];
}

marked :
    mark_result 2000 instance_id failed none
      (Ttl.calls (upserting 1000 expiring ∷ claiming 1500 due_options ∷ []) empty_queue)
    ≡ ok marked_queue
unfolding mark_result Ttl.calls Ttl.call upsert get set remove claim_due due_loop is_passed
marked = refl

claim_due-settled_example :
    All
      (λ e. key e.id ≢ "testnet:CENTITY:instance")
      (claim_due due_options 90000 (Ttl.calls (upserting 80000 expiring ∷ []) marked_queue)).1
claim_due-settled_example =
    claim_due-settled (upserting 1000 expiring ∷ claiming 1500 due_options ∷ [])
      (upserting 80000 expiring ∷ []) 2000 90000 instance_id failed none due_options marked_queue
      refl marked
