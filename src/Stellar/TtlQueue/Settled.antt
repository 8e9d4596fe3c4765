-- ===== src/Stellar/TtlQueue/Settled.antt =====
-- What becomes of an entry whose result was marked.
use culturago_stellar.Base.{
  ℕ, ◌≡◌, ◌≢◌, refl, sym, subst, ◌∙◌, inl, inr, true, false, Option, none, some, String, List, [],
  ◌∷◌, ok, err, get, get-set_self, has, DomainErrorCode, All, Option-cases, is_some, ap, text_eq,
  Keyed, set-Keyed, Result,
}
use culturago_stellar.Stellar.TtlQueue.{
  EntryId, EntryInput, TtlEntry, TtlStatus, extended, failed, TtlQueue, DueOptions, key, is_open,
  upserted, upsert, claim_due, mark_result,
}
use culturago_stellar.Stellar.TtlQueue.Entries.{
  Pairs, set-Pairs, get-Pairs, Closed, OwnKey, true_ne_false, set-Closed, due_loop-hides, has-set,
}

-- The calls that change a queue.
pub data Call : Type 0 where
  upserting : ℕ → EntryInput → Call
  claiming : ℕ → DueOptions → Call
  extending failing : ℕ → EntryId → Option ℕ → Call

abbrev or_same : Result TtlQueue → TtlQueue → TtlQueue
or_same (ok q') q = q'
or_same (err e) q = q

unfoldable pub call : Call → TtlQueue → TtlQueue
call (upserting now entry) q = upsert now entry q
call (claiming now options) q = (claim_due options now q).0
call (extending now id ledger) q = or_same (mark_result now id extended ledger q) q
call (failing now id ledger) q = or_same (mark_result now id failed ledger q) q

unfoldable pub calls : List Call → TtlQueue → TtlQueue
calls [] q = q
calls (c ∷ cs) q = calls cs (call c q)

abbrev pub empty_queue : TtlQueue
empty_queue = record { entries = []; claims = [] }

-- Every entry stands once, under its own key.
abbrev WellFormed : TtlQueue → Type 0
WellFormed q = Keyed q.entries × Pairs OwnKey q.entries

-- The queue has the entry of the given key, and it is neither pending nor alerted.
abbrev IsSettled : String → TtlQueue → Type 0
IsSettled id q = (has id q.entries ≡ true) × Pairs (Closed id) q.entries

upserted_id :
    (now : ℕ) (entry : EntryInput) (found : Option TtlEntry)
    → (upserted now entry found).id ≡ entry.id
upserted_id now entry none = refl
upserted_id now entry (some e) = refl

upserted-Closed :
    (now : ℕ) (entry : EntryInput) (k : String) (q : TtlQueue)
    → IsSettled k q
    → Closed k (key entry.id) (upserted now entry (get (key entry.id) q.entries))
upserted-Closed now entry k q (present, ps) = elim (Option-cases (get (key entry.id) q.entries)) [
  | inl missing ↦ rw missing (
    refl,
    λ same.
        elim (true_ne_false
          (sym present ∙ ap (λ j. has j q.entries) (sym same) ∙ ap is_some missing)) [ ],
  )
  | inr (e, found) ↦ rw found (refl, (get-Pairs (Closed k) (key entry.id) q.entries e ps found).1)
]

mark_result-WellFormed :
    (now : ℕ) (id : EntryId) (status : TtlStatus) (ledger : Option ℕ) (q : TtlQueue)
    → WellFormed q
    → WellFormed (or_same (mark_result now id status ledger q) q)
unfolding mark_result
mark_result-WellFormed now id status ledger q (ks, ps) =
    elim (Option-cases (get (key id) q.entries)) [
      | inl missing ↦ rw (or_same, missing) (ks, ps)
      | inr (e, found) ↦
          rw (or_same, found)
            (
              set-Keyed (key id) _ q.entries ks,
              set-Pairs OwnKey (key id) _ q.entries (get-Pairs OwnKey (key id) q.entries e ps found)
                  ps,
            )
    ]

upsert-WellFormed :
    (now : ℕ) (entry : EntryInput) (q : TtlQueue) → WellFormed q → WellFormed (upsert now entry q)
unfolding upsert
upsert-WellFormed now entry q (ks, ps) = (
  set-Keyed (key entry.id) _ q.entries ks,
  set-Pairs OwnKey (key entry.id) _ q.entries
      (ap key (upserted_id now entry (get (key entry.id) q.entries))) ps,
)

mark_result-IsSettled :
    (now : ℕ) (id : EntryId) (status : TtlStatus) (ledger : Option ℕ) (k : String) (q : TtlQueue)
    → is_open status ≡ false
    → IsSettled k q
    → IsSettled k (or_same (mark_result now id status ledger q) q)
unfolding mark_result
mark_result-IsSettled now id status ledger k q closed (present, ps) =
    elim (Option-cases (get (key id) q.entries)) [
      | inl missing ↦ rw (or_same, missing) (present, ps)
      | inr (e, found) ↦
          rw (or_same, found)
            (
              has-set k (key id) _ q.entries present,
              set-Pairs (Closed k) (key id) _ q.entries
                  ((get-Pairs (Closed k) (key id) q.entries e ps found).0, λ _. closed) ps,
            )
    ]

upsert-IsSettled :
    (now : ℕ) (entry : EntryInput) (k : String) (q : TtlQueue)
    → IsSettled k q
    → IsSettled k (upsert now entry q)
unfolding upsert
upsert-IsSettled now entry k q (present, ps) = (
  has-set k (key entry.id) _ q.entries present,
  set-Pairs (Closed k) (key entry.id) _ q.entries (upserted-Closed now entry k q (present, ps)) ps,
)

call-WellFormed : (c : Call) (q : TtlQueue) → WellFormed q → WellFormed (call c q)
unfolding call claim_due
call-WellFormed (upserting now entry) q h = upsert-WellFormed now entry q h
call-WellFormed (claiming now options) q h = h
call-WellFormed (extending now id ledger) q h = mark_result-WellFormed now id extended ledger q h
call-WellFormed (failing now id ledger) q h = mark_result-WellFormed now id failed ledger q h

calls-WellFormed : (cs : List Call) (q : TtlQueue) → WellFormed q → WellFormed (calls cs q)
unfolding calls
calls-WellFormed [] q h = h
calls-WellFormed (c ∷ cs) q h = calls-WellFormed cs (call c q) (call-WellFormed c q h)

call-IsSettled : (c : Call) (k : String) (q : TtlQueue) → IsSettled k q → IsSettled k (call c q)
unfolding call claim_due
call-IsSettled (upserting now entry) k q h = upsert-IsSettled now entry k q h
call-IsSettled (claiming now options) k q h = h
call-IsSettled (extending now id ledger) k q h =
    mark_result-IsSettled now id extended ledger k q refl h
call-IsSettled (failing now id ledger) k q h = mark_result-IsSettled now id failed ledger k q refl h

calls-IsSettled :
    (cs : List Call) (k : String) (q : TtlQueue) → IsSettled k q → IsSettled k (calls cs q)
unfolding calls
calls-IsSettled [] k q h = h
calls-IsSettled (c ∷ cs) k q h = calls-IsSettled cs k (call c q) (call-IsSettled c k q h)

err_ne_ok : {e : DomainErrorCode} {q : TtlQueue} → err e ≢ ok q
err_ne_ok h = cc h

ok_inj : {q q' : TtlQueue} → ok q ≡ ok q' → q ≡ q'
ok_inj h = cc h

marked-IsSettled :
    (now : ℕ) (id : EntryId) (status : TtlStatus) (ledger : Option ℕ) (q q' : TtlQueue)
    → is_open status ≡ false
    → WellFormed q
    → mark_result now id status ledger q ≡ ok q'
    → IsSettled (key id) q'
unfolding mark_result
marked-IsSettled now id status ledger q q' closed (ks, ps) done =
    elim (Option-cases (get (key id) q.entries)) [
      | inl missing ↦ elim (err_ne_ok (rw (mark_result, missing) at done)) [ ]
      | inr (e, found) ↦ subst (IsSettled (key id)) (ok_inj (rw (mark_result, found) at done)) (
        ap is_some (get-set_self (key id) _ q.entries),
        set-Closed (key id) _ q.entries ks ps (get-Pairs OwnKey (key id) q.entries e ps found)
            closed,
      )
    ]

-- An entry whose result was marked, as extended or as failed, is never handed out again, whatever is
-- upserted, claimed and marked after it.
pub claim_due-settled :
    (before after : List Call) (now later : ℕ) (id : EntryId) (status : TtlStatus)
    (ledger : Option ℕ) (options : DueOptions) (q : TtlQueue)
    → is_open status ≡ false
    → mark_result now id status ledger (calls before empty_queue) ≡ ok q
    → All (λ e. key e.id ≢ key id) (claim_due options later (calls after q)).1
unfolding claim_due
claim_due-settled before after now later id status ledger options q closed done =
    let start = calls-WellFormed before empty_queue (tt, tt) in
    let settled =
      marked-IsSettled now id status ledger (calls before empty_queue) q closed start done in
    let s = calls after q in
    due_loop-hides (key id) options later s.entries s.claims 0
      (calls-IsSettled after (key id) q settled).1
