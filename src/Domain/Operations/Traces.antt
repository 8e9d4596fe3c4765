-- ===== src/Domain/Operations/Traces.antt =====
-- Runs of a chain operation through the transition table.
use culturago_stellar.Base.{◌≡◌, refl, ◌∙◌, ◌↔◌, ◌≢◌, ◌⊎◌, inl, inr, true, false, ok, arith}
use culturago_stellar.Domain.Operations.{
  Phase, awaiting_signature, signed, submitted, confirming, confirmed, failed_retryable,
  failed_terminal, unknown, restoring, can_transition, assert_transition, is_terminal,
}

-- A run: each move is one that `assertTransition` lets through.
pub data Run (from : Phase) : Phase → Type 0 where
  start : Run from from
  move : {via to : Phase} → Run from via → assert_transition via to ≡ ok tt → Run from to

-- A run that stays in the phases where `P` holds.
pub data Avoids (P : Phase → Type 0) (from : Phase) : Phase → Type 0 where
  start : P from → Avoids P from from
  move :
      {via to : Phase}
      → Avoids P from via
      → assert_transition via to ≡ ok tt
      → P to
      → Avoids P from to

is_terminal-move : (p q : Phase) → is_terminal p ≡ true → assert_transition p q ≡ ok tt → q ≡ p
unfolding is_terminal assert_transition
is_terminal-move p q t h = ground arith

Run-terminal : {p q : Phase} → is_terminal p ≡ true → Run p q → q ≡ p
Run-terminal t start = refl
Run-terminal {p} t (move {via} {to} r h) =
    let same = Run-terminal t r in is_terminal-move via to (rw same t) h ∙ same

closed_successors : (p q : Phase) → is_terminal p ≡ true → can_transition p q ≡ false
unfolding is_terminal can_transition
closed_successors p q t = ground arith

no_successors : (p : Phase) → ((q : Phase) → can_transition p q ≡ false) → is_terminal p ≡ true
unfolding is_terminal can_transition
no_successors p h = ground (arith, h signed, h submitted, h confirming, h failed_retryable)

-- A terminal phase absorbs: every run that starts in it ends in it. And the terminal phases are
-- exactly those that the table gives no successor.
pub is_terminal-absorbs :
    (p : Phase)
    → (is_terminal p ≡ true → (q : Phase) → Run p q → q ≡ p)
      × ((is_terminal p ≡ true) ↔ ((q : Phase) → can_transition p q ≡ false))
is_terminal-absorbs p =
    (λ t q r. Run-terminal t r, (λ t q. closed_successors p q t, no_successors p))

unsigned-move :
    (p q : Phase)
    → (p ≡ awaiting_signature) ⊎ (p ≡ failed_terminal)
    → assert_transition p q ≡ ok tt
    → q ≢ signed
    → (q ≡ awaiting_signature) ⊎ (q ≡ failed_terminal)
unfolding assert_transition
unsigned-move p q c h n = ground arith

-- Without a signature nothing goes on chain: a run from `awaiting_signature` that never enters
-- `signed` is still in `awaiting_signature`, or has ended in `failed_terminal`.
pub unsigned_run :
    {q : Phase}
    → Avoids (λ p. p ≢ signed) awaiting_signature q
    → (q ≡ awaiting_signature) ⊎ (q ≡ failed_terminal)
unsigned_run (start n) = inl refl
unsigned_run (move {via} {to} r h n) = unsigned-move via to (unsigned_run r) h n

confirmed-source :
    (p : Phase)
    → assert_transition p confirmed ≡ ok tt
    → (p ≡ confirming) ⊎ (p ≡ unknown) ⊎ (p ≡ confirmed)
unfolding assert_transition
confirmed-source p h = ground arith

-- What a run looks like that did not begin in `confirmed` and ends there: its last change of phase
-- starts from `confirming` or from `unknown`.
pub data ConfirmedLast (from : Phase) : Type 0 where
  by_move :
      (via : Phase)
      → Run from via
      → (via ≡ confirming) ⊎ (via ≡ unknown)
      → assert_transition via confirmed ≡ ok tt
      → ConfirmedLast from

last_move :
    {from : Phase} (to : Phase)
    → Run from to
    → from ≢ confirmed
    → to ≡ confirmed
    → ConfirmedLast from
last_move to start n e = absurd (n e)
last_move to (move {via} r h) n e = elim (confirmed-source via (rw e at h)) [
  | inl c ↦ by_move via r (inl c) (rw e at h)
  | inr (inl u) ↦ by_move via r (inr u) (rw e at h)
  | inr (inr same) ↦ last_move via r n same
]

-- `confirmed` is never reached but from `confirming` or `unknown`: every run that starts elsewhere
-- and ends in `confirmed` entered it from one of these two phases.
pub confirmed_last : {from : Phase} → from ≢ confirmed → Run from confirmed → ConfirmedLast from
confirmed_last n r = last_move confirmed r n refl

two_moves :
    (p via q : Phase) → assert_transition p via ≡ ok tt → assert_transition via q ≡ ok tt → Run p q
two_moves p via q h k = move (move start h) k

-- No phase is stuck: from every phase some run ends in a terminal phase.
pub finishes : (p : Phase) → (q : Phase) × (is_terminal q ≡ true) × Run p q
unfolding is_terminal assert_transition
finishes awaiting_signature = (failed_terminal, refl, move start refl)
finishes signed =
    (failed_terminal, refl, two_moves signed failed_retryable failed_terminal refl refl)
finishes submitted =
    (failed_terminal, refl, two_moves submitted confirming failed_terminal refl refl)
finishes confirming = (confirmed, refl, move start refl)
finishes confirmed = (confirmed, refl, start)
finishes failed_retryable = (failed_terminal, refl, move start refl)
finishes failed_terminal = (failed_terminal, refl, start)
finishes unknown = (confirmed, refl, move start refl)
finishes restoring = (failed_terminal, refl, move start refl)
