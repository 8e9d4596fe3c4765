-- ===== src/Domain/Tests/Phases.antt =====
-- The theorems on phases, the catalog and participations at concrete inputs.
use culturago_stellar.Base.{◌≡◌, ◌≢◌, ◌⊎◌, ◌↔◌, refl, true, false, List, [], ◌∷◌, text_eq}
use culturago_stellar.Domain.Operations.{
  Phase, awaiting_signature, signed, submitted, confirming, confirmed, failed_terminal,
  can_transition, assert_transition, is_terminal,
}
use culturago_stellar.Domain.Operations.Traces.{Run, Avoids, is_terminal-absorbs, unsigned_run}
use culturago_stellar.Domain.Participation.{
  ParticipationRecord, ParticipationTransition, registered, checked_in, participation_confirmed,
  credential_issued,
}
use culturago_stellar.Domain.Participation.History.{Request}

signing : Run awaiting_signature signed
unfolding assert_transition
signing = Run.move Run.start refl

is_terminal-absorbs_example :
    (is_terminal confirmed ≡ true → (q : Phase) → Run confirmed q → q ≡ confirmed)
    × ((is_terminal confirmed ≡ true) ↔ ((q : Phase) → can_transition confirmed q ≡ false))
is_terminal-absorbs_example = is_terminal-absorbs confirmed

unsigned_failure : Avoids (λ p. p ≢ signed) awaiting_signature failed_terminal
unfolding assert_transition
unsigned_failure = Avoids.move (Avoids.start (λ e. cc)) refl (λ e. cc)

unsigned_run_example :
    ◌⊎◌ (failed_terminal ≡ awaiting_signature) (failed_terminal ≡ failed_terminal)
unsigned_run_example = unsigned_run unsigned_failure

via_confirming : Run submitted confirmed
unfolding assert_transition
via_confirming = Run.move {via = confirming} (Run.move {via = submitted} Run.start refl) refl

abbrev participation : ParticipationRecord
participation = record {
  participation_id = "p1";
  subject_id = "s1";
  event_id = "e1";
  state = registered;
  history = [];
}

abbrev check_in : ParticipationTransition
check_in = record { from = registered; to = checked_in; actor_id = "staff"; at = "t1" }

abbrev requests : List Request
requests =
    record { to = checked_in; actor_id = "staff"; at = "t1" }
    ∷ record { to = credential_issued; actor_id = "staff"; at = "t2" }
    ∷ record { to = participation_confirmed; actor_id = "head"; at = "t3" }
    ∷ []
