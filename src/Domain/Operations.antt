-- ===== src/Domain/Operations.antt =====
-- The phases of a chain operation and their legal transitions
-- (src/domain/operations/operationState.ts, and OperationPhase of src/ports/StellarGateway.ts).
pub mod Traces
use culturago_stellar.Base.{
  Bool, true, false, ◌||◌, List, [], ◌∷◌, Eq, enum_eq, ◌==◌, includes, if◌then◌else◌, Result, ok,
  err, invalid_state_transition,
}

pub data Phase : Type 0 where
  awaiting_signature signed submitted confirming confirmed : Phase
  failed_retryable failed_terminal unknown restoring : Phase

unfoldable pub Phase-discrete : Discrete Phase
Phase-discrete = hlevel

instance abbrev pub phase_eq : Eq Phase
phase_eq = enum_eq Phase-discrete

unfoldable pub transitions : Phase → List Phase
transitions awaiting_signature = signed ∷ failed_terminal ∷ []
transitions signed = submitted ∷ failed_retryable ∷ []
transitions submitted = confirming ∷ failed_retryable ∷ unknown ∷ []
transitions confirming = confirmed ∷ failed_retryable ∷ failed_terminal ∷ unknown ∷ restoring ∷ []
transitions confirmed = []
transitions failed_retryable = awaiting_signature ∷ submitted ∷ unknown ∷ failed_terminal ∷ []
transitions failed_terminal = []
transitions unknown =
    submitted ∷ confirming ∷ confirmed ∷ failed_retryable ∷ failed_terminal ∷ restoring ∷ []
transitions restoring = awaiting_signature ∷ submitted ∷ failed_retryable ∷ failed_terminal ∷ []

unfoldable pub can_transition : Phase → Phase → Bool
unfolding transitions Phase-discrete
can_transition from to = includes (transitions from) to

unfoldable pub assert_transition : Phase → Phase → Result (Unit {0})
unfolding can_transition Phase-discrete
assert_transition from to =
    if from == to
    then ok tt
    else if can_transition from to
    then ok tt
    else err invalid_state_transition

unfoldable pub is_terminal : Phase → Bool
unfolding Phase-discrete
is_terminal phase = phase == confirmed || phase == failed_terminal

unfoldable pub must_not_resubmit : Phase → Bool
unfolding is_terminal Phase-discrete
must_not_resubmit phase =
    phase == submitted
    || phase == confirming
    || phase == unknown
    || phase == restoring
    || is_terminal phase
