-- ===== src/Domain/Participation.antt =====
-- Participation of a subject in an event (src/domain/participation/participation.ts).
pub mod History
use culturago_stellar.Base.{
  Bool, true, false, ◌||◌, not, Option, none, some, String, List, [], ◌∷◌, ◌++◌, Eq, enum_eq, ◌==◌,
  text_eq, includes, if◌then◌else◌, Result, ok, err, invalid_input, invalid_state_transition,
}

pub data ParticipationState : Type 0 where
  registered checked_in participation_confirmed credential_issued : ParticipationState

unfoldable pub ParticipationState-discrete : Discrete ParticipationState
ParticipationState-discrete = hlevel

instance abbrev pub participation_state_eq : Eq ParticipationState
participation_state_eq = enum_eq ParticipationState-discrete

pub record ParticipationTransition : Type 0 where
  pub from : ParticipationState
  pub to : ParticipationState
  pub actor_id : String
  pub at : String

pub record ParticipationRecord : Type 0 where
  pub participation_id : String
  pub subject_id : String
  pub event_id : String
  pub state : ParticipationState
  pub history : List ParticipationTransition

unfoldable pub allowed_transitions : ParticipationState → List ParticipationState
allowed_transitions registered = checked_in ∷ []
allowed_transitions checked_in = participation_confirmed ∷ []
allowed_transitions participation_confirmed = credential_issued ∷ []
allowed_transitions credential_issued = []

-- `!value` on a text: true of the empty one.
abbrev pub is_empty : String → Bool
is_empty s = s == ""

unfoldable pub create_participation : String → String → String → Result ParticipationRecord
create_participation participation_id subject_id event_id =
    if is_empty subject_id || is_empty event_id
    then err invalid_input
    else ok (record {
      participation_id = participation_id;
      subject_id = subject_id;
      event_id = event_id;
      state = registered;
      history = [];
    })

unfoldable pub transition_participation :
    ParticipationRecord → ParticipationState → String → String → Result ParticipationRecord
unfolding allowed_transitions ParticipationState-discrete
transition_participation r to actor_id at =
    if not (includes (allowed_transitions r.state) to)
    then err invalid_state_transition
    else ok (record r {
      state = to;
      history = r.history ++ record { from = r.state; to = to; actor_id = actor_id; at = at } ∷ [];
    })

unfoldable pub can_issue_credential_for : Option ParticipationRecord → Bool
unfolding ParticipationState-discrete
can_issue_credential_for none = false
can_issue_credential_for (some r) = r.state == participation_confirmed
