-- ===== src/UseCases/Participation.antt =====
-- src/application/use-cases/manage-participation.ts. The identifier and the time that `newId` and
-- `now` give are arguments.
use culturago_stellar.Base.{
  String, none, some, or_fail, require, not_found, participation_not_confirmed,
}
use culturago_stellar.Domain.Participation.{
  ParticipationRecord, ParticipationState, checked_in, participation_confirmed,
  create_participation, transition_participation, can_issue_credential_for,
}
use culturago_stellar.UseCases.Database.{
  DatabaseGateway, Action, ◌>>=◌, ◌>>◌, return, lift, query, commit,
}

module _ {Db : Type 0} (g : DatabaseGateway Db) where
  unfoldable pub register_new : String → String → String → Action Db ParticipationRecord
  register_new new_id subject_id event_id = do
    r ← lift (create_participation new_id subject_id event_id)
    commit (g.save_participation r)
    return r

  unfoldable pub register_participation : String → String → String → Action Db ParticipationRecord
  unfolding register_new
  register_participation new_id subject_id event_id = do
    existing ← query (g.get_participation subject_id event_id)
    elim existing [ some r ↦ return r | none ↦ register_new new_id subject_id event_id ]

  unfoldable pub advance_participation :
      String → String → String → ParticipationState → String → Action Db ParticipationRecord
  advance_participation now subject_id event_id to actor_id = do
    existing ← query (g.get_participation subject_id event_id)
    r ← lift (or_fail existing not_found)
    next ← lift (transition_participation r to actor_id now)
    commit (g.save_participation next)
    return next

  unfoldable pub check_in_participation :
      String → String → String → String → Action Db ParticipationRecord
  unfolding advance_participation
  check_in_participation now subject_id event_id actor_id =
      advance_participation now subject_id event_id checked_in actor_id

  unfoldable pub confirm_participation :
      String → String → String → String → Action Db ParticipationRecord
  unfolding advance_participation
  confirm_participation now subject_id event_id actor_id =
      advance_participation now subject_id event_id participation_confirmed actor_id

  unfoldable pub assert_participation_confirmed : String → String → Action Db ParticipationRecord
  assert_participation_confirmed subject_id event_id = do
    r ← query (g.get_participation subject_id event_id)
    lift (require (can_issue_credential_for r) participation_not_confirmed)
    lift (or_fail r participation_not_confirmed)
