-- ===== src/UseCases/Laws/Registration.antt =====
-- The registration of participations and entities over any lawful database.
use culturago_stellar.Base.{ℕ, ◌≡◌, String, none, some, ok, err, arith, version_conflict}
use culturago_stellar.Domain.Participation.{
  ParticipationRecord, checked_in, participation_confirmed, create_participation,
  transition_participation, allowed_transitions,
}
use culturago_stellar.Domain.Entities.{
  EntityRecord, EntityContentInput, assert_content, version_entity,
}
use culturago_stellar.UseCases.Database.{DatabaseGateway, IsLawful}
use culturago_stellar.UseCases.Participation.{
  register_participation, register_new, advance_participation, confirm_participation,
}
use culturago_stellar.UseCases.Entity.{version_entity_record}

module _ {Db : Type 0} (g : DatabaseGateway Db) where
  register_new_saved :
      (id subject event : String) (db db' : Db) {r : ParticipationRecord}
      → register_new g id subject event db ≡ (db', ok r)
      → (r.subject_id ≡ subject) × (r.event_id ≡ event) × (g.save_participation r db ≡ ok db')
  unfolding register_new create_participation
  register_new_saved id subject event db db' h = ground arith

  -- Registering a participation is idempotent over a lawful database: after a success, the pair of the
  -- subject and the event is found, and a second registration returns the same record and leaves the database as it
  -- is.
  pub register_participation-twice :
      (law : IsLawful g) (id id' subject event : String) (db db' : Db) {r : ParticipationRecord}
      → register_participation g id subject event db ≡ (db', ok r)
      → (g.get_participation subject event db' ≡ some r)
        × (register_participation g id' subject event db' ≡ (db', ok r))
  unfolding register_participation register_new create_participation
  register_participation-twice law id id' subject event db db' {r} h =
      ground (arith, register_new_saved id subject event db db', law.participation_saved r db db')

  -- A confirmation succeeds only on a stored participation whose subject was checked in; the saved
  -- record is then confirmed.
  pub confirm_participation-guards :
      (now subject event actor : String) (db db' : Db) {r : ParticipationRecord}
      → confirm_participation g now subject event actor db ≡ (db', ok r)
      → (p : ParticipationRecord) × (g.get_participation subject event db ≡ some p)
        × (p.state ≡ checked_in)
        × (r.state ≡ participation_confirmed)
        × (g.save_participation r db ≡ ok db')
  unfolding confirm_participation advance_participation transition_participation allowed_transitions
  confirm_participation-guards now subject event actor db db' h = ground arith

  -- Optimistic locking over a lawful database: once a writer at the expected version has succeeded on
  -- an entity that is kept under its own identifier, a second writer with valid content that still
  -- expects the same version is refused as `version_conflict` and changes nothing.
  pub version_entity_record-stale :
      (law : IsLawful g) (id : String) (n : ℕ) (first second : EntityContentInput) (db db' : Db)
      → {r : EntityRecord} → version_entity_record g id n first db ≡ (db', ok r)
      → r.entity_id ≡ id
      → assert_content second ≡ ok tt
      → version_entity_record g id n second db' ≡ (db', err version_conflict)
  unfolding version_entity_record version_entity
  version_entity_record-stale law id n first second db db' {r} h k c =
      ground (arith, law.entity_saved r none db db')
