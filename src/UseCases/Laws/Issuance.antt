-- ===== src/UseCases/Laws/Issuance.antt =====
-- The issuance of a credential over any lawful database.
use culturago_stellar.Base.{
  ◌≡◌, ◌⊎◌, inl, inr, String, Option, none, some, ok, err, DomainErrorCode, true, option_beq_iff,
  text_eq, arith, eq_iff,
}
use culturago_stellar.Domain.Catalog.{credential_type_code}
use culturago_stellar.Domain.Credentials.{CredentialRecord, build_credential, same_payload}
use culturago_stellar.Domain.Participation.{can_issue_credential_for}
use culturago_stellar.UseCases.Database.{DatabaseGateway, IsLawful}
use culturago_stellar.UseCases.Participation.{assert_participation_confirmed}
use culturago_stellar.UseCases.Credential.{
  IssueCredentialCommand, is_active_link, input_of, issue_credential, store_unless_existing,
}

module _ {Db : Type 0} (g : DatabaseGateway Db) where
  -- An issuance that throws leaves the database as it was.
  pub issue_credential-fails :
      (id now : String) (command : IssueCredentialCommand) {code : DomainErrorCode} (db db' : Db)
      → issue_credential g id now command db ≡ (db', err code)
      → db' ≡ db
  unfolding issue_credential store_unless_existing assert_participation_confirmed
  issue_credential-fails id now command db db' h = ground arith

  pub issue_credential-guards :
      (id now : String) (command : IssueCredentialCommand) (db db' : Db) {r : CredentialRecord}
      → issue_credential g id now command db ≡ (db', ok r)
      → (is_active_link (g.get_issuer_operator_link command.issuer_id command.operator_id db)
          ≡ true)
        × (can_issue_credential_for (g.get_participation command.subject_id command.event_id db)
            ≡ true)
  unfolding issue_credential store_unless_existing assert_participation_confirmed
  issue_credential-guards id now command db db' h = ground arith

  issue_outcome :
      (id now : String) (command : IssueCredentialCommand) (db db' : Db) {r : CredentialRecord}
      → issue_credential g id now command db ≡ (db', ok r)
      → (type : _) × (credential_type_code command.credential_type ≡ ok type)
        × (let found =
              g.find_credential_by_business_key command.issuer_id command.subject_id
                command.event_id type db in
            (build_credential found (input_of id now command) ≡ ok r)
            × (((found ≡ some r) × (db' ≡ db))
                ⊎ ((found ≡ none) × (g.save_credential r db ≡ ok db'))))
  unfolding issue_credential store_unless_existing assert_participation_confirmed build_credential
  issue_outcome id now command db db' h = ground arith

  issue_run :
      (id now : String) (command : IssueCredentialCommand) (db : Db) (type : _)
      (r : CredentialRecord)
      → is_active_link (g.get_issuer_operator_link command.issuer_id command.operator_id db) ≡ true
      → can_issue_credential_for (g.get_participation command.subject_id command.event_id db) ≡ true
      → credential_type_code command.credential_type ≡ ok type
      → g.find_credential_by_business_key command.issuer_id command.subject_id command.event_id type
          db
        ≡ some r
      → build_credential (some r) (input_of id now command) ≡ ok r
      → issue_credential g id now command db ≡ (db, ok r)
  unfolding issue_credential store_unless_existing assert_participation_confirmed
      can_issue_credential_for
  issue_run id now command db type r a c t f b = ground arith

  built_again :
      (id now id' now' : String) (command : IssueCredentialCommand) (r : CredentialRecord)
      → (found : Option CredentialRecord) → build_credential found (input_of id now command) ≡ ok r
      → build_credential (some r) (input_of id' now' command) ≡ ok r
  unfolding build_credential same_payload
  built_again id now id' now' command r found h = ground (
    arith,
    option_beq_iff command.description command.description,
    eq_iff command.title command.title,
    eq_iff command.credential_code command.credential_code,
    eq_iff command.operator_id command.operator_id,
    eq_iff command.metadata_hash command.metadata_hash,
  )

  -- Where `g.find_credential_by_business_key` answers for the key of the command after an issuance.
  stored :
      (law : IsLawful g) (command : IssueCredentialCommand) (type : _) (db db' : Db)
      → (r : CredentialRecord) (id now : String)
      → credential_type_code command.credential_type ≡ ok type
      → build_credential none (input_of id now command) ≡ ok r
      → g.save_credential r db ≡ ok db'
      → g.find_credential_by_business_key command.issuer_id command.subject_id command.event_id type
          db'
        ≡ some r
  unfolding build_credential
  stored law command type db db' r id now t b s =
      ground (arith, (law.credential_saved r db db' s).1)

  -- Issuing is idempotent over a lawful database: after a success, the same command, at another time
  -- and with another new identifier, returns the stored record and leaves the database as it is.
  pub issue_credential-twice :
      (law : IsLawful g) (id now id' now' : String) (command : IssueCredentialCommand) (db db' : Db)
      → {r : CredentialRecord} → issue_credential g id now command db ≡ (db', ok r)
      → issue_credential g id' now' command db' ≡ (db', ok r)
  issue_credential-twice law id now id' now' command db db' {r} h =
      let (linked, confirmed) = issue_credential-guards id now command db db' h in
      let (type, code, (built, outcome)) = issue_outcome id now command db db' h in
      let again = built_again id now id' now' command r _ built in
      elim outcome [
        | inl (found, same) ↦
            issue_run id' now' command db' type r (rw same linked) (rw same confirmed) code
              (rw same found) again
        | inr (fresh, saved) ↦
            let (link, _) =
              law.credential_apart r db db' command.issuer_id command.operator_id saved in
            let (_, part) =
              law.credential_apart r db db' command.subject_id command.event_id saved in
            issue_run id' now' command db' type r (rw link linked) (rw part confirmed) code
              (stored law command type db db' r id now code (rw fresh at built) saved) again
      ]
