-- ===== src/UseCases/Credential.antt =====
-- src/application/use-cases/issue-credential.ts, revoke-credential.ts and get-passport-trajectory.ts.
use culturago_stellar.Base.{
  ℕ, Bool, false, String, Option, none, some, or_fail, require, not_found,
  issuer_operator_not_linked, ◌==◌, if◌then◌else◌,
}
use culturago_stellar.Domain.Catalog.{credential_type_code}
use culturago_stellar.Domain.Credentials.{
  CredentialRecord, CredentialStatus-discrete, credential_status_eq, revoked, IssueCredentialInput,
  build_credential, RevokeInput, Verification, verify_credential_payload,
}
use culturago_stellar.Domain.Credentials as Credentials
use culturago_stellar.Domain.Passport.{Collation, PassportProjection, project_passport}
use culturago_stellar.UseCases.Database.{
  DatabaseGateway, IssuerOperatorLink, Action, ◌>>=◌, ◌>>◌, return, lift, query, commit,
}
use culturago_stellar.UseCases.Participation.{assert_participation_confirmed}

pub record IssueCredentialCommand : Type 0 where
  pub issuer_id : String
  pub operator_id : String
  pub subject_id : String
  pub event_id : String
  pub credential_type : String
  pub credential_code : String
  pub title : String
  pub description : Option String
  pub metadata_hash : String
  pub hash_schema : ℕ

abbrev pub is_active_link : Option IssuerOperatorLink → Bool
is_active_link none = false
is_active_link (some link) = link.active

-- The input of `buildCredential`, with the identifier of `newId` and the time of `now`.
abbrev pub input_of : String → String → IssueCredentialCommand → IssueCredentialInput
input_of new_id now command = record {
  credential_id = new_id;
  credential_code = command.credential_code;
  issuer_id = command.issuer_id;
  issued_by = command.operator_id;
  subject_id = command.subject_id;
  event_id = command.event_id;
  credential_type = command.credential_type;
  title = command.title;
  description = command.description;
  metadata_hash = command.metadata_hash;
  hash_schema = command.hash_schema;
  issued_intent_at = now;
}

module _ {Db : Type 0} (g : DatabaseGateway Db) where
  -- `record === existing` holds exactly where there is an existing record: `buildCredential` then
  -- returns that object, and otherwise a new one.
  unfoldable pub store_unless_existing :
      Option CredentialRecord → CredentialRecord → Action Db CredentialRecord
  store_unless_existing (some existing) r = return existing
  store_unless_existing none r = do commit (g.save_credential r); return r

  unfoldable pub issue_credential :
      String → String → IssueCredentialCommand → Action Db CredentialRecord
  unfolding store_unless_existing assert_participation_confirmed
  issue_credential new_id now command = do
    type ← lift (credential_type_code command.credential_type)
    link ← query (g.get_issuer_operator_link command.issuer_id command.operator_id)
    lift (require (is_active_link link) issuer_operator_not_linked)
    confirmed ← assert_participation_confirmed g command.subject_id command.event_id
    existing ← query (
        g.find_credential_by_business_key command.issuer_id command.subject_id command.event_id
          type)
    r ← lift (build_credential existing (input_of new_id now command))
    store_unless_existing existing r

  -- `updated !== record` holds exactly where the record was not revoked before.
  unfoldable pub store_unless_revoked :
      CredentialRecord → CredentialRecord → Action Db CredentialRecord
  unfolding CredentialStatus-discrete
  store_unless_revoked r updated =
      if r.status == revoked
      then return updated
      else do commit (g.save_credential updated); return updated

  unfoldable pub revoke_credential :
      String → String → String → Option String → Action Db CredentialRecord
  unfolding store_unless_revoked
  revoke_credential now credential_id operator_id reason_hash = do
    found ← query (g.get_credential_by_id credential_id)
    r ← lift (or_fail found not_found)
    link ← query (g.get_issuer_operator_link r.issuer_id operator_id)
    lift (require (is_active_link link) issuer_operator_not_linked)
    updated ← lift (
        Credentials.revoke_credential r
          (record { operator_id = operator_id; reason_hash = reason_hash; revoked_at = now }))
    store_unless_revoked r updated

  unfoldable pub verify_credential : String → String → ℕ → Action Db Verification
  verify_credential credential_id metadata_hash hash_schema = do
    r ← query (g.get_credential_by_id credential_id)
    return (verify_credential_payload r metadata_hash hash_schema)

  unfoldable pub get_passport_trajectory : Collation → String → Action Db PassportProjection
  get_passport_trajectory collation subject_id = do
    credentials ← query (g.list_credentials_by_subject subject_id)
    lift (project_passport collation subject_id credentials)
