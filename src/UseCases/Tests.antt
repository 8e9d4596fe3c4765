-- ===== src/UseCases/Tests.antt =====
-- The theorems on the use cases at concrete inputs, over the in-memory database.
use culturago_stellar.Base.{
  ◌≡◌, ◌≢◌, refl, true, false, none, some, [], ◌∷◌, ok, err, already_revoked, get, set,
  unknown_credential_type,
}
use culturago_stellar.Domain.Catalog.{credential_type_code}
use culturago_stellar.Domain.Entities.{
  EntityRecord, EntityContentInput, is_hex64, new_version, version_entity, assert_content,
}
use culturago_stellar.Domain.Credentials.{
  CredentialRecord, issued, revoked, build_credential, payload_revoked,
}
use culturago_stellar.Domain.Credentials as Credentials
use culturago_stellar.Domain.Participation.{
  ParticipationRecord, registered, participation_confirmed, can_issue_credential_for,
  create_participation, checked_in, transition_participation,
}
use culturago_stellar.Domain.Tests.{digest, other_digest}
use culturago_stellar.UseCases.Database.{IssuerOperatorLink}
use culturago_stellar.UseCases.Participation.{
  register_participation, register_new, assert_participation_confirmed, confirm_participation,
  advance_participation,
}
use culturago_stellar.UseCases.Entity.{version_entity_record}
use culturago_stellar.UseCases.Credential.{
  IssueCredentialCommand, is_active_link, issue_credential, store_unless_existing,
  revoke_credential, store_unless_revoked, verify_credential,
}
use culturago_stellar.UseCases.Memory.{
  Memory, memory_gateway, memory_gateway-IsLawful, save_credential, save_participation,
  save_entity_record, find_credential_by_business_key, credential_business_key,
}
use culturago_stellar.UseCases.Laws.Issuance.{issue_credential-twice}
use culturago_stellar.UseCases.Laws.Revocation.{revoke_credential-effect}

abbrev confirmed : ParticipationRecord
confirmed = record {
  participation_id = "p1";
  subject_id = "dancer";
  event_id = "fest";
  state = participation_confirmed;
  history = [];
}

abbrev link : IssuerOperatorLink
link = record { issuer_id = "org"; operator_id = "op"; active = true }

abbrev database : Memory
database = record {
  entities = [];
  participations = ("dancer|fest", confirmed) ∷ [];
  links = ("org|op", link) ∷ [];
  credentials = [];
}

abbrev command : IssueCredentialCommand
command = record {
  issuer_id = "org";
  operator_id = "op";
  subject_id = "dancer";
  event_id = "fest";
  credential_type = "dancer_participant";
  credential_code = "CG-1";
  title = "Participant";
  description = none;
  metadata_hash = digest;
  hash_schema = 1;
}

abbrev credential : CredentialRecord
credential = record {
  credential_id = "c1";
  credential_code = "CG-1";
  issuer_id = "org";
  issued_by = "op";
  subject_id = "dancer";
  event_id = "fest";
  credential_type = 1;
  title = "Participant";
  description = none;
  metadata_hash = digest;
  hash_schema = 1;
  status = issued;
  issued_intent_at = "2026-01-01";
  issued_ledger = none;
  revoked_ledger = none;
  revoked_reason_hash = none;
  revoked_at = none;
  revoked_by = none;
}

abbrev issued_database : Memory
issued_database = record database { credentials = ("c1", credential) ∷ [] }

issuance :
    issue_credential memory_gateway "c1" "2026-01-01" command database
    ≡ (issued_database, ok credential)
unfolding issue_credential assert_participation_confirmed store_unless_existing build_credential
    credential_type_code is_hex64 can_issue_credential_for get set save_credential
    find_credential_by_business_key
issuance = refl

issue_credential-twice_example :
    issue_credential memory_gateway "c2" "2026-02-02" command issued_database
    ≡ (issued_database, ok credential)
issue_credential-twice_example =
    issue_credential-twice memory_gateway memory_gateway-IsLawful "c1" "2026-01-01" "c2"
      "2026-02-02" command database issued_database issuance

abbrev bad_command : IssueCredentialCommand
bad_command = record command { credential_type = "champion" }

refusal :
    issue_credential memory_gateway "c1" "2026-01-01" bad_command database
    ≡ (database, err unknown_credential_type)
unfolding issue_credential credential_type_code
refusal = refl

abbrev revoked_credential : CredentialRecord
revoked_credential = record credential {
  status = revoked;
  revoked_at = some "2026-03-03";
  revoked_by = some "op";
}

abbrev revoked_database : Memory
revoked_database = record database { credentials = ("c1", revoked_credential) ∷ [] }

revocation :
    revoke_credential memory_gateway "2026-03-03" "c1" "op" none issued_database
    ≡ (revoked_database, ok revoked_credential)
unfolding revoke_credential store_unless_revoked Credentials.revoke_credential save_credential get
    set credential_business_key
revocation = refl

keyed :
    (r : CredentialRecord)
    → memory_gateway.get_credential_by_id "c1" issued_database ≡ some r
    → r.credential_id ≡ "c1"
unfolding get
keyed r h = cc h

revoke_credential-effect_example :
    (r : CredentialRecord) × (memory_gateway.get_credential_by_id "c1" issued_database ≡ some r)
    × (is_active_link (memory_gateway.get_issuer_operator_link r.issuer_id "op" issued_database)
        ≡ true)
    × (digest ≡ r.metadata_hash)
    × (memory_gateway.get_credential_by_id "c1" revoked_database ≡ some revoked_credential)
    × (verify_credential memory_gateway "c1" digest 1 revoked_database
        ≡ (revoked_database, ok (record { valid = false; reason = payload_revoked })))
    × (none ≡ some other_digest
        → revoke_credential memory_gateway "2026-04-04" "c1" "op"
            (some other_digest)
            revoked_database
          ≡ (revoked_database, ok revoked_credential))
    × (none ≢ some other_digest
        → revoke_credential memory_gateway "2026-04-04" "c1" "op"
            (some other_digest)
            revoked_database
          ≡ (revoked_database, err already_revoked))
revoke_credential-effect_example =
    revoke_credential-effect memory_gateway memory_gateway-IsLawful "2026-03-03" "2026-04-04" "c1"
      "op" none (some other_digest) issued_database revoked_database keyed revocation

abbrev new_participation : ParticipationRecord
new_participation = record {
  participation_id = "p2";
  subject_id = "singer";
  event_id = "fest";
  state = registered;
  history = [];
}

abbrev joined_database : Memory
joined_database = record database {
  participations = ("dancer|fest", confirmed) ∷ ("singer|fest", new_participation) ∷ [];
}

registration :
    register_participation memory_gateway "p2" "singer" "fest" database
    ≡ (joined_database, ok new_participation)
unfolding register_participation register_new create_participation save_participation get set
registration = refl

abbrev content : EntityContentInput
content = record {
  metadata_hash = digest;
  hash_schema = 1;
  registrar_id = "op";
  recorded_at = "2026-01-01";
}

abbrev entity : EntityRecord
entity = record {
  entity_id = "e1";
  active = true;
  latest_version = 1;
  versions = new_version 1 content ∷ [];
}

abbrev next_entity : EntityRecord
next_entity = record entity {
  latest_version = 2;
  versions = new_version 1 content ∷ new_version 2 content ∷ [];
}

abbrev entity_database : EntityRecord → Memory
entity_database e = record database { entities = ("e1", e) ∷ [] }

versioning :
    version_entity_record memory_gateway "e1" 1 content (entity_database entity)
    ≡ (entity_database next_entity, ok next_entity)
unfolding version_entity_record version_entity is_hex64 save_entity_record get set
versioning = refl

valid_content : assert_content content ≡ ok tt
unfolding assert_content is_hex64
valid_content = refl

abbrev arrived : ParticipationRecord
arrived = record confirmed { state = checked_in }

abbrev arrived_database : Memory
arrived_database = record database { participations = ("dancer|fest", arrived) ∷ [] }

abbrev now_confirmed : ParticipationRecord
now_confirmed = record confirmed {
  history =
      record { from = checked_in; to = participation_confirmed; actor_id = "op"; at = "now" } ∷ [];
}

abbrev confirmed_database : Memory
confirmed_database = record database { participations = ("dancer|fest", now_confirmed) ∷ [] }

confirmation :
    confirm_participation memory_gateway "now" "dancer" "fest" "op" arrived_database
    ≡ (confirmed_database, ok now_confirmed)
unfolding confirm_participation advance_participation transition_participation save_participation
    get set
confirmation = refl
