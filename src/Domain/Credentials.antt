-- ===== src/Domain/Credentials.antt =====
-- Credential records: issuance, revocation and verification
-- (src/domain/credentials/credential.ts). The hash pattern is that of `Entities`.
pub mod Lifecycle
use culturago_stellar.Base.{
  ℕ, Bool, true, false, ◌&&◌, ◌||◌, not, Option, none, some, String, ◌==◌, number_eq, text_eq, Eq,
  enum_eq, option_beq, if◌then◌else◌, Result, ok, err, ◌>>=◌, ◌>>◌, require, invalid_input,
  already_exists, already_revoked,
}
use culturago_stellar.Domain.Catalog.{credential_type_code}
use culturago_stellar.Domain.Entities.{is_hex64}

pub data CredentialStatus : Type 0 where
  issued revoked : CredentialStatus

unfoldable pub CredentialStatus-discrete : Discrete CredentialStatus
CredentialStatus-discrete = hlevel

instance abbrev pub credential_status_eq : Eq CredentialStatus
credential_status_eq = enum_eq CredentialStatus-discrete

pub record CredentialRecord : Type 0 where
  pub credential_id : String
  pub credential_code : String
  pub issuer_id : String
  pub issued_by : String
  pub subject_id : String
  pub event_id : String
  pub credential_type : ℕ
  pub title : String
  pub description : Option String
  pub metadata_hash : String
  pub hash_schema : ℕ
  pub status : CredentialStatus
  pub issued_intent_at : String
  pub issued_ledger : Option ℕ
  pub revoked_ledger : Option ℕ
  pub revoked_reason_hash : Option String
  pub revoked_at : Option String
  pub revoked_by : Option String

pub record IssueCredentialInput : Type 0 where
  pub credential_id : String
  pub credential_code : String
  pub issuer_id : String
  pub issued_by : String
  pub subject_id : String
  pub event_id : String
  pub credential_type : String
  pub title : String
  pub description : Option String
  pub metadata_hash : String
  pub hash_schema : ℕ
  pub issued_intent_at : String

unfoldable pub same_payload : CredentialRecord → IssueCredentialInput → Bool
same_payload a input =
    a.credential_code == input.credential_code
    && a.issued_by == input.issued_by
    && a.title == input.title
    && option_beq a.description input.description
    && a.metadata_hash == input.metadata_hash
    && a.hash_schema == input.hash_schema

unfoldable pub new_credential : IssueCredentialInput → ℕ → CredentialRecord
new_credential input type = record {
  credential_id = input.credential_id;
  credential_code = input.credential_code;
  issuer_id = input.issuer_id;
  issued_by = input.issued_by;
  subject_id = input.subject_id;
  event_id = input.event_id;
  credential_type = type;
  title = input.title;
  description = input.description;
  metadata_hash = input.metadata_hash;
  hash_schema = input.hash_schema;
  status = issued;
  issued_intent_at = input.issued_intent_at;
  issued_ledger = none;
  revoked_ledger = none;
  revoked_reason_hash = none;
  revoked_at = none;
  revoked_by = none;
}

-- The guards of `buildCredential` between the catalog lookup and the existing record.
unfoldable pub assert_issue_input : IssueCredentialInput → Result (Unit {0})
assert_issue_input input = do
  require (is_hex64 input.metadata_hash) invalid_input
  require (not (input.hash_schema == 0)) invalid_input
  require (not (input.issuer_id == input.subject_id)) invalid_input
  require (not (input.event_id == "")) invalid_input

unfoldable pub build_on :
    Option CredentialRecord → IssueCredentialInput → ℕ → Result CredentialRecord
unfolding same_payload new_credential
build_on (some existing) input type =
    if same_payload existing input then ok existing else err already_exists
build_on none input type = ok (new_credential input type)

unfoldable pub build_credential :
    Option CredentialRecord → IssueCredentialInput → Result CredentialRecord
unfolding assert_issue_input build_on
build_credential existing_for_key input = do
  type ← credential_type_code input.credential_type
  assert_issue_input input
  build_on existing_for_key input type

pub record RevokeInput : Type 0 where
  pub operator_id : String
  pub reason_hash : Option String
  pub revoked_at : String

unfoldable pub revoke_credential : CredentialRecord → RevokeInput → Result CredentialRecord
unfolding CredentialStatus-discrete
revoke_credential r input =
    if r.status == revoked
    then (if option_beq r.revoked_reason_hash input.reason_hash then ok r else err already_revoked)
    else ok (record r {
      status = revoked;
      revoked_reason_hash = input.reason_hash;
      revoked_at = some input.revoked_at;
      revoked_by = some input.operator_id;
    })

pub data Reason : Type 0 where
  payload_ok payload_not_found hash_mismatch payload_revoked : Reason

pub record Verification : Type 0 where
  pub valid : Bool
  pub reason : Reason

unfoldable pub verify_credential_payload : Option CredentialRecord → String → ℕ → Verification
unfolding CredentialStatus-discrete
verify_credential_payload none metadata_hash hash_schema = record {
  valid = false;
  reason = payload_not_found;
}
verify_credential_payload (some r) metadata_hash hash_schema =
    if not (r.metadata_hash == metadata_hash) || not (r.hash_schema == hash_schema)
    then record { valid = false; reason = hash_mismatch }
    else if r.status == revoked
    then record { valid = false; reason = payload_revoked }
    else record { valid = true; reason = payload_ok }
