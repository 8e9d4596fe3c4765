-- ===== src/Domain/Tests/Credentials.antt =====
-- The theorems on credentials and the passport at concrete inputs.
use Prim.Native.Nat.{compare, Ordering}
use mathlib.Core.List.{Perm}
use culturago_stellar.Base.{
  ℕ, ◌≡◌, ◌≢◌, refl, true, false, none, some, String, List, [], ◌∷◌, ok, arith, length, codes,
  text_eq,
}
use culturago_stellar.Domain.Catalog.{credential_type_code, credential_type_name}
use culturago_stellar.Domain.Entities.{is_hex64}
use culturago_stellar.Domain.Credentials.{
  CredentialRecord, IssueCredentialInput, issued, revoked, build_credential, RevokeInput,
  revoke_credential, verify_credential_payload, payload_ok, payload_revoked, hash_mismatch,
}
use culturago_stellar.Domain.Credentials.Lifecycle.{verify_through_life}
use culturago_stellar.Domain.CredentialsV2.{CredentialV2Input, guest, solo}
use culturago_stellar.Domain.Passport.{
  Collation, not_after, PassportEntry, PassportProjection, project_passport, credentials_of,
  entry_pending_confirmation, passport_entry,
}
use culturago_stellar.Domain.Passport.Projection.{ShowAll, Sorted, project_passport_lem}
use culturago_stellar.Domain.Tests.{digest, other_digest}

abbrev input : IssueCredentialInput
input = record {
  credential_id = "c1";
  credential_code = "CG-1";
  issuer_id = "org";
  issued_by = "op";
  subject_id = "dancer";
  event_id = "fest";
  credential_type = "dancer_participant";
  title = "Participant";
  description = none;
  metadata_hash = digest;
  hash_schema = 1;
  issued_intent_at = "2026-01-01";
}

abbrev credential : CredentialRecord
credential = record {
  credential_id = "c1";
  credential_code = "CG-1";
  issuer_id = "org";
  issued_by = "op";
  subject_id = "dancer";
  event_id = "fest";
  credential_type = 1;
  title = "Participant";
  description = none;
  metadata_hash = digest;
  hash_schema = 1;
  status = issued;
  issued_intent_at = "2026-01-01";
  issued_ledger = none;
  revoked_ledger = none;
  revoked_reason_hash = none;
  revoked_at = none;
  revoked_by = none;
}

built : build_credential none input ≡ ok credential
unfolding build_credential credential_type_code is_hex64
built = refl

built_again : build_credential (some credential) input ≡ ok credential
unfolding build_credential credential_type_code is_hex64
built_again = refl

abbrev why : RevokeInput
why = record { operator_id = "op"; reason_hash = none; revoked_at = "2026-02-01" }

abbrev revoked_credential : CredentialRecord
revoked_credential = record credential {
  status = revoked;
  revoked_at = some "2026-02-01";
  revoked_by = some "op";
}

revocation : revoke_credential credential why ≡ ok revoked_credential
unfolding revoke_credential
revocation = refl

abbrev other_why : RevokeInput
other_why = record {
  operator_id = "op";
  reason_hash = some other_digest;
  revoked_at = "2026-03-01";
}

verify_through_life_example :
    (verify_credential_payload (some credential) digest 1
      ≡ record { valid = true; reason = payload_ok })
    × (verify_credential_payload (some revoked_credential) digest 1
        ≡ record { valid = false; reason = payload_revoked })
    × (other_digest ≢ digest
        → (verify_credential_payload (some credential) other_digest 1
            ≡ record { valid = false; reason = hash_mismatch })
          × (verify_credential_payload (some revoked_credential) other_digest 1
              ≡ record { valid = false; reason = hash_mismatch }))
verify_through_life_example =
    verify_through_life input credential revoked_credential why other_digest built revocation

abbrev guest_input : CredentialV2Input
guest_input = record {
  credential_family = guest;
  participation_mode = solo;
  participation_id = some "p1";
  schema_version = "culturago.credential.v2";
  payload_digest = "";
}

-- A collation by length.
size : String → ℕ
size s = length (codes s)

by_size : String → String → Ordering
by_size a b = compare (size a) (size b)

by_size_total : (a b : String) → not_after (by_size a b) ≡ false → not_after (by_size b a) ≡ true
unfolding by_size
by_size_total a b h = ground arith

by_size_trans :
    (a b c : String)
    → not_after (by_size a b) ≡ true
    → not_after (by_size b c) ≡ true
    → not_after (by_size a c) ≡ true
unfolding by_size
by_size_trans a b c h k = ground arith

abbrev collation : Collation
collation = record { locale_compare = by_size; total = by_size_total; trans = by_size_trans }

abbrev entry : PassportEntry
entry = record {
  credential_id = "c1";
  credential_code = "CG-1";
  event_id = "fest";
  credential_type = "dancer_participant";
  status = entry_pending_confirmation;
  issued_intent_at = "2026-01-01";
  issued_ledger = none;
  revoked_at = none;
}

abbrev passport : PassportProjection
passport = record { subject_id = "dancer"; entries = entry ∷ [] }

project_passport_lem_example :
    (es : List PassportEntry) × ShowAll (credentials_of "dancer" (credential ∷ [])) es
    × Perm passport.entries es
    × Sorted collation passport.entries
    × (passport.subject_id ≡ "dancer")
unfolding project_passport credential_type_name passport_entry
project_passport_lem_example =
    project_passport_lem collation "dancer" (credential ∷ []) {p = passport} refl
