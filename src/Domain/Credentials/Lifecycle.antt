-- ===== src/Domain/Credentials/Lifecycle.antt =====
-- The life of a credential record: issued once for its business key, revoked at most once.
use culturago_stellar.Base.{
  ℕ, ◌≡◌, ◌≢◌, refl, ◌↔◌, true, false, Option, none, some, String, ok, err, arith, eq_iff, text_eq,
  option_beq_iff, already_exists, already_revoked, Bool-cases, inl, inr,
}
use culturago_stellar.Domain.Catalog.{credential_type_code}
use culturago_stellar.Domain.Entities.{is_hex64}
use culturago_stellar.Domain.Credentials.{
  CredentialRecord, IssueCredentialInput, issued, revoked, same_payload, build_credential,
  RevokeInput, revoke_credential, payload_ok, hash_mismatch, payload_revoked,
  verify_credential_payload,
}

-- The record has the payload that the input asks for.
pub record HasPayload (r : CredentialRecord) (input : IssueCredentialInput) : Type 0 where
  pub code : r.credential_code ≡ input.credential_code
  pub operator : r.issued_by ≡ input.issued_by
  pub title : r.title ≡ input.title
  pub description : r.description ≡ input.description
  pub hash : r.metadata_hash ≡ input.metadata_hash
  pub schema : r.hash_schema ≡ input.hash_schema

same_payload→HasPayload :
    (r : CredentialRecord) (input : IssueCredentialInput)
    → same_payload r input ≡ true
    → HasPayload r input
unfolding same_payload
same_payload→HasPayload r input h = ground (
  arith,
  eq_iff r.credential_code input.credential_code,
  eq_iff r.issued_by input.issued_by,
  eq_iff r.title input.title,
  option_beq_iff r.description input.description,
  eq_iff r.metadata_hash input.metadata_hash,
)

HasPayload→same_payload :
    (r : CredentialRecord) (input : IssueCredentialInput)
    → HasPayload r input
    → same_payload r input ≡ true
unfolding same_payload
HasPayload→same_payload r input h = ground (
  arith,
  eq_iff r.credential_code input.credential_code,
  eq_iff r.issued_by input.issued_by,
  eq_iff r.title input.title,
  option_beq_iff r.description input.description,
  eq_iff r.metadata_hash input.metadata_hash,
)

existing_same :
    (r : CredentialRecord) (input : IssueCredentialInput) (q : CredentialRecord)
    → build_credential (some r) input ≡ ok q
    → (q ≡ r) × (same_payload r input ≡ true)
unfolding build_credential same_payload
existing_same r input q h = ground arith

existing_kept :
    (r : CredentialRecord) (input : IssueCredentialInput) (q : CredentialRecord)
    → build_credential none input ≡ ok q
    → same_payload r input ≡ true
    → build_credential (some r) input ≡ ok r
unfolding build_credential same_payload
existing_kept r input q h p = ground arith

existing_refused :
    (r : CredentialRecord) (input : IssueCredentialInput) (q : CredentialRecord)
    → build_credential none input ≡ ok q
    → same_payload r input ≡ false
    → build_credential (some r) input ≡ err already_exists
unfolding build_credential same_payload
existing_refused r input q h p = ground arith

-- What a new record holds: the payload and the parties of the input, the code of its type, and the
-- state of an issued credential that no chain has confirmed. The issuer is not the subject, the hash
-- is 64 hexadecimal digits, and an event is named.
pub build_credential_new :
    (input : IssueCredentialInput) (r : CredentialRecord)
    → build_credential none input ≡ ok r
    → HasPayload r input
      × (r.credential_id ≡ input.credential_id)
      × (r.issuer_id ≡ input.issuer_id)
      × (r.subject_id ≡ input.subject_id)
      × (r.event_id ≡ input.event_id)
      × (credential_type_code input.credential_type ≡ ok r.credential_type)
      × (r.status ≡ issued)
      × (r.issued_ledger ≡ none)
      × (r.revoked_by ≡ none)
      × (r.issuer_id ≢ r.subject_id)
      × (is_hex64 r.metadata_hash ≡ true)
      × (r.event_id ≢ "")
unfolding build_credential
build_credential_new input r h =
    ground (arith, eq_iff input.issuer_id input.subject_id, eq_iff input.event_id "")

-- On a record that exists for the business key `buildCredential` never makes a new one: where it
-- succeeds it returns that record, and the record has the payload of the input.
pub build_credential_existing :
    (r : CredentialRecord) (input : IssueCredentialInput) (q : CredentialRecord)
    → build_credential (some r) input ≡ ok q
    → (q ≡ r) × HasPayload r input
build_credential_existing r input q h =
    let (e, p) = existing_same r input q h in (e, same_payload→HasPayload r input p)

-- With a record `r` for the business key, a valid input that carries the payload of `r`, even with
-- another time or identifier, gets `r` back; one with another payload is refused as
-- `already_exists`.
pub build_credential_repeat :
    (r : CredentialRecord) (input : IssueCredentialInput) (q : CredentialRecord)
    → build_credential none input ≡ ok q
    → (HasPayload r input → build_credential (some r) input ≡ ok r)
      × (¬ HasPayload r input → build_credential (some r) input ≡ err already_exists)
build_credential_repeat r input q k =
    (λ p. existing_kept r input q k (HasPayload→same_payload r input p), refused)
  where
    refused : ¬ HasPayload r input → build_credential (some r) input ≡ err already_exists
    refused n = elim (Bool-cases (same_payload r input)) [
      | inl p ↦ absurd (n (same_payload→HasPayload r input p))
      | inr p ↦ existing_refused r input q k p
    ]

-- Revocation happens once: after it, the same reason returns the revoked record unchanged, whoever
-- asks and whenever, and another reason is refused as `already_revoked`. It keeps what was issued.
pub revoke_credential_twice :
    (r q : CredentialRecord) (first second : RevokeInput)
    → revoke_credential r first ≡ ok q
    → (q.status ≡ revoked)
      × (q.revoked_reason_hash ≡ first.reason_hash)
      × (q.credential_id ≡ r.credential_id)
      × (q.issuer_id ≡ r.issuer_id)
      × (q.subject_id ≡ r.subject_id)
      × (q.metadata_hash ≡ r.metadata_hash)
      × (q.issued_ledger ≡ r.issued_ledger)
      × (first.reason_hash ≡ second.reason_hash → revoke_credential q second ≡ ok q)
      × (first.reason_hash ≢ second.reason_hash → revoke_credential q second ≡ err already_revoked)
unfolding revoke_credential
revoke_credential_twice r q first second h = ground (
  arith,
  option_beq_iff r.revoked_reason_hash first.reason_hash,
  option_beq_iff first.reason_hash second.reason_hash,
  option_beq_iff r.revoked_reason_hash second.reason_hash,
)

-- A verification is positive exactly when the record exists, has the hash and the schema that are
-- asked for, and is not revoked.
pub verify_credential_payload_valid :
    (o : Option CredentialRecord) (hash : String) (schema : ℕ)
    → ((verify_credential_payload o hash schema).valid ≡ true) ↔ (
        (r : CredentialRecord) × (o ≡ some r)
        × (r.metadata_hash ≡ hash)
        × (r.hash_schema ≡ schema)
        × (r.status ≡ issued))
unfolding verify_credential_payload
verify_credential_payload_valid none hash schema = (λ h. cc, λ h. cc (h.1))
verify_credential_payload_valid (some r) hash schema = (
  λ h. (r, refl, ground (arith, eq_iff r.metadata_hash hash), ground arith, ground arith),
  λ h. positive h.0 h.1 h.2 h.3 h.4,
)
  where
    positive :
        (q : CredentialRecord)
        → some r ≡ some q
        → q.metadata_hash ≡ hash
        → q.hash_schema ≡ schema
        → q.status ≡ issued
        → (verify_credential_payload (some r) hash schema).valid ≡ true
    positive q e a b c = ground (arith, eq_iff r.metadata_hash hash)

-- The verdict on a credential through its life: valid after the issuance, `payload_revoked` after a
-- revocation, and `hash_mismatch` for any other hash in both states.
pub verify_through_life :
    (input : IssueCredentialInput) (r q : CredentialRecord) (why : RevokeInput) (hash : String)
    → build_credential none input ≡ ok r
    → revoke_credential r why ≡ ok q
    → let verdict = verify_credential_payload in
      (verdict (some r) input.metadata_hash input.hash_schema
        ≡ record { valid = true; reason = payload_ok })
      × (verdict (some q) input.metadata_hash input.hash_schema
          ≡ record { valid = false; reason = payload_revoked })
      × (hash ≢ input.metadata_hash
          → (verdict (some r) hash input.hash_schema
              ≡ record { valid = false; reason = hash_mismatch })
            × (verdict (some q) hash input.hash_schema
                ≡ record { valid = false; reason = hash_mismatch }))
unfolding build_credential revoke_credential verify_credential_payload
verify_through_life input r q why hash h k =
    ground (arith, eq_iff input.metadata_hash input.metadata_hash, eq_iff input.metadata_hash hash)
