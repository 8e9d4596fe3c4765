-- ===== src/UseCases/Laws/Revocation.antt =====
-- The revocation of a credential over any lawful database.
use culturago_stellar.Base.{
  ◌≡◌, ◌≢◌, String, Option, some, ok, err, DomainErrorCode, true, arith, eq_iff, option_beq_iff,
  text_eq, already_revoked, false, ◌⊎◌, inl, inr, ◌∙◌, sym, subst,
}
use culturago_stellar.Domain.Credentials.{
  CredentialRecord, revoked, verify_credential_payload, issued, payload_revoked,
}
use culturago_stellar.Domain.Credentials as Credentials
use culturago_stellar.Domain.Credentials.Lifecycle.{revoke_credential_twice}
use culturago_stellar.UseCases.Database.{DatabaseGateway, IsLawful}
use culturago_stellar.UseCases.Credential.{
  is_active_link, revoke_credential, store_unless_revoked, verify_credential,
}

module _ {Db : Type 0} (g : DatabaseGateway Db) where
  -- A revocation that throws leaves the database as it was.
  pub revoke_credential-fails :
      (now id operator : String) (reason : Option String) {code : DomainErrorCode} (db db' : Db)
      → revoke_credential g now id operator reason db ≡ (db', err code)
      → db' ≡ db
  unfolding revoke_credential store_unless_revoked
  revoke_credential-fails now id operator reason db db' h = ground arith

  revoke_outcome :
      (now id operator : String) (reason : Option String) (db db' : Db) {q : CredentialRecord}
      → revoke_credential g now id operator reason db ≡ (db', ok q)
      → (r : CredentialRecord) × (g.get_credential_by_id id db ≡ some r)
        × (is_active_link (g.get_issuer_operator_link r.issuer_id operator db) ≡ true)
        × (Credentials.revoke_credential r
              (record { operator_id = operator; reason_hash = reason; revoked_at = now })
            ≡ ok q)
        × (((r.status ≡ revoked) × (db' ≡ db)) ⊎ (g.save_credential q db ≡ ok db'))
  unfolding revoke_credential store_unless_revoked
  revoke_outcome now id operator reason db db' h = ground arith

  kept_if_revoked :
      (r q : CredentialRecord) (input : Credentials.RevokeInput)
      → Credentials.revoke_credential r input ≡ ok q
      → r.status ≡ revoked
      → q ≡ r
  unfolding Credentials.revoke_credential
  kept_if_revoked r q input h k = ground arith

  revoke_found :
      (now id operator : String) (reason : Option String) (db : Db) (q : CredentialRecord)
      → g.get_credential_by_id id db ≡ some q
      → is_active_link (g.get_issuer_operator_link q.issuer_id operator db) ≡ true
      → q.status ≡ revoked
      → (q.revoked_reason_hash ≡ reason
          → revoke_credential g now id operator reason db ≡ (db, ok q))
        × (q.revoked_reason_hash ≢ reason
            → revoke_credential g now id operator reason db ≡ (db, err already_revoked))
  unfolding revoke_credential store_unless_revoked Credentials.revoke_credential
  revoke_found now id operator reason db q f a s =
      ground (arith, option_beq_iff q.revoked_reason_hash reason)

  verify_revoked :
      (id : String) (db : Db) (q : CredentialRecord)
      → g.get_credential_by_id id db ≡ some q
      → q.status ≡ revoked
      → verify_credential g id q.metadata_hash q.hash_schema db
        ≡ (db, ok (record { valid = false; reason = payload_revoked }))
  unfolding verify_credential verify_credential_payload
  verify_revoked id db q f s = ground (arith, eq_iff q.metadata_hash q.metadata_hash)

  -- Over a lawful database that keeps each credential under its own identifier, a revocation succeeds
  -- only for an operator with an active link to the issuer of the stored credential. After it the
  -- identifier finds the revoked record, with the hash that was issued, a verification of that record
  -- is negative with the reason `payload_revoked`, and the same operator's next revocation returns the same record
  -- for the same reason, is refused as `already_revoked` for another one, and changes nothing.
  pub revoke_credential-effect :
      (law : IsLawful g) (now now' id operator : String) (reason reason' : Option String)
      (db db' : Db)
      → {q : CredentialRecord}
      → ((r : CredentialRecord) → g.get_credential_by_id id db ≡ some r → r.credential_id ≡ id)
      → revoke_credential g now id operator reason db ≡ (db', ok q)
      → (r : CredentialRecord) × (g.get_credential_by_id id db ≡ some r)
        × (is_active_link (g.get_issuer_operator_link r.issuer_id operator db) ≡ true)
        × (q.metadata_hash ≡ r.metadata_hash)
        × (g.get_credential_by_id id db' ≡ some q)
        × (verify_credential g id q.metadata_hash q.hash_schema db'
            ≡ (db', ok (record { valid = false; reason = payload_revoked })))
        × (reason ≡ reason' → revoke_credential g now' id operator reason' db' ≡ (db', ok q))
        × (reason ≢ reason'
            → revoke_credential g now' id operator reason' db' ≡ (db', err already_revoked))
  revoke_credential-effect law now now' id operator reason reason' db db' {q} keyed h =
      let (r, found, linked, done, outcome) = revoke_outcome now id operator reason db db' h in
      let input : Credentials.RevokeInput = record {
        operator_id = operator;
        reason_hash = reason;
        revoked_at = now;
      } in
      let (status, why, same_id, same_issuer, _, same_hash, _, _, _) =
        revoke_credential_twice r q input input done in
      let now_found : g.get_credential_by_id id db' ≡ some q = elim outcome [
        | inl (was, same) ↦ rw (same, kept_if_revoked r q input done was) found
        | inr saved ↦
            subst (λ k. g.get_credential_by_id k db' ≡ some q) (same_id ∙ keyed r found)
              (law.credential_saved q db db' saved).0
      ] in
      let still : is_active_link (g.get_issuer_operator_link q.issuer_id operator db') ≡ true =
        elim outcome [
          | inl (was, same) ↦ rw (same, same_issuer) linked
          | inr saved ↦
              rw ((law.credential_apart q db db' q.issuer_id operator saved).0, same_issuer) linked
        ] in
      let (again, refused) = revoke_found now' id operator reason' db' q now_found still status in
      (
        r,
        found,
        linked,
        same_hash,
        now_found,
        verify_revoked id db' q now_found status,
        λ e. again (why ∙ e),
        λ n. refused (λ e. n (sym why ∙ e)),
      )
