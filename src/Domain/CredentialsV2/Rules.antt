-- ===== src/Domain/CredentialsV2/Rules.antt =====
-- When a Credential V2 input is accepted.
use culturago_stellar.Base.{◌≡◌, ◌≢◌, ◌⊎◌, ◌↔◌, true, none, ok, arith, eq_iff}
use culturago_stellar.Domain.Entities.{is_hex64}
use culturago_stellar.Domain.CredentialsV2.{
  CredentialV2Input, participant, guest, staff, solo, group, not_applicable,
  validate_credential_v2_input, is_given,
}

-- The coherence of a family, its participation mode and its participation, spelled out.
pub record IsCoherent (i : CredentialV2Input) : Type 0 where
  pub version : i.schema_version ≡ "culturago.credential.v2"
  pub attending :
      (i.credential_family ≡ participant) ⊎ (i.credential_family ≡ guest)
      → ((i.participation_mode ≡ solo) ⊎ (i.participation_mode ≡ group))
        × (is_given i.participation_id ≡ true)
  pub working :
      i.credential_family ≡ staff
      → (i.participation_mode ≡ not_applicable) × (i.participation_id ≡ none)
  pub digest : i.payload_digest ≢ "" → is_hex64 i.payload_digest ≡ true

accepted-IsCoherent :
    (i : CredentialV2Input) → validate_credential_v2_input i ≡ ok tt → IsCoherent i
unfolding validate_credential_v2_input
accepted-IsCoherent i h =
    ground (arith, eq_iff i.schema_version "culturago.credential.v2", eq_iff i.payload_digest "")

IsCoherent-accepted :
    (i : CredentialV2Input) → IsCoherent i → validate_credential_v2_input i ≡ ok tt
unfolding validate_credential_v2_input
IsCoherent-accepted i h =
    ground (arith, eq_iff i.schema_version "culturago.credential.v2", eq_iff i.payload_digest "")

-- The validation accepts exactly the coherent inputs: the schema version is that of V2; a participant
-- and a guest go with the mode `solo` or `group` and with a participation, a member of staff with
-- `not_applicable` and with none; and a digest that is given is 64 hexadecimal digits.
pub validate_credential_v2_input_iff :
    (i : CredentialV2Input) → (validate_credential_v2_input i ≡ ok tt) ↔ IsCoherent i
validate_credential_v2_input_iff i = (accepted-IsCoherent i, IsCoherent-accepted i)
