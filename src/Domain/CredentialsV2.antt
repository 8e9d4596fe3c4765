-- ===== src/Domain/CredentialsV2.antt =====
-- Credential V2 inputs and their evidence (src/domain/credentials/v2.ts). The fields that the
-- validation does not read are left out of the input.
pub mod Rules
use culturago_stellar.Base.{
  Bool, true, false, not, ◌&&◌, ◌||◌, Option, none, some, String, ◌==◌, text_eq, Eq, enum_eq,
  if◌then◌else◌, Result, ok, err, ◌>>=◌, ◌>>◌, require, is_some, invalid_credential,
  invalid_evidence,
}
use culturago_stellar.Domain.Entities.{is_hex64}

pub data CredentialFamily : Type 0 where
  participant guest staff : CredentialFamily

pub data ParticipationMode : Type 0 where
  solo group not_applicable : ParticipationMode

unfoldable pub ParticipationMode-discrete : Discrete ParticipationMode
ParticipationMode-discrete = hlevel

instance abbrev pub participation_mode_eq : Eq ParticipationMode
participation_mode_eq = enum_eq ParticipationMode-discrete

pub record CredentialV2Input : Type 0 where
  pub credential_family : CredentialFamily
  pub participation_mode : ParticipationMode
  pub participation_id : Option String
  pub schema_version : String
  pub payload_digest : String

-- `!!value`: neither `null` nor the empty text.
abbrev pub is_given : Option String → Bool
is_given none = false
is_given (some s) = not (s == "")

unfoldable pub require_participation : CredentialV2Input → Result (Unit {0})
unfolding ParticipationMode-discrete
require_participation input = do
  require (input.participation_mode == solo || input.participation_mode == group) invalid_credential
  require (is_given input.participation_id) invalid_credential

-- The branch on `credentialFamily`; the type has no other family.
unfoldable pub validate_family : CredentialFamily → CredentialV2Input → Result (Unit {0})
unfolding require_participation ParticipationMode-discrete
validate_family participant input = require_participation input
validate_family guest input = require_participation input
validate_family staff input = do
  require (input.participation_mode == not_applicable) invalid_credential
  require (not (is_some input.participation_id)) invalid_credential

unfoldable pub validate_credential_v2_input : CredentialV2Input → Result (Unit {0})
unfolding validate_family
validate_credential_v2_input input = do
  require (input.schema_version == "culturago.credential.v2") invalid_credential
  validate_family input.credential_family input
  require (not (not (input.payload_digest == "") && not (is_hex64 input.payload_digest)))
      invalid_credential

pub data EvidenceSourceType : Type 0 where
  from_participation from_relationship : EvidenceSourceType

-- The two lookups in the database that the caller passes in.
pub record EvidenceValidationContext : Type 0 where
  pub participation_exists : String → Bool
  pub relationship_exists : String → Bool

unfoldable pub validate_evidence_input :
    EvidenceSourceType → String → EvidenceValidationContext → Result (Unit {0})
validate_evidence_input from_participation source_id context =
    require (context.participation_exists source_id) invalid_evidence
validate_evidence_input from_relationship source_id context =
    require (context.relationship_exists source_id) invalid_evidence
