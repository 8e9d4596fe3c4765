-- ===== src/Stellar/Tests/Contracts.antt =====
-- The in-memory chain at a concrete input: a revocation of an issued credential.
use culturago_stellar.Base.{false, none, some, [], ◌∷◌, get}
use culturago_stellar.Stellar.Transport.{address, bytes32, optional_bytes32, ContractCallSpec}
use culturago_stellar.Stellar.Chain.Ledger.{Chain, ChainCredential}
use culturago_stellar.Stellar.Chain.Port.{Codec, submit}
use culturago_stellar.Stellar.Chain.Immutability.{Kept, submit-Kept}

abbrev revocation : ContractCallSpec
revocation = record {
  contract_id = "C";
  method = "revoke_credential";
  args = address "GACTOR" ∷ bytes32 "c1" ∷ optional_bytes32 none ∷ [];
  actor_address = "GACTOR";
  fee_payer_address = none;
}

-- Every text decodes to the signed revocation.
abbrev codec : Codec
codec = record {
  encode = λ spec. "revocation";
  decode = λ xdr. some (revocation, some "signature");
  spec_text = λ spec. spec.method;
  sha256 = λ text. text;
}

abbrev credential : ChainCredential
credential = record {
  credential_id = "c1";
  token_id = 1;
  issuer_id = "org";
  subject_id = "dancer";
  event_id = "fest";
  credential_type = 1;
  metadata_hash = "h";
  hash_schema = 1;
  revoked = false;
  revoked_reason_hash = none;
  revoked_ledger = none;
  issued_ledger = 1001;
  issued_by = some "GACTOR";
}

abbrev chain : Chain
chain = record {
  ledger = 1001;
  entities = [];
  entity_versions = [];
  credentials = ("c1", credential) ∷ [];
  token_counter = 1;
  business_keys = ("org|dancer|fest|1", "c1") ∷ [];
  pending = [];
  next_submission_stays_pending = false;
  next_poll_returns_null_ledger = false;
}

submit-Kept_example :
    Kept (get "c1" chain.credentials) (get "c1" (submit codec "envelope" chain).0.credentials)
submit-Kept_example = submit-Kept codec "c1" "envelope" chain
