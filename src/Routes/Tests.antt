-- ===== src/Routes/Tests.antt =====
-- The submission of a signed transaction at concrete requests.
use culturago_stellar.Base.{
  ◌≡◌, refl, true, false, none, some, String, [], ◌∷◌, ok, fits, is_small_hex,
}
use culturago_stellar.Base.Values.{object, string, field, end}
use culturago_stellar.Domain.Operations.{confirmed, awaiting_signature}
use culturago_stellar.Domain.Credentials.{CredentialRecord, issued}
use culturago_stellar.Domain.Tests.{digest}
use culturago_stellar.Stellar.Commands.{Command, revoke, canonical_idempotency_key}
use culturago_stellar.Stellar.Operation.{OperationState, StoredOperation}
use culturago_stellar.Stellar.Operation as Kind
use culturago_stellar.Stellar.Transport.{done, raw_leaf, js_boolean, success}
use culturago_stellar.Stellar.Tests.{Script, scripted, config, host, operation_in, store_with}
use culturago_stellar.UseCases.Memory.{Memory, memory_gateway}
use culturago_stellar.Perimeter.Body.{validate_prepare_command}
use culturago_stellar.Perimeter.Body.Patterns.{is_small_uuid}
use culturago_stellar.Perimeter.Body.Commands.{Canonical, body_of, validate_prepare_command-body_of}
use culturago_stellar.Routes.Keys.{revoke_key, parse_idempotency_key}
use culturago_stellar.Routes.Keys.RoundTrip.{parse_idempotency_key-prepared}
use culturago_stellar.Routes.Server.{Server, Site, Request}

abbrev credential_id : String
credential_id = "5f0c7a52-8a52-4b6e-8d38-6f1f4d1c9b77"

abbrev revocation : Command
revocation = revoke (record {
  idempotency_key = "0b9c1f6e-1c51-4c0e-9f0a-0e6d3f3b2a10";
  actor_address = "GACTOR";
  credential_id = credential_id;
  reason_hash = none;
})

revocation-Canonical : Canonical revocation
unfolding is_small_uuid fits is_small_hex
revocation-Canonical = (refl, refl, tt)

revocation_valid : validate_prepare_command (body_of revocation) "GACTOR" ≡ ok revocation
revocation_valid = validate_prepare_command-body_of revocation revocation-Canonical

parse_idempotency_key-prepared_example :
    parse_idempotency_key (canonical_idempotency_key revocation)
    ≡ some (revoke_key credential_id none)
parse_idempotency_key-prepared_example =
    parse_idempotency_key-prepared (body_of revocation) "GACTOR" revocation revocation_valid

abbrev pub script : Script
script = record {
  simulation = record {
    needs_restore = false;
    prepared_xdr = "AAAA";
    latest_ledger = 7;
    contract_error = none;
  };
  submission = done "hash";
  status = success (some 9);
  back = raw_leaf (js_boolean true);
}

abbrev site : Site Script Memory
site = record {
  env = ("DATABASE_URL", "postgres://db") ∷ [];
  parse_url = λ s. some (record { origin = s; hostname = s });
  parse_json = λ s. some (object (field "operationId" (string s) end));
  sha256 = λ s. s;
  gateway_config = done config;
  host = host;
  transport = scripted;
  gateway = memory_gateway;
  default_rate_limit = 120;
  default_relayer_budget = 500;
  now = 1000;
  now_text = "2026-01-01";
}

abbrev credential : CredentialRecord
credential = record {
  credential_id = credential_id;
  credential_code = "CG-1";
  issuer_id = "org";
  issued_by = "op";
  subject_id = "dancer";
  event_id = "fest";
  credential_type = 1;
  title = "Participant";
  description = none;
  metadata_hash = digest;
  hash_schema = 1;
  status = issued;
  issued_intent_at = "2026-01-01";
  issued_ledger = none;
  revoked_ledger = none;
  revoked_reason_hash = none;
  revoked_at = none;
  revoked_by = none;
}

abbrev database : Memory
database = record {
  entities = [];
  participations = [];
  links = [];
  credentials = (credential_id, credential) ∷ [];
}

abbrev server : Server Script Memory
server = record {
  world = record { store = store_with (operation_in awaiting_signature none); chain = script };
  db = database;
  limits = [];
  identities = record {
    accounts = [];
    roles = [];
    issuer_scopes = [];
    challenges = [];
    sessions = [];
    passkeys = [];
    smart_wallet_claims = [];
    wallets = [];
  };
}

abbrev request : Request
request = record {
  headers = record { origin = some "culturago.example"; referer = none; host = none };
  session_cookie = none;
  body = "op1";
}

abbrev revoked_state : OperationState
revoked_state = record {
  operation_id = "op1";
  idempotency_key = canonical_idempotency_key revocation;
  phase = confirmed;
  tx_hash = some "hash";
  ledger = some 9;
  error_code = none;
}

abbrev revoked_credential : CredentialRecord
revoked_credential = record credential { revoked_ledger = some 9 }

abbrev revoked_database : Memory
revoked_database = record database { credentials = (credential_id, revoked_credential) ∷ [] }
