-- ===== src/Routes/Deploy/Tests.antt =====
-- The deployment of a smart wallet at a concrete request.
use culturago_stellar.Base.{
  ◌≡◌, refl, true, false, none, some, String, [], ◌∷◌, ok, JsMap, get, set, trim, fits,
  starts_with_text, upper_contains, to_lower_case, split_commas, is_any_hex, is_base32, is_base64,
  is_base64_digit,
}
use culturago_stellar.Base.Values.{Value, object, string, field, end, field_of}
use culturago_stellar.Config.Env.{
  get_public_config, checked_config, read, assert_no_public_secrets, assert_public_entry,
  names_secret, is_persistence_configured,
}
use culturago_stellar.Auth.Identity.{
  Account, Session, active, get_session, get_roles, get_issuer_scopes, update_account_wallet,
}
use culturago_stellar.Auth.Identity.Wallets.{upsert_wallet, save_smart_wallet_claim}
use culturago_stellar.Auth.Sessions.{validate}
use culturago_stellar.Auth.Actor.{ActorContext, resolve_actor}
use culturago_stellar.Perimeter.Origin.{
  normalize_origin, get_trusted_origins, request_url, assert_origin_allowed,
}
use culturago_stellar.Perimeter.Rate.{
  hit_limit, domain_rate_limit, assert_within, assert_rate_limit, assert_relayer_budget,
}
use culturago_stellar.Perimeter.Body.{
  assert_base64, assert_contract_id, is_contract_id, assert_no_extra_fields, assert_body_size,
  parse_strict_json, validate_deploy_body,
}
use culturago_stellar.Stellar.Transport.{done, pending, raw_leaf, js_null}
use culturago_stellar.Stellar.Network.{
  get_stellar_network_config, network_config_of, assert_roles, assert_fee_payer, assert_not_admin,
  assert_not_fixture, positive, env_allowlist, manifest_allowlist, distinct, without_prefix,
}
use culturago_stellar.Stellar.Allowlist.{
  DeployEnvelope, extract_create_contract_wasm_hashes, extract_wasm_hashes_from_operation,
  invokes_host_function, strip, extract_wasm_hash_from_host_function, wasm_hash_from_executable,
  get_inner_transaction, extract_contract_id_preimage, derive_contract_address_from_operation,
  derive_smart_wallet_contract_address, assert_smart_wallet_contract_address,
  assert_smart_wallet_wasm_allowlist,
}
use culturago_stellar.Stellar.Tests.{Script, scripted, config, host, empty_store}
use culturago_stellar.UseCases.Memory.{Memory, memory_gateway}
use culturago_stellar.Routes.Actor.{
  create_auth_bundle, get_actor_from_session, require_actor_from_session,
}
use culturago_stellar.Routes.Server.{Server, Site, Request}
use culturago_stellar.Routes.Submit.{assert_testnet_mutations_allowed}
use culturago_stellar.Routes.Deploy.{
  Deployment, sent, deployed, identify, verify, enrol, record_deployment, deploy_verified,
  deploy_request, post_deploy,
}
use culturago_stellar.Routes.Deploy.Enrolment.{HasWallet, post_deploy-HasWallet}

abbrev contract : String
contract = "CAAAAAAAAAAAAAAAAAAAAAAAAAAAAAAAAAAAAAAAAAAAAAAAAAAAAAAA"

abbrev envelope : DeployEnvelope
envelope = record {
  kind = "envelopeTypeTx";
  operations =
      record {
        name = "invokeHostFunction";
        host_function = some (record {
          kind = 1;
          create_args = some (record {
            executable = some (record { kind = 0; wasm_hash = some "ab" });
            preimage = some (record {
              name = "contractIdPreimageFromAddress";
              address = "GRELAYER";
              salt = "salt";
            });
          });
        });
      }
      ∷ [];
}

abbrev deployment : Deployment
deployment = record {
  address_of_secret = λ s. done "GPAYER";
  to_number = λ s. none;
  manifest = record { environment = some "testnet"; wasm_hash_allowlist = "0xAB" ∷ [] };
  decode = λ xdr passphrase. some (record { own = envelope; inner = none });
  contract_address = λ passphrase address salt. some contract;
  send = λ network url key xdr. done (sent "hash");
  wallet_id = "w1";
  claim_id = "c1";
}

abbrev env : JsMap String
env =
    ("NEXT_PUBLIC_CULTURAGO_ENV", "testnet")
    ∷ ("NEXT_PUBLIC_STELLAR_NETWORK_PASSPHRASE", "Test SDF Network ; September 2015")
    ∷ ("NEXT_PUBLIC_STELLAR_RPC_URL", "https://rpc.example.org")
    ∷ ("NEXT_PUBLIC_ENTITY_REGISTRY_CONTRACT_ID", "CENTITY")
    ∷ ("NEXT_PUBLIC_CREDENTIAL_REGISTRY_CONTRACT_ID", "CCREDENTIAL")
    ∷ ("CULTURAGO_ALLOW_TESTNET_MUTATIONS", "true")
    ∷ ("CULTURAGO_TRUSTED_ORIGINS", "https://culturago.example")
    ∷ ("WEBAUTHN_RP_ID", "culturago.example")
    ∷ ("WEBAUTHN_ORIGINS", "https://culturago.example")
    ∷ ("SMART_WALLET_RELAYER_BASE_URL", "https://relay.example")
    ∷ ("SMART_WALLET_RELAYER_API_KEY", "k")
    ∷ ("DATABASE_URL", "postgres://db")
    ∷ []

abbrev body : Value
body = object (field "signedTx" (string "AAAA") (field "contractId" (string contract) end))

abbrev site : Site Script Memory
site = record {
  env = env;
  parse_url = λ s. some (record { origin = s; hostname = s });
  parse_json = λ s. some body;
  sha256 = λ s. s;
  gateway_config = done config;
  host = host;
  transport = scripted;
  gateway = memory_gateway;
  default_rate_limit = 120;
  default_relayer_budget = 500;
  now = 1000;
  now_text = "2026-01-01";
}

abbrev account : Account
account = record {
  id = "a1";
  status = active;
  person_entity_id = some "p1";
  wallet_contract_address = none;
  created_at = 0;
}

abbrev session : Session
session = record {
  id = "s1";
  session_token = "token";
  account_id = "a1";
  idle_expires_at = 2000;
  absolute_expires_at = 3000;
  rotated_from = none;
  revoked_at = none;
}

abbrev server : Server Script Memory
server = record {
  world = record {
    store = empty_store;
    chain = record {
      simulation = record {
        needs_restore = false;
        prepared_xdr = "AAAA";
        latest_ledger = 7;
        contract_error = none;
      };
      submission = done "hash";
      status = pending;
      back = raw_leaf js_null;
    };
  };
  db = record { entities = []; participations = []; links = []; credentials = [] };
  limits = [];
  identities = record {
    accounts = ("a1", account) ∷ [];
    roles = ("a1", "operator" ∷ []) ∷ [];
    issuer_scopes = [];
    challenges = [];
    passkeys = [];
    sessions = ("token", session) ∷ [];
    smart_wallet_claims = [];
    wallets = [];
  };
}

abbrev request : Request
request = record {
  headers = record { origin = some "https://culturago.example"; referer = none; host = none };
  session_cookie = some "token";
  body = "{}";
}

abbrev after : Server Script Memory
after = (post_deploy site deployment request server).0

deploys : post_deploy site deployment request server ≡ (after, deployed "hash" contract)
unfolding post_deploy deploy_request identify verify deploy_verified record_deployment enrol
    update_account_wallet upsert_wallet save_smart_wallet_claim create_auth_bundle
    require_actor_from_session get_actor_from_session assert_testnet_mutations_allowed
    get_stellar_network_config network_config_of get_public_config checked_config read
    assert_no_public_secrets assert_public_entry names_secret get set trim starts_with_text
    upper_contains fits assert_roles assert_fee_payer assert_not_admin assert_not_fixture positive
    env_allowlist manifest_allowlist distinct without_prefix to_lower_case split_commas
    extract_create_contract_wasm_hashes extract_wasm_hashes_from_operation invokes_host_function
    strip extract_wasm_hash_from_host_function wasm_hash_from_executable get_inner_transaction
    extract_contract_id_preimage derive_contract_address_from_operation
    derive_smart_wallet_contract_address assert_smart_wallet_contract_address
    assert_smart_wallet_wasm_allowlist normalize_origin get_trusted_origins request_url
    assert_origin_allowed hit_limit domain_rate_limit assert_within assert_rate_limit
    assert_relayer_budget assert_base64 assert_contract_id is_contract_id assert_no_extra_fields
    assert_body_size parse_strict_json validate_deploy_body get_session get_roles get_issuer_scopes
    validate resolve_actor field_of is_persistence_configured is_any_hex is_base32 is_base64
    is_base64_digit
deploys = refl

persistent : is_persistence_configured env ≡ true
unfolding is_persistence_configured read get trim
persistent = refl

post_deploy-HasWallet_example :
    (actor : ActorContext) × (require_actor_from_session site.sha256 env 1000
        (some "token")
        server.identities
      ≡ ok actor)
    × HasWallet site deployment actor.account_id contract after.identities
post_deploy-HasWallet_example =
    post_deploy-HasWallet site deployment request server after "hash" contract persistent deploys
