-- ===== src/Routes/Deploy.antt =====
-- The handler of src/app/api/smart-wallet/deploy/route.ts. The relayer's answer to a transaction is a parameter.
pub mod Approved
pub mod Enrolment
pub mod Tests
use culturago_stellar.Base.{
  ℕ, Bool, true, false, ◌||◌, Option, none, some, String, List, Result, ok, err, or_fail,
  invalid_input, if◌then◌else◌, JsMap, get,
}
use culturago_stellar.Base as Base
use culturago_stellar.Config.Env.{
  Environment, PublicConfig, demo, testnet, mainnet, is_demo, get_public_config,
  is_persistence_configured,
}
use culturago_stellar.Auth.Identity.{Identities, Account, passkey, claimed, update_account_wallet}
use culturago_stellar.Auth.Identity.Wallets.{
  NewClaim, NewWallet, save_smart_wallet_claim, upsert_wallet,
}
use culturago_stellar.Auth.Actor.{ActorContext}
use culturago_stellar.Perimeter.Origin.{assert_origin_allowed}
use culturago_stellar.Perimeter.Rate.{assert_rate_limit, assert_relayer_budget}
use culturago_stellar.Perimeter.Body.{
  DeployBody, max_body_bytes, parse_strict_json, validate_deploy_body,
}
use culturago_stellar.Stellar.Transport.{Failure, Attempt, threw, done}
use culturago_stellar.Stellar.Network.{NetworkConfig, Manifest, get_stellar_network_config}
use culturago_stellar.Stellar.Allowlist.{
  ParsedTransaction, assert_smart_wallet_wasm_allowlist, assert_smart_wallet_contract_address,
}
use culturago_stellar.Routes.Actor.{given_text, create_auth_bundle, require_actor_from_session}
use culturago_stellar.Routes.Server.{
  Server, Site, Request, Call, ◌>>=◌, ◌>>◌, return, checked, tried, identified, enrolled, limited,
  status_of,
}
use culturago_stellar.Routes.Submit.{no_options, assert_testnet_mutations_allowed}

-- What the relayer answers: the hash of the transaction, or a failure.
pub data Sent : Type 0 where
  sent : String → Sent
  not_sent : Sent

-- The code outside the repository that a deployment calls, and the two identifiers that it draws.
pub record Deployment : Type 0 where
  pub address_of_secret : String → Attempt String
  pub to_number : String → Option ℕ
  pub manifest : Manifest
  pub decode : String → String → Option ParsedTransaction
  pub contract_address : String → String → String → Option String
  pub send : NetworkConfig → String → String → String → Attempt Sent
  pub wallet_id : String
  pub claim_id : String

pub data DeployResponse : Type 0 where
  deployed : String → String → DeployResponse
  refused : ℕ → DeployResponse

-- What is known of a deployment before the relayer is called.
pub record Verified : Type 0 where
  pub config : NetworkConfig
  pub body : DeployBody
  pub contract_id : String
  pub base_url : String
  pub api_key : String

abbrev pub environment_name : Environment → String
environment_name demo = "demo"
environment_name testnet = "testnet"
environment_name mainnet = "mainnet"

abbrev pub new_wallet : ℕ → String → String → NewWallet
new_wallet now person contract_id = record {
  entity_id = person;
  wallet_address = contract_id;
  wallet_type = passkey;
  wallet_status = claimed;
  claimed_at = some now;
}

abbrev pub new_claim : ℕ → String → String → DeployBody → String → String → String → NewClaim
new_claim now account_id person body contract_id network hash = record {
  account_id = account_id;
  entity_id = person;
  contract_id = contract_id;
  key_id = body.key_id;
  wallet_wasm_hash = body.wallet_wasm_hash;
  network = some network;
  deploy_tx_hash = some hash;
  deployed_at = some now;
}

abbrev pub person_of : Option Account → Option String
person_of none = none
person_of (some account) = given_text account.person_entity_id

module _ {Chain Db : Type 0} (site : Site Chain Db) (deployment : Deployment) where
  open deployment use {
    address_of_secret, to_number, manifest, decode, contract_address, send, wallet_id, claim_id,
  }

  unfoldable pub identify : Request → Call Chain Db ActorContext
  unfolding assert_origin_allowed require_actor_from_session assert_rate_limit
      assert_testnet_mutations_allowed
  identify request = do
    checked (assert_origin_allowed site.parse_url site.env request.headers)
    actor ←
        identified (require_actor_from_session site.sha256 site.env site.now request.session_cookie)
    limited (assert_rate_limit site.default_rate_limit site.now actor.account_id no_options)
    checked (assert_testnet_mutations_allowed site.env)
    return actor

  unfoldable pub verify : Request → Call Chain Db Verified
  unfolding parse_strict_json validate_deploy_body get_stellar_network_config
      assert_smart_wallet_wasm_allowlist assert_smart_wallet_contract_address
  verify request = do
    parsed ← checked (parse_strict_json site.parse_json max_body_bytes request.body)
    body ← checked (validate_deploy_body parsed.1)
    config ← tried (get_stellar_network_config address_of_secret to_number manifest site.env)
    hashes ← checked (
        assert_smart_wallet_wasm_allowlist decode body.signed_tx config.network_passphrase
          config.smart_wallet_wasm_allowlist)
    derived ← checked (
        assert_smart_wallet_contract_address decode contract_address body.signed_tx
          config.network_passphrase body.contract_id)
    base_url ←
        checked (or_fail (given_text (get "SMART_WALLET_RELAYER_BASE_URL" site.env)) invalid_input)
    api_key ←
        checked (or_fail (given_text (get "SMART_WALLET_RELAYER_API_KEY" site.env)) invalid_input)
    return (record {
      config = config;
      body = body;
      contract_id = derived;
      base_url = base_url;
      api_key = api_key;
    })

  -- The wallet and the claim of the account's person, where it has one.
  abbrev pub enrol_person :
      String → DeployBody → String → String → String → Option String → Identities → Identities
  enrol_person account_id body contract_id network hash none s = s
  enrol_person account_id body contract_id network hash (some person) s =
      save_smart_wallet_claim claim_id site.now
        (new_claim site.now account_id person body contract_id network hash)
        (upsert_wallet wallet_id site.now (new_wallet site.now person contract_id) s)

  abbrev pub enrol_updated :
      String
      → DeployBody
      → String
      → String
      → String
      → Identities
      → Result Identities
      → Identities × Result (Unit {0})
  enrol_updated account_id body contract_id network hash s (err code) = (s, err code)
  enrol_updated account_id body contract_id network hash s (ok t) = (
    enrol_person account_id body contract_id network hash (person_of (get account_id t.accounts)) t,
    ok tt,
  )

  unfoldable pub enrol :
      String → DeployBody → String → String → String → Identities → Identities × Result (Unit {0})
  unfolding save_smart_wallet_claim upsert_wallet
  enrol account_id body contract_id network hash s =
      enrol_updated account_id body contract_id network hash s
        (update_account_wallet account_id contract_id s)

  abbrev enrol_if : Bool → String → Verified → String → String → Call Chain Db (Unit {0})
  enrol_if false account_id v network hash = return tt
  enrol_if true account_id v network hash =
      enrolled (enrol account_id v.body v.contract_id network hash)

  abbrev pub enrol_in : String → Verified → String → PublicConfig → Call Chain Db (Unit {0})
  enrol_in account_id v hash config =
      enrol_if (is_persistence_configured site.env || is_demo config) account_id v
        (environment_name config.environment) hash

  -- What follows a transaction that the relayer has sent.
  unfoldable pub record_deployment : String → Verified → String → Call Chain Db (Unit {0})
  unfolding enrol create_auth_bundle is_persistence_configured get_public_config
  record_deployment account_id v hash = do
    checked (create_auth_bundle site.env)
    config ← checked (get_public_config site.env)
    enrol_in account_id v hash config

  abbrev pub answer_sent : String → Verified → Sent → Call Chain Db DeployResponse
  answer_sent account_id v not_sent = return (refused 500)
  answer_sent account_id v (sent hash) = do
    record_deployment account_id v hash
    return (deployed hash v.contract_id)

  unfoldable pub deploy_verified : String → Verified → Call Chain Db DeployResponse
  unfolding assert_relayer_budget record_deployment
  deploy_verified account_id v = do
    limited (assert_relayer_budget site.default_relayer_budget site.now account_id no_options)
    result ← tried (send v.config v.base_url v.api_key v.body.signed_tx)
    answer_sent account_id v result

  unfoldable pub deploy_request : Request → Call Chain Db DeployResponse
  unfolding identify verify deploy_verified
  deploy_request request = do
    actor ← identify request
    v ← verify request
    deploy_verified actor.account_id v

  abbrev pub answer_deploy :
      Server Chain Db × Attempt DeployResponse → Server Chain Db × DeployResponse
  answer_deploy (s, done response) = (s, response)
  answer_deploy (s, threw f) = (s, refused (status_of f))

  -- `POST`
  unfoldable pub post_deploy : Request → Server Chain Db → Server Chain Db × DeployResponse
  unfolding deploy_request status_of
  post_deploy request s = answer_deploy (deploy_request request s)
