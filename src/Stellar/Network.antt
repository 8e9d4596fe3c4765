-- ===== src/Stellar/Network.antt =====
-- src/infrastructure/stellar/networkConfig.ts. The address of a secret is the SDK's, which may throw; `Number`, where it
-- gives a natural number, and the manifest of docs/manifests are arguments.
pub mod Roles
pub mod Tests
use culturago_stellar.Base.{
  ℕ, Bool, true, false, not, ◌&&◌, Option, none, some, String, List, [], ◌∷◌, ◌++◌, map, or_fail,
  require, invalid_input, unauthorized, if◌then◌else◌, ◌==◌, text_eq, leb, includes, select, JsMap,
  get, to_lower_case, trim, starts_with_text, split_commas,
}
use Prim.Native.String.{String as Text}
use culturago_stellar.Config.Env.{
  Environment, Environment-discrete, PublicConfig, is_demo, on_testnet, get_public_config, read,
}
use culturago_stellar.Stellar.Transport.{Attempt, threw, done, attempt_of}

infixl 5 ◌>>=◌ ◌>>◌
abbrev pub ◌>>=◌ : {A B : Type 0} → Attempt A → (A → Attempt B) → Attempt B
threw f >>= next = threw f
done a >>= next = next a

abbrev pub ◌>>◌ : {B : Type 0} → Attempt (Unit {0}) → Attempt B → Attempt B
first >> second = first >>= λ _. second

pub record NetworkConfig : Type 0 where
  pub environment : Environment
  pub network_passphrase : String
  pub rpc_url : String
  pub entity_registry_contract_id : String
  pub credential_registry_contract_id : String
  pub explorer_base : Option String
  pub smart_wallet_wasm_allowlist : List String
  pub fee_payer_address : Option String
  pub fee_payer_secret : Option String
  pub max_fee : ℕ
  pub relayer_daily_budget : ℕ

-- What the manifest of a deployment says of its smart wallets.
pub record Manifest : Type 0 where
  pub environment : Option String
  pub wasm_hash_allowlist : List String

-- `s.replace(/^0x/, '')`
abbrev drop_two : String → String
drop_two Text.[] = ""
drop_two (Text.◌∷◌ c Text.[]) = ""
drop_two (Text.◌∷◌ c (Text.◌∷◌ d s)) = s

unfoldable pub without_prefix : String → String
without_prefix s = if starts_with_text s "0x" then drop_two s else s

abbrev normalized_hash : String → String
normalized_hash s = without_prefix (to_lower_case (trim s))

abbrev all_parts : String × List String → List String
all_parts (first, others) = first ∷ others

abbrev or_empty : Option String → String
or_empty none = ""
or_empty (some s) = s

abbrev is_not_empty : String → Bool
is_not_empty s = not (s == "")

-- `[...new Set(xs)]`, the rest of it after the elements that are in it.
unfoldable pub distinct : List String → List String → List String
distinct seen [] = seen
distinct seen (x ∷ xs) = distinct (if includes seen x then seen else seen ++ x ∷ []) xs

unfoldable pub env_allowlist : JsMap String → List String
unfolding without_prefix to_lower_case trim split_commas
env_allowlist env = select is_not_empty (
    map normalized_hash
      (all_parts (split_commas (or_empty (get "STELLAR_SMART_WALLET_WASM_ALLOWLIST" env)))))

abbrev is_text : String → Option String → Bool
is_text value none = false
is_text value (some s) = s == value

unfoldable pub manifest_allowlist : PublicConfig → Manifest → List String
unfolding without_prefix to_lower_case trim
manifest_allowlist config manifest =
    if on_testnet config && is_text "testnet" manifest.environment
    then map normalized_hash manifest.wasm_hash_allowlist
    else []

abbrev number_or : (String → Option ℕ) → Option String → ℕ → Option ℕ
number_or to_number none fallback = some fallback
number_or to_number (some s) fallback = to_number s

unfoldable pub positive : (String → Option ℕ) → JsMap String → String → ℕ → Attempt ℕ
positive to_number env key fallback = do
  n ← attempt_of (or_fail (number_or to_number (get key env) fallback) invalid_input)
  attempt_of (require (leb 1 n) invalid_input)
  done n

abbrev pub allows_mutations : JsMap String → PublicConfig → Bool
allows_mutations env config =
    on_testnet config && is_text "true" (get "CULTURAGO_ALLOW_TESTNET_MUTATIONS" env)

unfoldable pub assert_not_admin : Bool → Option String → Option String → Attempt (Unit {0})
assert_not_admin true fee_payer admin = done tt
assert_not_admin false none admin = done tt
assert_not_admin false (some address) none = done tt
assert_not_admin false (some address) (some admin) =
    attempt_of (require (not (address == admin)) invalid_input)

abbrev is_testnet : NetworkConfig → Bool
is_testnet config = elim config.environment [ Environment.testnet ↦ true | other ↦ false ]

-- A text that `if (!text)` lets through.
abbrev given : Option String → Option String
given none = none
given (some s) = if s == "" then none else some s

module _ (address_of_secret : String → Attempt String) where
  unfoldable pub assert_fee_payer : Option String → Option String → Attempt (Unit {0})
  assert_fee_payer none secret = done tt
  assert_fee_payer (some address) none = done tt
  assert_fee_payer (some address) (some secret) = do
    derived ← address_of_secret secret
    attempt_of (require (derived == address) invalid_input)

  unfoldable pub assert_not_fixture : Bool → Option String → Option String → Attempt (Unit {0})
  assert_not_fixture true fee_payer secret = done tt
  assert_not_fixture false none secret = done tt
  assert_not_fixture false (some address) none = done tt
  assert_not_fixture false (some address) (some secret) = do
    fixture ← address_of_secret secret
    attempt_of (require (not (address == fixture)) invalid_input)

  -- The checks that keep the roles of the accounts apart.
  unfoldable pub assert_roles : JsMap String → PublicConfig → Attempt (Unit {0})
  unfolding assert_fee_payer assert_not_admin assert_not_fixture read Environment-discrete
  assert_roles env config = do
    let fee_payer = read env "STELLAR_FEEPAYER_ADDRESS"
    let allowed = allows_mutations env config
    assert_fee_payer fee_payer (read env "STELLAR_FEEPAYER_SECRET")
    assert_not_admin allowed fee_payer (read env "STELLAR_TESTNET_ADMIN_ADDRESS")
    assert_not_fixture allowed fee_payer (read env "STELLAR_TESTNET_FIXTURE_SECRET")

  -- The configuration of a network that is not the demo's.
  unfoldable pub network_config_of :
      (String → Option ℕ) → Manifest → JsMap String → PublicConfig → Attempt NetworkConfig
  unfolding assert_roles positive env_allowlist manifest_allowlist distinct
  network_config_of to_number manifest env config = do
    passphrase ← attempt_of (or_fail config.stellar_network_passphrase invalid_input)
    rpc_url ← attempt_of (or_fail config.stellar_rpc_url invalid_input)
    entity ← attempt_of (or_fail config.entity_registry_contract_id invalid_input)
    credential ← attempt_of (or_fail config.credential_registry_contract_id invalid_input)
    assert_roles env config
    max_fee ← positive to_number env "STELLAR_MAX_FEE_STROKES" 500000
    budget ← positive to_number env "STELLAR_RELAYER_DAILY_BUDGET" 500
    done (record {
      environment = config.environment;
      network_passphrase = passphrase;
      rpc_url = rpc_url;
      entity_registry_contract_id = entity;
      credential_registry_contract_id = credential;
      explorer_base = config.stellar_explorer_base;
      smart_wallet_wasm_allowlist =
          distinct [] (env_allowlist env ++ manifest_allowlist config manifest);
      fee_payer_address = read env "STELLAR_FEEPAYER_ADDRESS";
      fee_payer_secret = read env "STELLAR_FEEPAYER_SECRET";
      max_fee = max_fee;
      relayer_daily_budget = budget;
    })

  unfoldable pub get_stellar_network_config :
      (String → Option ℕ) → Manifest → JsMap String → Attempt NetworkConfig
  unfolding network_config_of get_public_config
  get_stellar_network_config to_number manifest env = do
    config ← attempt_of (get_public_config env)
    attempt_of (require (not (is_demo config)) invalid_input)
    network_config_of to_number manifest env config

  -- The address and the secret of the testnet's admin.
  unfoldable pub get_testnet_admin_signer_config : JsMap String → Attempt (String × String)
  unfolding get_public_config read Environment-discrete
  get_testnet_admin_signer_config env = do
    config ← attempt_of (get_public_config env)
    attempt_of (require (on_testnet config) invalid_input)
    attempt_of
        (require (is_text "true" (get "CULTURAGO_ALLOW_TESTNET_ADMIN_SIGNER" env)) unauthorized)
    address ← attempt_of (or_fail (read env "STELLAR_TESTNET_ADMIN_ADDRESS") invalid_input)
    secret ← attempt_of (or_fail (read env "STELLAR_TESTNET_ADMIN_SECRET") invalid_input)
    derived ← address_of_secret secret
    attempt_of (require (derived == address) invalid_input)
    done (address, secret)

  unfoldable pub get_fixture_signer_secret :
      (String → Option ℕ) → Manifest → JsMap String → Attempt String
  unfolding get_stellar_network_config
  get_fixture_signer_secret to_number manifest env = do
    config ← get_stellar_network_config to_number manifest env
    attempt_of (require (is_testnet config) invalid_input)
    attempt_of
        (require (is_text "true" (get "CULTURAGO_ALLOW_TESTNET_FIXTURE_SIGNER" env)) unauthorized)
    attempt_of (or_fail (given (get "STELLAR_TESTNET_FIXTURE_SECRET" env)) invalid_input)
