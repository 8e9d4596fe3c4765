-- ===== src/Config/Env.antt =====
-- src/infrastructure/config/env.ts. The environment of the process is a map of texts; its names are ASCII.
pub mod Gate
use Prim.Native.String.{◌++◌}
use culturago_stellar.Base.{
  ℕ, Bool, true, false, not, ◌&&◌, ◌||◌, Option, none, some, is_some, String, List, [], ◌∷◌, Result,
  ok, err, ◌>>◌, ◌>>=◌, require, or_fail, invalid_input, if◌then◌else◌, ◌==◌, text_eq, nat_beq,
  JsMap, get, codes, repeat, fits, is_base32, trim, starts_with_text, upper_contains,
}

pub data Environment : Type 0 where
  demo testnet mainnet : Environment

unfoldable pub Environment-discrete : Discrete Environment
Environment-discrete = hlevel

pub record PublicConfig : Type 0 where
  pub environment : Environment
  pub stellar_network_passphrase : Option String
  pub stellar_rpc_url : Option String
  pub entity_registry_contract_id : Option String
  pub credential_registry_contract_id : Option String
  pub stellar_explorer_base : Option String

abbrev pub is_demo : PublicConfig → Bool
is_demo config = elim config.environment [ demo ↦ true | other ↦ false ]

abbrev pub on_testnet : PublicConfig → Bool
on_testnet config = elim config.environment [ testnet ↦ true | other ↦ false ]

-- `/^S[A-Z2-7]{55}$/.test(s)`
unfoldable pub is_stellar_secret : String → Bool
is_stellar_secret s = fits ((λ c. nat_beq c 83) ∷ repeat 55 is_base32) (codes s)

unfoldable pub names_secret : String → Bool
names_secret key =
    upper_contains key "SECRET"
    || upper_contains key "_KEY"
    || upper_contains key "SEED"
    || upper_contains key "PRIVATE"

abbrev assert_public_value : String → String → Result (Unit {0})
assert_public_value key value = do
  require (not (names_secret key)) invalid_input
  require (value == "" || not (is_stellar_secret (trim value))) invalid_input

-- One round of the loop of `assertNoPublicSecrets`.
unfoldable pub assert_public_entry : String → String → Result (Unit {0})
unfolding is_stellar_secret names_secret
assert_public_entry key value =
    if starts_with_text key "NEXT_PUBLIC_" then assert_public_value key value else ok tt

unfoldable pub assert_no_public_secrets : JsMap String → Result (Unit {0})
unfolding assert_public_entry
assert_no_public_secrets [] = ok tt
assert_no_public_secrets ((key, value) ∷ env) = do
  assert_public_entry key value
  assert_no_public_secrets env

-- The text without the white space around it, none where nothing is left.
abbrev pub trimmed : String → Option String
trimmed value = if trim value == "" then none else some (trim value)

unfoldable pub read : JsMap String → String → Option String
unfolding trim
read env key = elim (get key env) [ none ↦ none | some value ↦ trimmed value ]

abbrev environment_named : String → Option Environment
environment_named name =
    if name == "demo"
    then some demo
    else if name == "testnet"
    then some testnet
    else if name == "mainnet"
    then some mainnet
    else none

abbrev pub or_text : Option String → String → String
or_text none fallback = fallback
or_text (some s) fallback = s

abbrev pub config_of : JsMap String → Environment → PublicConfig
config_of env environment = record {
  environment = environment;
  stellar_network_passphrase = read env "NEXT_PUBLIC_STELLAR_NETWORK_PASSPHRASE";
  stellar_rpc_url = read env "NEXT_PUBLIC_STELLAR_RPC_URL";
  entity_registry_contract_id = read env "NEXT_PUBLIC_ENTITY_REGISTRY_CONTRACT_ID";
  credential_registry_contract_id = read env "NEXT_PUBLIC_CREDENTIAL_REGISTRY_CONTRACT_ID";
  stellar_explorer_base = read env "NEXT_PUBLIC_STELLAR_EXPLORER_BASE";
}

abbrev pub expected_passphrase : Environment → String
expected_passphrase demo = ""
expected_passphrase testnet = "Test SDF Network ; September 2015"
expected_passphrase mainnet = "Public Global Stellar Network ; September 2015"

abbrev is_none : Option String → Bool
is_none none = true
is_none (some s) = false

-- The checks of `getPublicConfig` after the environment is known. A value that `read` gives is never empty.
unfoldable pub checked_config : PublicConfig → Result PublicConfig
unfolding Environment-discrete
checked_config config = elim config.environment [
  | demo ↦ do
    require (is_none config.stellar_network_passphrase) invalid_input
    require (is_none config.stellar_rpc_url) invalid_input
    require (is_none config.entity_registry_contract_id) invalid_input
    require (is_none config.credential_registry_contract_id) invalid_input
    require (is_none config.stellar_explorer_base) invalid_input
    ok config
  | other ↦ do
    passphrase ← or_fail config.stellar_network_passphrase invalid_input
    url ← or_fail config.stellar_rpc_url invalid_input
    require (passphrase == expected_passphrase config.environment) invalid_input
    ok config
]

abbrev pub environment_of : JsMap String → Result Environment
environment_of env =
    or_fail (environment_named (or_text (read env "NEXT_PUBLIC_CULTURAGO_ENV") "demo"))
      invalid_input

unfoldable pub get_public_config : JsMap String → Result PublicConfig
unfolding assert_no_public_secrets read checked_config
get_public_config env = do
  assert_no_public_secrets env
  environment ← environment_of env
  checked_config (config_of env environment)

-- `encodeURIComponent` is an argument.
unfoldable pub get_database_url : (String → String) → JsMap String → Result String
unfolding read
get_database_url encode env = elim (read env "DATABASE_URL") [
  | some url ↦ ok url
  | none ↦ do
    host ← or_fail (read env "DB_HOST") invalid_input
    user ← or_fail (read env "DB_USER") invalid_input
    password ← or_fail (read env "DB_PASSWORD") invalid_input
    let port = or_text (read env "DB_PORT") "5432"
    let name = or_text (read env "DB_NAME") user
    ok (
        "postgres://"
        ++ encode user
        ++ ":"
        ++ encode password
        ++ "@"
        ++ host
        ++ ":"
        ++ port
        ++ "/"
        ++ encode name)
]

unfoldable pub is_persistence_configured : JsMap String → Bool
unfolding read
is_persistence_configured env =
    is_some (read env "DATABASE_URL")
    || (is_some (read env "DB_HOST")
        && is_some (read env "DB_USER")
        && is_some (read env "DB_PASSWORD"))

abbrev explorer_url : String → String → PublicConfig → Option String
explorer_url kind id config = elim config.environment [
  | demo ↦ none
  | other ↦ elim config.stellar_explorer_base [
    | none ↦ none
    | some base ↦ some (base ++ "/" ++ kind ++ "/" ++ id)
  ]
]

unfoldable pub explorer_url_for_tx : String → JsMap String → Result (Option String)
unfolding get_public_config
explorer_url_for_tx tx_hash env = do
  config ← get_public_config env
  ok (explorer_url "tx" tx_hash config)

unfoldable pub explorer_url_for_contract : String → JsMap String → Result (Option String)
unfolding get_public_config
explorer_url_for_contract contract_id env = do
  config ← get_public_config env
  ok (explorer_url "contract" contract_id config)
