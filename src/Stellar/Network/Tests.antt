-- ===== src/Stellar/Network/Tests.antt =====
-- The configuration of the testnet at a concrete environment.
use culturago_stellar.Base.{
  ℕ, ◌≡◌, ◌≤◌, refl, false, Option, none, some, String, [], ◌∷◌, ok, JsMap, get, trim, fits,
  starts_with_text, upper_contains, to_lower_case, split_commas,
}
use culturago_stellar.Config.Env.{
  testnet, PublicConfig, is_demo, expected_passphrase, get_public_config, checked_config, read,
  assert_no_public_secrets, assert_public_entry, names_secret,
}
use culturago_stellar.Stellar.Transport.{Attempt, done}
use culturago_stellar.Stellar.Network.{
  NetworkConfig, Manifest, get_stellar_network_config, network_config_of, assert_roles,
  assert_fee_payer, assert_not_admin, assert_not_fixture, positive, env_allowlist,
  manifest_allowlist, distinct, without_prefix,
}
use culturago_stellar.Stellar.Network.Roles.{IsSeparated, get_stellar_network_config-IsSeparated}

abbrev address_of_secret : String → Attempt String
address_of_secret s = done "GPAYER"

abbrev no_number : String → Option ℕ
no_number s = none

abbrev manifest : Manifest
manifest = record { environment = some "testnet"; wasm_hash_allowlist = "0xAB" ∷ [] }

abbrev env : JsMap String
env =
    ("NEXT_PUBLIC_CULTURAGO_ENV", "testnet")
    ∷ ("NEXT_PUBLIC_STELLAR_NETWORK_PASSPHRASE", "Test SDF Network ; September 2015")
    ∷ ("NEXT_PUBLIC_STELLAR_RPC_URL", "https://rpc.example.org")
    ∷ ("NEXT_PUBLIC_ENTITY_REGISTRY_CONTRACT_ID", "CENTITY")
    ∷ ("NEXT_PUBLIC_CREDENTIAL_REGISTRY_CONTRACT_ID", "CCREDENTIAL")
    ∷ ("STELLAR_SMART_WALLET_WASM_ALLOWLIST", " AB , 0xcd,")
    ∷ ("STELLAR_FEEPAYER_ADDRESS", "GPAYER")
    ∷ ("STELLAR_FEEPAYER_SECRET", "SPAYER")
    ∷ ("STELLAR_TESTNET_ADMIN_ADDRESS", "GADMIN")
    ∷ []

abbrev config : NetworkConfig
config = record {
  environment = testnet;
  network_passphrase = expected_passphrase testnet;
  rpc_url = "https://rpc.example.org";
  entity_registry_contract_id = "CENTITY";
  credential_registry_contract_id = "CCREDENTIAL";
  explorer_base = none;
  smart_wallet_wasm_allowlist = "ab" ∷ "cd" ∷ [];
  fee_payer_address = some "GPAYER";
  fee_payer_secret = some "SPAYER";
  max_fee = 500000;
  relayer_daily_budget = 500;
}

configured : get_stellar_network_config address_of_secret no_number manifest env ≡ done config
unfolding get_stellar_network_config network_config_of get_public_config checked_config read
    assert_no_public_secrets assert_public_entry names_secret get trim starts_with_text
    upper_contains fits assert_roles assert_fee_payer assert_not_admin assert_not_fixture positive
    env_allowlist manifest_allowlist distinct without_prefix to_lower_case split_commas
configured = refl

get_stellar_network_config-IsSeparated_example :
    (public : PublicConfig) × (get_public_config env ≡ ok public)
    × (is_demo public ≡ false)
    × (public.stellar_network_passphrase ≡ some config.network_passphrase)
    × (1 ≤ 500000)
    × (1 ≤ 500)
    × ((payer : String)
        → config.fee_payer_address ≡ some payer
        → IsSeparated address_of_secret env public payer)
get_stellar_network_config-IsSeparated_example =
    get_stellar_network_config-IsSeparated address_of_secret no_number manifest env config
      configured
