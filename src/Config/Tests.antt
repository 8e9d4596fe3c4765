-- ===== src/Config/Tests.antt =====
-- The configuration at concrete environments.
use culturago_stellar.Base.{
  ◌≡◌, refl, none, some, String, [], ◌∷◌, ok, err, invalid_input, JsMap, get, trim,
  starts_with_text, upper_contains, fits,
}
use culturago_stellar.Config.Env.{
  testnet, PublicConfig, expected_passphrase, get_public_config, checked_config, read,
  assert_no_public_secrets, assert_public_entry, names_secret,
}
use culturago_stellar.Config.Env.Gate.{Harmless, Unmixed, get_public_config-Harmless}

abbrev testnet_env : JsMap String
testnet_env =
    ("NEXT_PUBLIC_CULTURAGO_ENV", " testnet ")
    ∷ ("NEXT_PUBLIC_STELLAR_NETWORK_PASSPHRASE", "Test SDF Network ; September 2015")
    ∷ ("NEXT_PUBLIC_STELLAR_RPC_URL", "https://rpc.example.org")
    ∷ ("STELLAR_FEEPAYER_SECRET", "S")
    ∷ []

abbrev testnet_config : PublicConfig
testnet_config = record {
  environment = testnet;
  stellar_network_passphrase = some (expected_passphrase testnet);
  stellar_rpc_url = some "https://rpc.example.org";
  entity_registry_contract_id = none;
  credential_registry_contract_id = none;
  stellar_explorer_base = none;
}

configured : get_public_config testnet_env ≡ ok testnet_config
unfolding get_public_config checked_config read assert_no_public_secrets assert_public_entry
    names_secret get trim starts_with_text upper_contains fits
configured = refl

leaking : get_public_config (("NEXT_PUBLIC_API_KEY", "k") ∷ []) ≡ err invalid_input
unfolding get_public_config checked_config read assert_no_public_secrets assert_public_entry
    names_secret get trim starts_with_text upper_contains
leaking = refl

get_public_config-Harmless_example : Harmless testnet_env × Unmixed testnet_config
get_public_config-Harmless_example =
    get_public_config-Harmless testnet_env testnet_config configured
