-- ===== src/Config/Env/Gate.antt =====
-- What a configuration that was let through has.
use culturago_stellar.Base.{
  ◌≡◌, ◌⊎◌, inl, inr, true, false, none, some, is_some, String, [], ◌∷◌, ok, ◌>>=◌, then-eq-ok,
  bind-eq-ok, Option-cases, arith, JsMap, starts_with_text, trim, text_eq, eq_iff,
}
use culturago_stellar.Config.Env.{
  demo, PublicConfig, expected_passphrase, is_stellar_secret, names_secret, assert_public_entry,
  assert_no_public_secrets, checked_config, get_public_config, environment_of, config_of,
}

-- A public variable neither names a secret nor holds a secret seed.
abbrev pub Harmless : JsMap String → Type 0
Harmless [] = Unit
Harmless ((key, value) ∷ env) =
    (starts_with_text key "NEXT_PUBLIC_" ≡ true
      → (names_secret key ≡ false) × ((value ≡ "") ⊎ (is_stellar_secret (trim value) ≡ false)))
    × Harmless env

-- The settings of one environment only.
abbrev pub Unmixed : PublicConfig → Type 0
Unmixed config = elim config.environment [
  | demo ↦
      (config.stellar_network_passphrase ≡ none)
      × (config.stellar_rpc_url ≡ none)
      × (config.entity_registry_contract_id ≡ none)
      × (config.credential_registry_contract_id ≡ none)
      × (config.stellar_explorer_base ≡ none)
  | other ↦
      (config.stellar_network_passphrase ≡ some (expected_passphrase config.environment))
      × (is_some config.stellar_rpc_url ≡ true)
]

entry_Harmless :
    (key value : String)
    → assert_public_entry key value ≡ ok tt
    → starts_with_text key "NEXT_PUBLIC_" ≡ true
    → (names_secret key ≡ false) × ((value ≡ "") ⊎ (is_stellar_secret (trim value) ≡ false))
unfolding assert_public_entry
entry_Harmless key value h public = ground (arith, eq_iff value "")

assert_no_public_secrets-Harmless :
    (env : JsMap String) → assert_no_public_secrets env ≡ ok tt → Harmless env
unfolding assert_no_public_secrets
assert_no_public_secrets-Harmless [] h = tt
assert_no_public_secrets-Harmless ((key, value) ∷ env) h =
    let (entry, others) =
      then-eq-ok (assert_public_entry key value) (assert_no_public_secrets env) tt h in
    (entry_Harmless key value entry, assert_no_public_secrets-Harmless env others)

checked_config-Unmixed : (config c : PublicConfig) → checked_config config ≡ ok c → Unmixed c
unfolding checked_config
checked_config-Unmixed config c h = elim (Option-cases config.stellar_network_passphrase) [
  | inl missing ↦ ground arith
  | inr (p, found) ↦ ground (arith, eq_iff p (expected_passphrase config.environment))
]

-- The server starts only where no public variable of the process names a secret or holds a secret seed of
-- Stellar, and with the settings of one environment: none of the network in a demo, and elsewhere the
-- passphrase of that network and an RPC URL.
pub get_public_config-Harmless :
    (env : JsMap String) (config : PublicConfig)
    → get_public_config env ≡ ok config
    → Harmless env × Unmixed config
unfolding get_public_config
get_public_config-Harmless env config h =
    let (clean, rest) =
      then-eq-ok (assert_no_public_secrets env)
        (environment_of env >>= λ e. checked_config (config_of env e)) config h in
    let (environment, named, checked) =
      bind-eq-ok (environment_of env) (λ e. checked_config (config_of env e)) config rest in
    (
      assert_no_public_secrets-Harmless env clean,
      checked_config-Unmixed (config_of env environment) config checked,
    )
