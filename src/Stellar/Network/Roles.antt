-- ===== src/Stellar/Network/Roles.antt =====
-- What a configuration of a network promises about its accounts.
use culturago_stellar.Base.{
  ℕ, ◌≤◌, ◌≡◌, ◌≢◌, refl, ap, subst, sym, ◌∙◌, Bool, true, false, not, Option, none, some, String,
  Result, ok, err, or_fail, require, invalid_input, ◌==◌, text_eq, JsMap, arith, eq_iff,
}
use culturago_stellar.Config.Env.{PublicConfig, is_demo, get_public_config, read}
use culturago_stellar.Stellar.Transport.{Attempt, threw, done, attempt_of, HoldsOf}
use culturago_stellar.Stellar.Network.{
  NetworkConfig, Manifest, ◌>>=◌, ◌>>◌, assert_fee_payer, assert_not_admin, assert_not_fixture,
  assert_roles, positive, network_config_of, get_stellar_network_config, allows_mutations,
}

-- Both steps of a chain that succeeded did.
bind-eq-done :
    {A B : Type 0} (first : Attempt A) (next : A → Attempt B) (b : B)
    → (first >>= next) ≡ done b
    → (a : A) × (first ≡ done a) × (next a ≡ done b)
bind-eq-done (done a) next b h = (a, refl, h)
bind-eq-done (threw f) next b h = cc

attempt_of-done : {A : Type 0} (r : Result A) (a : A) → attempt_of r ≡ done a → r ≡ ok a
attempt_of-done (ok b) a h = cc h
attempt_of-done (err code) a h = cc

not-true : (b : Bool) → not b ≡ true → b ≡ false
not-true true h = cc
not-true false h = refl

required : (b : Bool) → attempt_of (require b invalid_input) ≡ done tt → b ≡ true
required true h = refl
required false h = cc

-- What holds of the value, where there is one.
record Yields {A : Type 0} (Q : A → Type 0) (m : Attempt A) : Type 0 where
  pub value : HoldsOf Q m

Yields-bind :
    {A B : Type 0} {Q : B → Type 0} (first : Attempt A) {next : A → Attempt B}
    → ((a : A) → first ≡ done a → Yields Q (next a))
    → Yields Q (first >>= next)
Yields-bind (done a) k = k a refl
Yields-bind (threw f) k = record { value = tt }

or_fail-done :
    {A : Type 0} (o : Option A) (a : A) → attempt_of (or_fail o invalid_input) ≡ done a → o ≡ some a
or_fail-done none a h = cc
or_fail-done (some b) a h = cc h

positive-done :
    (to_number : String → Option ℕ) (env : JsMap String) (key : String) (fallback n : ℕ)
    → positive to_number env key fallback ≡ done n
    → 1 ≤ n
unfolding positive
positive-done to_number env key fallback n h = ground arith

module _ (address_of_secret : String → Attempt String) where
  assert_fee_payer-done :
      (address secret : String)
      → assert_fee_payer address_of_secret (some address) (some secret) ≡ done tt
      → address_of_secret secret ≡ done address
  unfolding assert_fee_payer
  assert_fee_payer-done address secret h =
      let (derived, found, same) =
        bind-eq-done (address_of_secret secret)
          (λ d. attempt_of (require (d == address) invalid_input)) tt h in
      found ∙ ap done ((eq_iff derived address).0 (required (derived == address) same))

  assert_not_fixture-done :
      (address secret : String)
      → assert_not_fixture address_of_secret false (some address) (some secret) ≡ done tt
      → address_of_secret secret ≢ done address
  unfolding assert_not_fixture
  assert_not_fixture-done address secret h e =
      let (fixture, found, differs) =
        bind-eq-done (address_of_secret secret)
          (λ f. attempt_of (require (not (address == f)) invalid_input)) tt h in
      let apart = required (not (address == fixture)) differs in
      let same : fixture ≡ address = cc (sym found ∙ e) in ground (arith, eq_iff address fixture)

  assert_not_admin-done :
      (address admin : String)
      → assert_not_admin false (some address) (some admin) ≡ done tt
      → address ≢ admin
  unfolding assert_not_admin
  assert_not_admin-done address admin h e =
      let apart = required (not (address == admin)) h in ground (arith, eq_iff address admin)

  -- What the configuration promises of the payer of the fees.
  pub record IsSeparated (env : JsMap String) (config : PublicConfig) (payer : String)
      : Type 0 where
    pub signs_as_payer :
        (secret : String)
        → read env "STELLAR_FEEPAYER_SECRET" ≡ some secret
        → address_of_secret secret ≡ done payer
    pub is_no_admin :
        (admin : String)
        → allows_mutations env config ≡ false
        → read env "STELLAR_TESTNET_ADMIN_ADDRESS" ≡ some admin
        → payer ≢ admin
    pub is_no_fixture :
        (secret : String)
        → allows_mutations env config ≡ false
        → read env "STELLAR_TESTNET_FIXTURE_SECRET" ≡ some secret
        → address_of_secret secret ≢ done payer

  assert_roles-IsSeparated :
      (env : JsMap String) (config : PublicConfig) (payer : String)
      → assert_roles address_of_secret env config ≡ done tt
      → read env "STELLAR_FEEPAYER_ADDRESS" ≡ some payer
      → IsSeparated env config payer
  unfolding assert_roles
  assert_roles-IsSeparated env config payer h given =
      let fee_payer = read env "STELLAR_FEEPAYER_ADDRESS" in
      let fee_secret = read env "STELLAR_FEEPAYER_SECRET" in
      let admin_address = read env "STELLAR_TESTNET_ADMIN_ADDRESS" in
      let fixture_secret = read env "STELLAR_TESTNET_FIXTURE_SECRET" in
      let allowed = allows_mutations env config in
      let fixture = assert_not_fixture address_of_secret allowed fee_payer fixture_secret in
      let admin = assert_not_admin allowed fee_payer admin_address in
      let (_, pays, rest) =
        bind-eq-done (assert_fee_payer address_of_secret fee_payer fee_secret)
          (λ _. admin >> fixture) tt h in
      let (_, no_admin, no_fixture) = bind-eq-done admin (λ _. fixture) tt rest in
      record {
        signs_as_payer = λ secret e. assert_fee_payer-done payer secret (rw (given, e) at pays);
        is_no_admin = λ a off e. assert_not_admin-done payer a (rw (off, given, e) at no_admin);
        is_no_fixture =
            λ secret off e. assert_not_fixture-done payer secret (rw (off, given, e) at no_fixture);
      }

  module _ (to_number : String → Option ℕ) (manifest : Manifest) where
    -- What a configuration of a network has from the public one.
    abbrev Derived : JsMap String → PublicConfig → NetworkConfig → Type 0
    Derived env config c =
        (assert_roles address_of_secret env config ≡ done tt)
        × (config.stellar_network_passphrase ≡ some c.network_passphrase)
        × (c.environment ≡ config.environment)
        × (c.fee_payer_address ≡ read env "STELLAR_FEEPAYER_ADDRESS")
        × (1 ≤ c.max_fee)
        × (1 ≤ c.relayer_daily_budget)

    network_config_of-Derived :
        (env : JsMap String) (config : PublicConfig)
        → Yields
            (Derived env config)
            (network_config_of address_of_secret to_number manifest env config)
    unfolding network_config_of
    network_config_of-Derived env config =
        let field = λ (o : Option String). attempt_of (or_fail o invalid_input) in
        let limit = positive to_number env in
        Yields-bind (field config.stellar_network_passphrase) λ passphrase found.
          Yields-bind (field config.stellar_rpc_url) λ url _.
            Yields-bind (field config.entity_registry_contract_id) λ entity _.
              Yields-bind (field config.credential_registry_contract_id) λ credential _.
                Yields-bind (assert_roles address_of_secret env config) λ _ roles.
                  Yields-bind (limit "STELLAR_MAX_FEE_STROKES" 500000) λ fee one.
                    Yields-bind (limit "STELLAR_RELAYER_DAILY_BUDGET" 500) λ budget more. record {
                      value = (
                        roles,
                        or_fail-done config.stellar_network_passphrase passphrase found,
                        refl,
                        refl,
                        positive-done to_number env "STELLAR_MAX_FEE_STROKES" 500000 fee one,
                        positive-done to_number env "STELLAR_RELAYER_DAILY_BUDGET" 500 budget more,
                      );
                    }

    HoldsOf-done :
        {A : Type 0} (Q : A → Type 0) (m : Attempt A) (a : A) → HoldsOf Q m → m ≡ done a → Q a
    HoldsOf-done Q m a h e = subst (HoldsOf Q) e h

    -- A configuration of the network comes from a public configuration that is not the demo's, with its
    -- passphrase; its limits are positive; and a payer of the fees is the account of the payer's secret, where
    -- one is set, and, unless the mutations of the testnet are allowed, neither the admin's account nor
    -- that of the fixtures' secret.
    pub get_stellar_network_config-IsSeparated :
        (env : JsMap String) (c : NetworkConfig)
        → get_stellar_network_config address_of_secret to_number manifest env ≡ done c
        → (config : PublicConfig) × (get_public_config env ≡ ok config)
          × (is_demo config ≡ false)
          × (config.stellar_network_passphrase ≡ some c.network_passphrase)
          × (1 ≤ c.max_fee)
          × (1 ≤ c.relayer_daily_budget)
          × ((payer : String) → c.fee_payer_address ≡ some payer → IsSeparated env config payer)
    unfolding get_stellar_network_config
    get_stellar_network_config-IsSeparated env c h =
        let network = network_config_of address_of_secret to_number manifest env in
        let checked =
          λ (config : PublicConfig). attempt_of (require (not (is_demo config)) invalid_input) in
        let (config, loaded, rest) =
          bind-eq-done (attempt_of (get_public_config env)) (λ p. checked p >> network p) c h in
        let (_, real, made) = bind-eq-done (checked config) (λ _. network config) c rest in
        let (roles, passphrase, _, payer, fee, budget) =
          HoldsOf-done (Derived env config) (network config) c
            (network_config_of-Derived env config).value made in
        let live = required (not (is_demo config)) real in
        (
          config,
          attempt_of-done (get_public_config env) config loaded,
          not-true (is_demo config) live,
          passphrase,
          fee,
          budget,
          λ p given. assert_roles-IsSeparated env config p roles (sym payer ∙ given),
        )
