-- ===== src/Auth/Identity/Wallets.antt =====
-- The wallets and their claims of src/infrastructure/auth/InMemoryIdentityStore.ts. The identifiers and the clock are
-- arguments.
use culturago_stellar.Base.{ℕ, Option, none, some, String, ◌==◌, text_eq, get, set, values, find}
use culturago_stellar.Auth.Identity.{
  Identities, SmartWalletClaim, WalletRecord, WalletType, WalletStatus,
}

pub record NewClaim : Type 0 where
  pub account_id : String
  pub entity_id : String
  pub contract_id : String
  pub key_id : Option String
  pub wallet_wasm_hash : Option String
  pub network : Option String
  pub deploy_tx_hash : Option String
  pub deployed_at : Option ℕ

pub record NewWallet : Type 0 where
  pub entity_id : String
  pub wallet_address : String
  pub wallet_type : WalletType
  pub wallet_status : WalletStatus
  pub claimed_at : Option ℕ

abbrev or_now : ℕ → Option ℕ → ℕ
or_now now none = now
or_now now (some t) = t

abbrev or_testnet : Option String → String
or_testnet none = "testnet"
or_testnet (some network) = network

abbrev pub claim_of : String → ℕ → NewClaim → SmartWalletClaim
claim_of id now c = record {
  id = id;
  account_id = c.account_id;
  entity_id = c.entity_id;
  contract_id = c.contract_id;
  key_id = c.key_id;
  wallet_wasm_hash = c.wallet_wasm_hash;
  network = or_testnet c.network;
  deploy_tx_hash = c.deploy_tx_hash;
  deployed_at = some (or_now now c.deployed_at);
  created_at = now;
  updated_at = now;
}

-- An earlier claim of the same contract is overwritten.
unfoldable pub save_smart_wallet_claim : String → ℕ → NewClaim → Identities → Identities
save_smart_wallet_claim id now c s = record s {
  smart_wallet_claims = set c.contract_id (claim_of id now c) s.smart_wallet_claims;
}

unfoldable pub get_smart_wallet_claim_by_account : String → Identities → Option SmartWalletClaim
get_smart_wallet_claim_by_account account_id s =
    find (λ c. c.account_id == account_id) (values s.smart_wallet_claims)

abbrev pub wallet_of : String → ℕ → NewWallet → WalletRecord
wallet_of id now w = record {
  id = id;
  entity_id = w.entity_id;
  wallet_address = some w.wallet_address;
  wallet_type = w.wallet_type;
  wallet_status = w.wallet_status;
  claimed_at = some (or_now now w.claimed_at);
  created_at = now;
  updated_at = now;
}

abbrev pub updated_wallet : ℕ → NewWallet → WalletRecord → WalletRecord
updated_wallet now w existing = record existing {
  wallet_address = some w.wallet_address;
  wallet_type = w.wallet_type;
  wallet_status = w.wallet_status;
  claimed_at = some (or_now now w.claimed_at);
  updated_at = now;
}

abbrev pub upserted : String → ℕ → NewWallet → Option WalletRecord → WalletRecord
upserted id now w none = wallet_of id now w
upserted id now w (some existing) = updated_wallet now w existing

unfoldable pub upsert_wallet : String → ℕ → NewWallet → Identities → Identities
upsert_wallet id now w s = record s {
  wallets = set w.entity_id (upserted id now w (get w.entity_id s.wallets)) s.wallets;
}

unfoldable pub get_wallet_by_entity : String → Identities → Option WalletRecord
get_wallet_by_entity entity_id s = get entity_id s.wallets
