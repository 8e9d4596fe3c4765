-- ===== src/Auth/Identity.antt =====
-- src/infrastructure/auth/InMemoryIdentityStore.ts: the accounts, roles, issuer scopes, challenges and
-- sessions. The clock and the random identifiers are arguments, and SHA-256 is a parameter.
pub mod Wallets
pub mod Passkeys
use culturago_stellar.Base.{
  ℕ, false, ◌||◌, not, Option, none, some, String, List, [], ◌∷◌, ◌++◌, Result, ok, err, Eq,
  enum_eq, ◌==◌, text_eq, includes, if◌then◌else◌, leb, JsMap, get, set, has, values, find, select,
  is_some, already_exists, not_found,
}

pub data AccountStatus : Type 0 where
  pending_claim active suspended closed : AccountStatus

unfoldable pub AccountStatus-discrete : Discrete AccountStatus
AccountStatus-discrete = hlevel

instance abbrev pub account_status_eq : Eq AccountStatus
account_status_eq = enum_eq AccountStatus-discrete

pub data ChallengePurpose : Type 0 where
  register_passkey authenticate claim_account recovery sign_operation : ChallengePurpose

unfoldable pub ChallengePurpose-discrete : Discrete ChallengePurpose
ChallengePurpose-discrete = hlevel

instance abbrev pub challenge_purpose_eq : Eq ChallengePurpose
challenge_purpose_eq = enum_eq ChallengePurpose-discrete

pub record Account : Type 0 where
  pub id : String
  pub status : AccountStatus
  pub person_entity_id : Option String
  pub wallet_contract_address : Option String
  pub created_at : ℕ

pub record Challenge : Type 0 where
  pub id : String
  pub challenge : String
  pub purpose : ChallengePurpose
  pub account_id : Option String
  pub expires_at : ℕ
  pub consumed_at : Option ℕ

pub record Session : Type 0 where
  pub id : String
  pub session_token : String
  pub account_id : String
  pub idle_expires_at : ℕ
  pub absolute_expires_at : ℕ
  pub rotated_from : Option String
  pub revoked_at : Option ℕ

pub record Passkey : Type 0 where
  pub id : String
  pub account_id : String
  pub credential_id : String
  pub public_key : String
  pub sign_counter : ℕ
  pub display_name : String
  pub transports : Option (List String)
  pub last_used_at : Option ℕ
  pub revoked_at : Option ℕ
  pub revoked_reason : Option String
  pub created_at : ℕ

pub record SmartWalletClaim : Type 0 where
  pub id : String
  pub account_id : String
  pub entity_id : String
  pub contract_id : String
  pub key_id : Option String
  pub wallet_wasm_hash : Option String
  pub network : String
  pub deploy_tx_hash : Option String
  pub deployed_at : Option ℕ
  pub created_at : ℕ
  pub updated_at : ℕ

pub data WalletType : Type 0 where
  no_wallet stellar_classic smart_wallet passkey : WalletType

pub data WalletStatus : Type 0 where
  no_status reserved claimed disabled : WalletStatus

pub record WalletRecord : Type 0 where
  pub id : String
  pub entity_id : String
  pub wallet_address : Option String
  pub wallet_type : WalletType
  pub wallet_status : WalletStatus
  pub claimed_at : Option ℕ
  pub created_at : ℕ
  pub updated_at : ℕ

pub record Identities : Type 0 where
  pub accounts : JsMap Account
  pub roles : JsMap (List String)
  pub issuer_scopes : JsMap (List String)
  pub challenges : JsMap Challenge
  pub passkeys : JsMap Passkey
  pub sessions : JsMap Session
  pub smart_wallet_claims : JsMap SmartWalletClaim
  pub wallets : JsMap WalletRecord

-- A set of texts in the order of insertion: `set.add` and `set.delete`.
abbrev pub add : String → List String → List String
add x xs = if includes xs x then xs else xs ++ x ∷ []

abbrev pub elements : Option (List String) → List String
elements none = []
elements (some xs) = xs

unfoldable pub find_account_by_person : String → Identities → Option Account
find_account_by_person person s =
    find (λ a. elim a.person_entity_id [ none ↦ false | some p ↦ p == person ]) (values s.accounts)

unfoldable pub create_account : ℕ → Account → Identities → Result Identities
create_account now account s =
    if has account.id s.accounts
    then err already_exists
    else ok
        (record s { accounts = set account.id (record account { created_at = now }) s.accounts })

unfoldable pub update_account_status : String → AccountStatus → Identities → Result Identities
update_account_status id status s = elim (get id s.accounts) [
  | none ↦ err not_found
  | some account ↦
      ok (record s { accounts = set id (record account { status = status }) s.accounts })
]

unfoldable pub update_account_wallet : String → String → Identities → Result Identities
update_account_wallet id address s = elim (get id s.accounts) [
  | none ↦ err not_found
  | some account ↦ ok (record s {
    accounts = set id (record account { wallet_contract_address = some address }) s.accounts;
  })
]

unfoldable pub grant_role : String → String → Identities → Identities
grant_role id role s = record s { roles = set id (add role (elements (get id s.roles))) s.roles }

unfoldable pub get_roles : String → Identities → List String
get_roles id s = elements (get id s.roles)

unfoldable pub link_issuer_operator : String → String → Identities → Identities
link_issuer_operator issuer operator s = record s {
  issuer_scopes =
      set operator (add issuer (elements (get operator s.issuer_scopes))) s.issuer_scopes;
}

unfoldable pub unlink_issuer_operator : String → String → Identities → Identities
unlink_issuer_operator issuer operator s = elim (get operator s.issuer_scopes) [
  | none ↦ s
  | some scopes ↦ record s {
    issuer_scopes = set operator (select (λ x. not (x == issuer)) scopes) s.issuer_scopes;
  }
]

unfoldable pub get_issuer_scopes : String → Identities → List String
get_issuer_scopes operator s = elements (get operator s.issuer_scopes)

module _ (sha256 : String → String) where
  unfoldable pub create_challenge : Challenge → Identities → Result Identities
  create_challenge c s =
      if has (sha256 c.challenge) s.challenges
      then err already_exists
      else ok (record s {
        challenges = set (sha256 c.challenge) (record c { consumed_at = none }) s.challenges;
      })

  unfoldable pub create_session : Session → Identities → Result Identities
  create_session session s =
      if has (sha256 session.session_token) s.sessions
      then err already_exists
      else ok (record s { sessions = set (sha256 session.session_token) session s.sessions })

-- The challenge with the time of its use.
abbrev pub used : ℕ → Challenge → Challenge
used now c = record c { consumed_at = some now }

unfoldable pub take_challenge : ℕ → String → Challenge → Identities → Identities × Option Challenge
take_challenge now digest c s =
    if is_some c.consumed_at || leb c.expires_at now
    then (s, none)
    else (record s { challenges = set digest (used now c) s.challenges }, some (used now c))

unfoldable pub consume_challenge : ℕ → String → Identities → Identities × Option Challenge
unfolding take_challenge
consume_challenge now digest s = elim (get digest s.challenges) [
  | none ↦ (s, none)
  | some c ↦ take_challenge now digest c s
]

unfoldable pub get_session : String → Identities → Option Session
get_session digest s = get digest s.sessions

abbrev pub revoked : ℕ → Session → Session
revoked now session = record session { revoked_at = some now }

abbrev pub revoke_at : ℕ → String → JsMap Session → JsMap Session
revoke_at now digest m = elim (get digest m) [
  | none ↦ m
  | some session ↦ set digest (revoked now session) m
]

unfoldable pub rotate_session : (String → String) → ℕ → String → Session → Identities → Identities
rotate_session sha256 now old_digest next s = record s {
  sessions =
      set (sha256 next.session_token) (record next { rotated_from = some old_digest })
        (revoke_at now old_digest s.sessions);
}

unfoldable pub revoke_session : ℕ → String → Identities → Identities
revoke_session now digest s = record s { sessions = revoke_at now digest s.sessions }

abbrev pub revoke_of : ℕ → String → JsMap Session → JsMap Session
revoke_of now account [] = []
revoke_of now account ((k, session) ∷ m) =
    let rest = revoke_of now account m in
    if session.account_id == account then (k, revoked now session) ∷ rest else (k, session) ∷ rest

unfoldable pub revoke_all_sessions : ℕ → String → Identities → Identities
revoke_all_sessions now account s = record s { sessions = revoke_of now account s.sessions }
