-- ===== src/Auth/Tests.antt =====
-- The theorems on codes and sessions at concrete inputs. The digest of a text is the text itself.
use culturago_stellar.Base.{
  ◌≡◌, ◌≢◌, ◌≤◌, ◌<◌, refl, true, none, some, String, [], ◌∷◌, ok, err, arith, eq_iff, get, set,
  unauthorized,
}
use culturago_stellar.Auth.Identity.{
  Identities, Account, Challenge, Session, pending_claim, active, claim_account, consume_challenge,
  take_challenge, update_account_status,
}
use culturago_stellar.Auth.Claims.{claim, recover}
use culturago_stellar.Auth.Sessions.{default_config, validate, rotate, next_session}
use culturago_stellar.Auth.SingleUse.{status_of, own_key, claim-once}
use culturago_stellar.Auth.Lifetime.{rotate-replaces}

abbrev plain : String → String
plain token = token

abbrev account : Account
account = record {
  id = "a1";
  status = pending_claim;
  person_entity_id = none;
  wallet_contract_address = none;
  created_at = 0;
}

abbrev code : Challenge
code = record {
  id = "c1";
  challenge = "code";
  purpose = claim_account;
  account_id = some "a1";
  expires_at = 500;
  consumed_at = none;
}

abbrev session : Session
session = record {
  id = "s1";
  session_token = "old";
  account_id = "a1";
  idle_expires_at = 900;
  absolute_expires_at = 5000;
  rotated_from = none;
  revoked_at = none;
}

abbrev identities : Identities
identities = record {
  accounts = ("a1", account) ∷ [];
  roles = [];
  issuer_scopes = [];
  challenges = ("code", code) ∷ [];
  sessions = ("old", session) ∷ [];
  passkeys = [];
  smart_wallet_claims = [];
  wallets = [];
}

abbrev claimed : Identities
claimed = record identities {
  accounts = ("a1", record account { status = active }) ∷ [];
  challenges = ("code", record code { consumed_at = some 100 }) ∷ [];
}

claiming : claim plain 100 "code" identities ≡ (claimed, ok "a1")
unfolding claim consume_challenge take_challenge update_account_status get set
claiming = refl

keyed : (k : String) → own_key k (get k identities.accounts) ≡ true
unfolding get
keyed k = ground (arith, eq_iff "a1" k)

claim-once_example :
    (status_of (get "a1" identities.accounts) ≡ some pending_claim)
    × (status_of (get "a1" claimed.accounts) ≡ some active)
    × (claim plain 200 "code" claimed ≡ (claimed, err unauthorized))
    × (recover plain 200 "code" claimed ≡ (claimed, err unauthorized))
claim-once_example = claim-once plain 100 200 "code" "a1" identities claimed keyed claiming

session_found : get "old" identities.sessions ≡ some session
unfolding get
session_found = refl

abbrev new_token : String
new_token = "new"

abbrev old_token : String
old_token = "old"

apart : new_token ≢ old_token
apart = ground (arith, eq_iff new_token old_token)

rotate-replaces_example :
    let (s', result) = rotate plain default_config 100 "s2" new_token session identities in
    let next = next_session plain default_config 100 "s2" new_token session in
    (result ≡ ok next)
    × (validate plain default_config 200 old_token s' ≡ none)
    × (200 < 900100 → 200 < 5000 → validate plain default_config 200 new_token s' ≡ some next)
    × (5000 ≤ 200 → validate plain default_config 200 new_token s' ≡ none)
    × (next.account_id ≡ session.account_id)
rotate-replaces_example =
    rotate-replaces plain default_config 100 200 "s2" new_token session identities session_found
      apart

abbrev account_id : String
account_id = "a1"
