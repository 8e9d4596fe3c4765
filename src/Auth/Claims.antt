-- ===== src/Auth/Claims.antt =====
-- src/infrastructure/auth/ClaimService.ts. The code and the identifier of a new challenge are
-- arguments.
use culturago_stellar.Base.{
  ℕ, ◌+◌, Option, none, some, String, or_fail, require, ◌==◌, text_eq, if◌then◌else◌, get,
  unauthorized, invalid_input, not_found, invalid_state_transition,
}
use culturago_stellar.Auth.Identity.{
  Identities, Account, AccountStatus-discrete, account_status_eq, pending_claim, active, Challenge,
  ChallengePurpose, ChallengePurpose-discrete, challenge_purpose_eq, claim_account, recovery,
  create_challenge, consume_challenge, update_account_status,
}
use culturago_stellar.Auth.Identity as Purpose
use culturago_stellar.UseCases.Database.{Action, ◌>>=◌, ◌>>◌, return, lift, query, commit}

abbrev pub claim_ttl_ms : ℕ
claim_ttl_ms = 86400000

abbrev given : Option String → Option String
given none = none
given (some s) = if s == "" then none else some s

module _ (sha256 : String → String) where
  abbrev pub code_challenge : ℕ → String → String → ChallengePurpose → String → Challenge
  code_challenge now id code purpose account = record {
    id = id;
    challenge = code;
    purpose = purpose;
    account_id = some account;
    expires_at = now + claim_ttl_ms;
    consumed_at = none;
  }

  unfoldable pub create_claim_code : ℕ → String → String → String → Action Identities String
  create_claim_code now id code account = do
    commit (create_challenge sha256 (code_challenge now id code Purpose.claim_account account))
    return code

  -- The code of the digest, used up by the call.
  abbrev take : ℕ → String → Action Identities Challenge
  take now code s =
      let (s', found) = consume_challenge now (sha256 code) s in (s', or_fail found unauthorized)

  unfoldable pub claim : ℕ → String → Action Identities String
  unfolding ChallengePurpose-discrete AccountStatus-discrete
  claim now code = do
    challenge ← take now code
    lift (require (challenge.purpose == Purpose.claim_account) unauthorized)
    account_id ← lift (or_fail (given challenge.account_id) invalid_input)
    found ← query (λ s. get account_id s.accounts)
    account ← lift (or_fail found not_found)
    lift (require (account.status == pending_claim) invalid_state_transition)
    commit (update_account_status account.id active)
    return account.id

  unfoldable pub create_recovery_code : ℕ → String → String → String → Action Identities String
  unfolding AccountStatus-discrete
  create_recovery_code now id code account_id = do
    found ← query (λ s. get account_id s.accounts)
    account ← lift (or_fail found not_found)
    lift (require (account.status == active) invalid_state_transition)
    commit (create_challenge sha256 (code_challenge now id code recovery account_id))
    return code

  unfoldable pub recover : ℕ → String → Action Identities String
  unfolding ChallengePurpose-discrete
  recover now code = do
    challenge ← take now code
    lift (require (challenge.purpose == recovery) unauthorized)
    lift (or_fail (given challenge.account_id) invalid_input)
