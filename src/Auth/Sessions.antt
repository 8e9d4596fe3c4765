-- ===== src/Auth/Sessions.antt =====
-- src/infrastructure/auth/SessionService.ts. The token and the identifier of a new session are
-- arguments.
use culturago_stellar.Base.{
  ℕ, ◌+◌, Bool, ◌||◌, Option, none, some, String, Result, ok, ◌>>=◌, if◌then◌else◌, leb, is_some,
  or_fail, internal,
}
use culturago_stellar.Auth.Identity.{
  Identities, Session, create_session, get_session, rotate_session, revoke_session,
  revoke_all_sessions,
}

pub record SessionConfig : Type 0 where
  pub idle_ttl_ms : ℕ
  pub absolute_ttl_ms : ℕ

abbrev pub default_config : SessionConfig
default_config = record { idle_ttl_ms = 900000; absolute_ttl_ms = 604800000 }

abbrev pub ends_by : ℕ → Session → Bool
ends_by now session = leb session.idle_expires_at now || leb session.absolute_expires_at now

abbrev valid_only : ℕ → Session → Option Session
valid_only now session =
    if is_some session.revoked_at || ends_by now session then none else some session

module _ (sha256 : String → String) (config : SessionConfig) where
  abbrev pub new_session : ℕ → String → String → String → Session
  new_session now id token account = record {
    id = id;
    session_token = token;
    account_id = account;
    idle_expires_at = now + config.idle_ttl_ms;
    absolute_expires_at = now + config.absolute_ttl_ms;
    rotated_from = none;
    revoked_at = none;
  }

  unfoldable pub create : ℕ → String → String → String → Identities → Result (Identities × Session)
  create now id token account s = do
    s' ← create_session sha256 (new_session now id token account) s
    ok (s', new_session now id token account)

  unfoldable pub validate : ℕ → String → Identities → Option Session
  unfolding get_session
  validate now token s = elim (get_session (sha256 token) s) [
    | none ↦ none
    | some session ↦ valid_only now session
  ]

  abbrev pub next_session : ℕ → String → String → Session → Session
  next_session now id token old = record {
    id = id;
    session_token = token;
    account_id = old.account_id;
    idle_expires_at = now + config.idle_ttl_ms;
    absolute_expires_at = old.absolute_expires_at;
    rotated_from = some (sha256 old.session_token);
    revoked_at = none;
  }

  unfoldable pub rotate : ℕ → String → String → Session → Identities → Identities × Result Session
  unfolding get_session rotate_session
  rotate now id token old s =
      let s' =
        rotate_session sha256 now (sha256 old.session_token) (next_session now id token old) s in
      (s', or_fail (get_session (sha256 token) s') internal)

  unfoldable pub revoke : ℕ → String → Identities → Identities
  unfolding revoke_session
  revoke now token s = revoke_session now (sha256 token) s

  unfoldable pub revoke_all : ℕ → String → Identities → Identities
  unfolding revoke_all_sessions
  revoke_all now account s = revoke_all_sessions now account s
