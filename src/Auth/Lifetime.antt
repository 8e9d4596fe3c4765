-- ===== src/Auth/Lifetime.antt =====
-- How long a session lives.
use culturago_stellar.Base.{
  ℕ, ◌+◌, ◌≡◌, ◌≢◌, ◌≤◌, ◌<◌, inl, inr, refl, Option, none, some, String, ok, arith, eq_iff, get,
  set, get-set_self, get-set_ne, JsMap, [], ◌∷◌, Option-cases, if◌then◌else◌, ◌==◌, text_eq,
}
use culturago_stellar.Auth.Identity.{
  Identities, Session, get_session, revoked, rotate_session, revoke_session, revoke_all_sessions,
  revoke_of,
}
use culturago_stellar.Auth.Sessions.{
  SessionConfig, validate, rotate, revoke, revoke_all, next_session,
}

module _ (sha256 : String → String) (config : SessionConfig) where
  -- A session that validates is stored, not revoked, and before both of its ends.
  validate_lem :
      (now : ℕ) (token : String) (s : Identities) (session : Session)
      → validate sha256 config now token s ≡ some session
      → (get (sha256 token) s.sessions ≡ some session)
        × (session.revoked_at ≡ none)
        × (now < session.idle_expires_at)
        × (now < session.absolute_expires_at)
  unfolding validate get_session
  validate_lem now token s session h = ground arith

  -- A rotation replaces a stored session. Where the digests of the two tokens differ, the old token no
  -- longer validates at any time; the new one validates until its idle time is over, but never from
  -- the absolute end of the old session on, which a rotation does not move.
  pub rotate-replaces :
      (now later : ℕ) (id token : String) (old : Session) (s : Identities)
      → get (sha256 old.session_token) s.sessions ≡ some old
      → sha256 token ≢ sha256 old.session_token
      → let (s', result) = rotate sha256 config now id token old s in
        let next = next_session sha256 config now id token old in
        (result ≡ ok next)
        × (validate sha256 config later old.session_token s' ≡ none)
        × (later < now + config.idle_ttl_ms
            → later < old.absolute_expires_at
            → validate sha256 config later token s' ≡ some next)
        × (old.absolute_expires_at ≤ later → validate sha256 config later token s' ≡ none)
        × (next.account_id ≡ old.account_id)
  unfolding rotate rotate_session get_session validate
  rotate-replaces now later id token old s found apart =
      let next = next_session sha256 config now id token old in
      let m = set (sha256 old.session_token) (revoked now old) s.sessions in
      let new_found = get-set_self (sha256 token) next m in
      let old_kept = get-set_ne (sha256 token) (sha256 old.session_token) next m apart in
      let old_found = get-set_self (sha256 old.session_token) (revoked now old) s.sessions in
      (
        ground (arith, new_found),
        ground (arith, old_kept, old_found),
        ground (arith, new_found),
        ground (arith, new_found),
        refl,
      )

  revoke-ends :
      (now later : ℕ) (token : String) (s : Identities)
      → validate sha256 config later token (revoke sha256 config now token s) ≡ none
  unfolding validate revoke revoke_session get_session
  revoke-ends now later token s = elim (Option-cases (get (sha256 token) s.sessions)) [
    | inl e ↦ ground arith
    | inr (x, e) ↦ ground (arith, get-set_self (sha256 token) (revoked now x) s.sessions)
  ]

  abbrev revoke_if : ℕ → String → Option Session → Option Session
  revoke_if now account none = none
  revoke_if now account (some x) = some (if x.account_id == account then revoked now x else x)

  get-revoke_of :
      (now : ℕ) (account key : String) (m : JsMap Session)
      → get key (revoke_of now account m) ≡ revoke_if now account (get key m)
  unfolding get
  get-revoke_of now account key [] = refl
  get-revoke_of now account key ((k, x) ∷ m) = ground (arith, get-revoke_of now account key m)

  -- A revocation is final: after `revoke` the token does not validate at any time. `revokeAll` has the
  -- same effect on every token of the account, and changes no session of another one.
  pub revoke_all-ends :
      (now later : ℕ) (account token : String) (s : Identities) (session : Session)
      → get (sha256 token) s.sessions ≡ some session
      → (validate sha256 config later token (revoke sha256 config now token s) ≡ none)
        × (session.account_id ≡ account
            → validate sha256 config later token (revoke_all sha256 config now account s) ≡ none)
        × (session.account_id ≢ account
            → validate sha256 config later token (revoke_all sha256 config now account s)
              ≡ validate sha256 config later token s)
  unfolding validate revoke_all revoke_all_sessions get_session
  revoke_all-ends now later account token s session found =
      let image = get-revoke_of now account (sha256 token) s.sessions in
      (
        revoke-ends now later token s,
        ground (arith, image, eq_iff session.account_id account),
        ground (arith, image, eq_iff session.account_id account),
      )
