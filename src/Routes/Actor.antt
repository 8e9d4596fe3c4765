-- ===== src/Routes/Actor.antt =====
-- src/infrastructure/auth/getActorFromSession.ts, the check of src/infrastructure/auth/factory.ts, and the test actor
-- of src/infrastructure/auth/actorContext.ts.
use culturago_stellar.Base.{
  ℕ, true, ◌&&◌, ◌||◌, Option, none, some, String, [], Result, ok, err, ◌>>=◌, require, or_fail,
  is_some, invalid_input, unauthorized, if◌then◌else◌, ◌==◌, text_eq, JsMap, get,
}
use culturago_stellar.Config.Env.{is_demo, get_public_config}
use culturago_stellar.Auth.Identity.{Identities, Session}
use culturago_stellar.Auth.Sessions.{default_config, validate}
use culturago_stellar.Auth.Actor.{ActorContext, resolve_actor}

-- A text that `if (text)` takes.
abbrev pub given_text : Option String → Option String
given_text none = none
given_text (some s) = if s == "" then none else some s

abbrev pub test_actor : String → ActorContext
test_actor role = record {
  account_id = "test-actor";
  role = role;
  issuer_entity_ids = [];
  person_entity_id = none;
  wallet_address = some "G_DEMO_ACTOR";
  is_service_identity = true;
}

-- What `createAuthBundle` throws.
unfoldable pub create_auth_bundle : JsMap String → Result (Unit {0})
unfolding get_public_config
create_auth_bundle env = do
  config ← get_public_config env
  require
      (is_demo config
        || (is_some (given_text (get "WEBAUTHN_RP_ID" env))
            && is_some (given_text (get "WEBAUTHN_ORIGINS" env))))
      invalid_input

-- The promise of `resolveActor` is returned without `await`, so that the `catch` does not see its rejection.
abbrev pub actor_of_session : Identities → Option Session → Result (Option ActorContext)
actor_of_session s none = ok none
actor_of_session s (some session) = resolve_actor s session.account_id >>= λ actor. ok (some actor)

-- The `try`: an error of the bundle is caught, and there is no actor.
abbrev pub validated :
    (String → String) → ℕ → String → Identities → Result (Unit {0}) → Result (Option ActorContext)
validated sha256 now token s (err code) = ok none
validated sha256 now token s (ok tt) =
    actor_of_session s (validate sha256 default_config now token s)

abbrev pub session_actor :
    (String → String) → JsMap String → ℕ → Option String → Identities → Result (Option ActorContext)
session_actor sha256 env now none s = ok none
session_actor sha256 env now (some token) s = validated sha256 now token s (create_auth_bundle env)

unfoldable pub get_actor_from_session :
    (String → String) → JsMap String → ℕ → Option String → Identities → Result (Option ActorContext)
unfolding get_public_config validate resolve_actor create_auth_bundle
get_actor_from_session sha256 env now cookie s = do
  config ← get_public_config env
  (if is_demo config
      then ok (some (test_actor "admin"))
      else session_actor sha256 env now (given_text cookie) s)

unfoldable pub require_actor_from_session :
    (String → String) → JsMap String → ℕ → Option String → Identities → Result ActorContext
unfolding get_actor_from_session
require_actor_from_session sha256 env now cookie s = do
  found ← get_actor_from_session sha256 env now cookie s
  or_fail found unauthorized
