-- ===== src/Routes/Submit.antt =====
-- The handler of src/app/api/sign/submit/route.ts. The clock is read once.
use culturago_stellar.Base.{
  ℕ, suc, ◌+◌, Bool, true, false, not, ◌&&◌, Option, none, some, String, List, [], ◌∷◌, ◌++◌,
  Result, ok, err, require, or_fail, unauthorized, not_found, if◌then◌else◌, ◌==◌, text_eq, get,
  JsMap,
}
use culturago_stellar.Base as Base
use culturago_stellar.Config.Env.{
  Environment-discrete, on_testnet, get_public_config, is_persistence_configured,
}
use culturago_stellar.Domain.Operations.{Phase-discrete, phase_eq, confirmed}
use culturago_stellar.Domain.Entities.{EntityVersion, EntityRecord}
use culturago_stellar.Domain.Credentials.{CredentialRecord}
use culturago_stellar.Auth.Actor.{ActorContext}
use culturago_stellar.Perimeter.Origin.{assert_origin_allowed}
use culturago_stellar.Perimeter.Rate.{LimitOptions, assert_rate_limit, assert_relayer_budget}
use culturago_stellar.Perimeter.Body.{
  SubmitBody, max_body_bytes, parse_strict_json, validate_submit_body,
}
use culturago_stellar.Stellar.Commands.{Config}
use culturago_stellar.Stellar.Operation.{OperationState, StoredOperation, Expected}
use culturago_stellar.Stellar.Transport.{Failure, Attempt, threw, done}
use culturago_stellar.Stellar.Transport as Transport
use culturago_stellar.Stellar.Gateway.Submit.{submit_signed}
use culturago_stellar.Routes.Actor.{given_text, require_actor_from_session}
use culturago_stellar.Routes.Keys.{
  ParsedKey, register_key, issue_key, revoke_key, parse_idempotency_key,
}
use culturago_stellar.Routes.Server.{
  Server, Site, Request, Call, ◌>>=◌, ◌>>◌, return, checked, tried, identified, limited, on_world,
  asked, saved, status_of,
}

pub data Response : Type 0 where
  submitted : OperationState → Response
  refused : ℕ → Response

abbrev is_set : String → Option String → Bool
is_set value none = false
is_set value (some s) = s == value

unfoldable pub assert_testnet_mutations_allowed : JsMap String → Result (Unit {0})
unfolding get_public_config Environment-discrete
assert_testnet_mutations_allowed env = Base.◌>>=◌ (get_public_config env) λ config.
    if on_testnet config
    then require (is_set "true" (get "CULTURAGO_ALLOW_TESTNET_MUTATIONS" env)) unauthorized
    else ok tt

abbrev pub no_options : LimitOptions
no_options = record { limit = none; window_ms = none }

abbrev pub hash_or_empty : Option Expected → String
hash_or_empty none = ""
hash_or_empty (some e) = elim e.metadata_hash [ none ↦ "" | some hash ↦ hash ]

abbrev pub schema_or_one : Option Expected → ℕ
schema_or_one none = 1
schema_or_one (some e) = elim e.hash_schema [ none ↦ 1 | some schema ↦ schema ]

abbrev pub anchored_version : String → StoredOperation → OperationState → ℕ → EntityVersion
anchored_version now op st version = record {
  version = version;
  metadata_hash = hash_or_empty op.intent.expected;
  hash_schema = schema_or_one op.intent.expected;
  registrar_id = op.intent.actor_address;
  recorded_at = now;
  recorded_ledger = st.ledger;
}

-- The entity with the version that the chain has confirmed.
abbrev pub anchored_entity : String → StoredOperation → OperationState → EntityRecord → EntityRecord
anchored_entity now op st r = record r {
  latest_version = r.latest_version + 1;
  versions = r.versions ++ anchored_version now op st (r.latest_version + 1) ∷ [];
}

abbrev pub issued_on_chain : OperationState → CredentialRecord → CredentialRecord
issued_on_chain st r = record r { issued_ledger = st.ledger }

abbrev pub revoked_on_chain : OperationState → Option String → CredentialRecord → CredentialRecord
revoked_on_chain st none r = record r { revoked_ledger = st.ledger }
revoked_on_chain st (some reason) r = record r {
  revoked_ledger = st.ledger;
  revoked_reason_hash = some reason;
}

module _ {Chain Db : Type 0} (site : Site Chain Db) where
  abbrev keep_entity :
      (EntityRecord → EntityRecord) → Option EntityRecord → Call Chain Db (Unit {0})
  keep_entity change none = return tt
  keep_entity change (some r) = saved (site.gateway.save_entity_record (change r) none)

  abbrev keep_credential :
      (CredentialRecord → CredentialRecord) → Option CredentialRecord → Call Chain Db (Unit {0})
  keep_credential change none = return tt
  keep_credential change (some r) = saved (site.gateway.save_credential (change r))

  -- What a confirmed operation writes to the database, by the parts of its key.
  unfoldable pub record_parsed :
      StoredOperation → OperationState → Option ParsedKey → Call Chain Db (Unit {0})
  record_parsed op st none = return tt
  record_parsed op st (some (register_key id)) = do
    found ← asked (site.gateway.get_entity_record id)
    keep_entity (anchored_entity site.now_text op st) found
  record_parsed op st (some (issue_key id)) = do
    found ← asked (site.gateway.get_credential_by_id id)
    keep_credential (issued_on_chain st) found
  record_parsed op st (some (revoke_key id reason)) = do
    found ← asked (site.gateway.get_credential_by_id id)
    keep_credential (revoked_on_chain st reason) found

  unfoldable pub record_confirmation : StoredOperation → OperationState → Call Chain Db (Unit {0})
  unfolding record_parsed parse_idempotency_key is_persistence_configured Phase-discrete
  record_confirmation op st =
      if st.phase == confirmed && is_persistence_configured site.env
      then record_parsed op st (parse_idempotency_key st.idempotency_key)
      else return tt

  -- The first checks of a request, to its actor and the wallet.
  unfoldable pub admit : Request → Call Chain Db (ActorContext × String)
  unfolding assert_origin_allowed require_actor_from_session assert_rate_limit
      assert_testnet_mutations_allowed
  admit request = do
    checked (assert_origin_allowed site.parse_url site.env request.headers)
    actor ←
        identified (require_actor_from_session site.sha256 site.env site.now request.session_cookie)
    limited (assert_rate_limit site.default_rate_limit site.now actor.account_id no_options)
    checked (assert_testnet_mutations_allowed site.env)
    wallet ← checked (or_fail (given_text actor.wallet_address) unauthorized)
    return (actor, wallet)

  -- The body of a request, and the operation that it names, which must be the wallet's.
  unfoldable pub claim_operation :
      Request → String → Call Chain Db (Config × SubmitBody × StoredOperation)
  unfolding parse_strict_json validate_submit_body get_public_config
  claim_operation request wallet = do
    parsed ← checked (parse_strict_json site.parse_json max_body_bytes request.body)
    body ← checked (validate_submit_body (get_public_config site.env) parsed.1)
    config ← tried site.gateway_config
    found ← on_world (Transport.query (λ s. get body.operation_id s.by_id))
    op ← checked (or_fail found not_found)
    checked (require (op.intent.actor_address == wallet) unauthorized)
    checked (require (body.signer_address == wallet) unauthorized)
    return (config, body, op)

  unfoldable pub submit_claimed :
      String → Config × SubmitBody × StoredOperation → Call Chain Db OperationState
  unfolding assert_relayer_budget submit_signed record_confirmation
  submit_claimed account (config, body, op) = do
    limited (assert_relayer_budget site.default_relayer_budget site.now account no_options)
    st ← on_world (
        submit_signed config site.host site.transport site.now body.operation_id body.signed_xdr
          body.signer_address)
    record_confirmation op st
    return st

  unfoldable pub submit_request : Request → Call Chain Db OperationState
  unfolding admit claim_operation submit_claimed
  submit_request request = do
    admitted ← admit request
    claimed ← claim_operation request admitted.1
    submit_claimed admitted.0.account_id claimed

  abbrev pub answer : Server Chain Db × Attempt OperationState → Server Chain Db × Response
  answer (s, done st) = (s, submitted st)
  answer (s, threw f) = (s, refused (status_of f))

  -- `POST`
  unfoldable pub post : Request → Server Chain Db → Server Chain Db × Response
  unfolding submit_request status_of
  post request s = answer (submit_request request s)
