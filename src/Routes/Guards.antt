-- ===== src/Routes/Guards.antt =====
-- Whose requests reach the gateway.
use culturago_stellar.Base.{ℕ, ◌≡◌, some, String, ok, get, text_eq}
use culturago_stellar.Auth.Actor.{ActorContext}
use culturago_stellar.Perimeter.Origin.{assert_origin_allowed}
use culturago_stellar.Perimeter.Body.{SubmitBody}
use culturago_stellar.Stellar.Commands.{Config}
use culturago_stellar.Stellar.Operation.{StoredOperation}
use culturago_stellar.Routes.Actor.{given_text, require_actor_from_session}
use culturago_stellar.Routes.Server.{Server, Site, Request}
use culturago_stellar.Routes.Rules.{Untouched}
use culturago_stellar.Routes.Submit.{Response, refused}

module _ {Chain Db : Type 0} (site : Site Chain Db) where
  -- What holds of a request that reaches the gateway: who sends it, and what it asks for.
  pub record IsAuthorized (request : Request) (s : Server Chain Db) : Type 0 where
    pub actor : ActorContext
    pub wallet : String
    pub body : SubmitBody
    pub op : StoredOperation
    pub trusted : assert_origin_allowed site.parse_url site.env request.headers ≡ ok tt
    pub signed_in :
        require_actor_from_session site.sha256 site.env site.now request.session_cookie s.identities
        ≡ ok actor
    pub owned : given_text actor.wallet_address ≡ some wallet
    pub stored : get body.operation_id s.world.store.by_id ≡ some op
    pub intended : op.intent.actor_address ≡ wallet
    pub signed : body.signer_address ≡ wallet

  abbrev Admitted : Request → Server Chain Db → ActorContext × String → Type 0
  Admitted request s (actor, wallet) =
      (assert_origin_allowed site.parse_url site.env request.headers ≡ ok tt)
      × (require_actor_from_session site.sha256 site.env site.now request.session_cookie
            s.identities
          ≡ ok actor)
      × (given_text actor.wallet_address ≡ some wallet)

  abbrev Claimed : String → Server Chain Db → Config × SubmitBody × StoredOperation → Type 0
  Claimed wallet s (config, body, op) =
      (get body.operation_id s.world.store.by_id ≡ some op)
      × (op.intent.actor_address ≡ wallet)
      × (body.signer_address ≡ wallet)

  -- A request that nothing came of: an error status, and all but the limits as it was.
  abbrev pub IsRefused : Server Chain Db → Server Chain Db × Response → Type 0
  IsRefused s (s', response) = Untouched s s' × ((status : ℕ) × (response ≡ refused status))
