-- ===== src/Routes/Deploy/Approved.antt =====
-- Which deployments reach the relayer, and what a deployment leaves with the account.
use culturago_stellar.Base.{ℕ, ◌≡◌, ◌≢◌, refl, subst, true, some, List, ok, text_eq, All}
use culturago_stellar.Auth.Actor.{ActorContext}
use culturago_stellar.Perimeter.Origin.{assert_origin_allowed}
use culturago_stellar.Perimeter.Rate.{assert_rate_limit}
use culturago_stellar.Stellar.Transport.{done, HoldsOf}
use culturago_stellar.Stellar.Allowlist.{
  approves, extract_create_contract_wasm_hashes, derive_smart_wallet_contract_address,
}
use culturago_stellar.Routes.Actor.{require_actor_from_session}
use culturago_stellar.Routes.Server.{Server, Site, Request}
use culturago_stellar.Routes.Submit.{no_options, assert_testnet_mutations_allowed}
use culturago_stellar.Routes.Rules.{
  Untouched, Leaves, Leaves-return, Leaves-checked, Leaves-identified, Leaves-limited, Leaves-bind,
}
use culturago_stellar.Routes.Deploy.{Deployment, DeployResponse, refused, Verified, identify}

module _ {Chain Db : Type 0} (site : Site Chain Db) (deployment : Deployment) where
  open deployment use {
    address_of_secret, to_number, manifest, decode, contract_address, send, wallet_id, claim_id,
  }

  -- What was checked of a deployment.
  pub record IsChecked (v : Verified) : Type 0 where
    pub approved :
        All
          (λ h. approves v.config.smart_wallet_wasm_allowlist h ≡ true)
          (extract_create_contract_wasm_hashes decode v.body.signed_tx v.config.network_passphrase)
    pub creates :
        extract_create_contract_wasm_hashes decode v.body.signed_tx v.config.network_passphrase
        ≢ List.[]
    pub derived :
        derive_smart_wallet_contract_address decode contract_address v.body.signed_tx
          v.config.network_passphrase
        ≡ some v.contract_id
    pub named : v.contract_id ≡ v.body.contract_id

  pub record IsApproved (request : Request) (s : Server Chain Db) : Type 0 where
    pub actor : ActorContext
    pub verified : Verified
    pub trusted : assert_origin_allowed site.parse_url site.env request.headers ≡ ok tt
    pub signed_in :
        require_actor_from_session site.sha256 site.env site.now request.session_cookie s.identities
        ≡ ok actor
    pub checked : IsChecked verified

  abbrev Identified : Request → Server Chain Db → ActorContext → Type 0
  Identified request s actor =
      (assert_origin_allowed site.parse_url site.env request.headers ≡ ok tt)
      × (require_actor_from_session site.sha256 site.env site.now request.session_cookie
            s.identities
          ≡ ok actor)

  identify-Leaves :
      (request : Request) (s : Server Chain Db)
      → Leaves s (Identified request s) (identify site deployment request)
  unfolding identify
  identify-Leaves request s =
      let origin = assert_origin_allowed site.parse_url site.env request.headers in
      let session =
        require_actor_from_session site.sha256 site.env site.now request.session_cookie in
      Leaves-bind s (Leaves-checked s origin) λ _ trusted.
        Leaves-bind s (Leaves-identified s session) λ actor found.
          let hit =
            assert_rate_limit site.default_rate_limit site.now actor.account_id no_options in
          Leaves-bind s (Leaves-limited s hit) λ _ _.
            Leaves-bind s (Leaves-checked s (assert_testnet_mutations_allowed site.env))
              λ _ _. Leaves-return s (Identified request s) actor (trusted, found)

  pub identify-done :
      (request : Request) (s t : Server Chain Db) (actor : ActorContext)
      → identify site deployment request s ≡ (t, done actor)
      → require_actor_from_session site.sha256 site.env site.now request.session_cookie s.identities
        ≡ ok actor
  identify-done request s t actor h =
      let start : Untouched s s = record {
        world_same = refl;
        db_same = refl;
        identities_same = refl;
      } in
      let (_, known) = (identify-Leaves request s).at s start in
      (subst (λ r. HoldsOf (Identified request s) r.1) h known).1

  -- A request that nothing came of: an error status, and all but the limits as it was.
  abbrev pub IsRefused : Server Chain Db → Server Chain Db × DeployResponse → Type 0
  IsRefused s (s', response) = Untouched s s' × ((status : ℕ) × (response ≡ refused status))
