-- ===== src/Routes/Deploy/Enrolment.antt =====
-- What a deployment leaves with the account.
use culturago_stellar.Base.{
  ◌≡◌, refl, ap, subst, ◌∙◌, true, Option-cases, inl, inr, err-ne-ok, Option, none, some, String,
  Result, ok, err, get, get-set_self, ok_inj,
}
use culturago_stellar.Config.Env.{get_public_config, is_persistence_configured}
use culturago_stellar.Auth.Identity.{Identities, Account, update_account_wallet}
use culturago_stellar.Auth.Identity.Wallets.{save_smart_wallet_claim, upsert_wallet}
use culturago_stellar.Auth.Actor.{ActorContext}
use culturago_stellar.Perimeter.Body.{DeployBody}
use culturago_stellar.Perimeter.Rate.{assert_relayer_budget}
use culturago_stellar.Stellar.Transport.{Attempt, threw, done, attempt_of}
use culturago_stellar.Routes.Actor.{create_auth_bundle, require_actor_from_session}
use culturago_stellar.Routes.Deploy.Approved.{identify-done}
use culturago_stellar.Routes.Server.{
  Server, Site, Request, ◌>>=◌, checked, tried, limited, enrolled, bind-done, return,
}
use culturago_stellar.Routes.Submit.{no_options}
use culturago_stellar.Routes.Deploy.{
  Sent, sent, not_sent, enrol_in, Deployment, DeployResponse, deployed, Verified, identify, verify,
  deploy_verified, deploy_request, post_deploy, answer_deploy, enrol, enrol_updated, enrol_person,
  record_deployment, answer_sent, person_of, environment_name,
}

attempt_of-done : (r : Result (Unit {0})) → attempt_of r ≡ done tt → r ≡ ok tt
attempt_of-done (ok u) h = refl
attempt_of-done (err code) h = cc

module _ {Chain Db : Type 0} (site : Site Chain Db) (deployment : Deployment) where
  open deployment use {send}

  -- The account has the wallet.
  abbrev pub HasWallet : String → String → Identities → Type 0
  HasWallet account_id contract_id s =
      (account : Account) × (get account_id s.accounts ≡ some account)
      × (account.wallet_contract_address ≡ some contract_id)

  person-accounts :
      (account_id : String) (body : DeployBody) (contract_id network hash : String)
      (person : Option String) (s : Identities)
      → (enrol_person site deployment account_id body contract_id network hash person s).accounts
        ≡ s.accounts
  unfolding save_smart_wallet_claim upsert_wallet
  person-accounts account_id body contract_id network hash none s = refl
  person-accounts account_id body contract_id network hash (some person) s = refl

  update-HasWallet :
      (account_id contract_id : String) (s t : Identities)
      → update_account_wallet account_id contract_id s ≡ ok t
      → HasWallet account_id contract_id t
  unfolding update_account_wallet
  update-HasWallet account_id contract_id s t h = elim (Option-cases (get account_id s.accounts)) [
    | inl missing ↦ absurd (err-ne-ok (rw (missing, update_account_wallet) at h))
    | inr (account, found) ↦
        let changed : Account = record account { wallet_contract_address = some contract_id } in
        subst (HasWallet account_id contract_id) (ok_inj (rw (found, update_account_wallet) at h))
          (changed, get-set_self account_id changed s.accounts, refl)
  ]

  enrol_updated-HasWallet :
      (account_id : String) (body : DeployBody) (contract_id network hash : String) (s : Identities)
      (r : Result Identities)
      → ((t : Identities) → r ≡ ok t → HasWallet account_id contract_id t)
      → let (s', result) =
          enrol_updated site deployment account_id body contract_id network hash s r in
        result ≡ ok tt → HasWallet account_id contract_id s'
  enrol_updated-HasWallet account_id body contract_id network hash s (err code) k h =
      absurd (err-ne-ok h)
  enrol_updated-HasWallet account_id body contract_id network hash s (ok t) k h =
      let (account, found, owns) = k t refl in
      let person = person_of (get account_id t.accounts) in
      (
        account,
        ap (get account_id) (person-accounts account_id body contract_id network hash person t)
            ∙ found,
        owns,
      )

  enrol-HasWallet :
      (account_id : String) (body : DeployBody) (contract_id network hash : String) (s : Identities)
      → let (s', result) = enrol site deployment account_id body contract_id network hash s in
        result ≡ ok tt → HasWallet account_id contract_id s'
  unfolding enrol
  enrol-HasWallet account_id body contract_id network hash s =
      enrol_updated-HasWallet account_id body contract_id network hash s
        (update_account_wallet account_id contract_id s) (update-HasWallet account_id contract_id s)

  enrolled-done :
      (change : Identities → Identities × Result (Unit {0})) (s t : Server Chain Db)
      → enrolled change s ≡ (t, done tt)
      → ((change s.identities).0 ≡ t.identities) × ((change s.identities).1 ≡ ok tt)
  enrolled-done change s t h =
      (ap (λ p. p.0.identities) h, attempt_of-done (change s.identities).1 (ap (λ p. p.1) h))

  record_deployment-HasWallet :
      (account_id hash : String) (v : Verified) (s t : Server Chain Db)
      → is_persistence_configured site.env ≡ true
      → record_deployment site deployment account_id v hash s ≡ (t, done tt)
      → HasWallet account_id v.contract_id t.identities
  unfolding record_deployment
  record_deployment-HasWallet account_id hash v s t persistent h =
      let bundle = checked (create_auth_bundle site.env) in
      let public = checked (get_public_config site.env) in
      let next = enrol_in site deployment account_id v hash in
      let (r, _, _, rest) = bind-done bundle (λ _. public >>= next) s t tt h in
      let (u, config, _, last) = bind-done public next r t tt rest in
      let network = environment_name config.environment in
      let (same, done_well) =
        enrolled-done (enrol site deployment account_id v.body v.contract_id network hash) u t
          (rw persistent at last) in
      subst (HasWallet account_id v.contract_id) same
        (enrol-HasWallet account_id v.body v.contract_id network hash u.identities done_well)

  sent-HasWallet :
      (account_id hash id : String) (v : Verified) (sending : Sent) (s t : Server Chain Db)
      → is_persistence_configured site.env ≡ true
      → answer_sent site deployment account_id v sending s ≡ (t, done (deployed hash id))
      → HasWallet account_id id t.identities
  sent-HasWallet account_id hash id v not_sent s t persistent h = cc
  sent-HasWallet account_id hash id v (sent hash') s t persistent h =
      let (u, _, recorded, last) =
        bind-done (record_deployment site deployment account_id v hash')
          (λ _. return (deployed hash' v.contract_id)) s t (deployed hash id) h in
      let same : u ≡ t = ap (λ p. p.0) last in
      let named : v.contract_id ≡ id = cc (ap (λ p. p.1) last) in
      subst (λ w. HasWallet account_id id w.identities) same
        (subst (λ i. HasWallet account_id i u.identities) named
          (record_deployment-HasWallet account_id hash' v s u persistent recorded))

  answer_deploy-deployed :
      (r : Server Chain Db × Attempt DeployResponse) (t : Server Chain Db) (hash id : String)
      → answer_deploy site deployment r ≡ (t, deployed hash id)
      → r ≡ (t, done (deployed hash id))
  answer_deploy-deployed (u, done response) t hash id h = ap (λ p. (p.0, done p.1)) h
  answer_deploy-deployed (u, threw f) t hash id h = cc

  -- After a deployment that is answered with success, and with persistence configured, the request's session
  -- has given an actor, and the actor's account is stored with the deployed contract as its wallet.
  pub post_deploy-HasWallet :
      (request : Request) (s t : Server Chain Db) (hash id : String)
      → is_persistence_configured site.env ≡ true
      → post_deploy site deployment request s ≡ (t, deployed hash id)
      → (actor : ActorContext) × (require_actor_from_session site.sha256 site.env site.now
            request.session_cookie s.identities
          ≡ ok actor)
        × HasWallet actor.account_id id t.identities
  unfolding post_deploy deploy_request deploy_verified
  post_deploy-HasWallet request s t hash id persistent h =
      let serve = λ (actor : ActorContext).
        verify site deployment request >>= deploy_verified site deployment actor.account_id in
      let result = deployed hash id in
      let finished =
        answer_deploy-deployed (deploy_request site deployment request s) t hash id h in
      let (u, actor, identified, rest) =
        bind-done (identify site deployment request) serve s t result finished in
      let (w, v, _, serving) =
        bind-done (verify site deployment request)
          (deploy_verified site deployment actor.account_id) u t result rest in
      let budget =
        limited (
          assert_relayer_budget site.default_relayer_budget site.now actor.account_id no_options) in
      let relay = tried (send v.config v.base_url v.api_key v.body.signed_tx) in
      let reply = answer_sent site deployment actor.account_id v in
      let (x, _, _, relaying) = bind-done budget (λ _. relay >>= reply) w t result serving in
      let (y, sending, _, replied) = bind-done relay reply x t result relaying in
      (
        actor,
        identify-done site deployment request s u actor identified,
        sent-HasWallet actor.account_id hash id v sending y t persistent replied,
      )
