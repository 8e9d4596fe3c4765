-- ===== src/Auth/Actor.antt =====
-- src/infrastructure/auth/actorContext.ts and src/infrastructure/auth/resolveActor.ts.
use culturago_stellar.Base.{
  Bool, false, ◌||◌, Option, String, List, [], ◌∷◌, Result, ok, ◌>>=◌, ◌>>◌, or_fail, require, ◌==◌,
  text_eq, includes, get, unauthorized, not_found,
}
use culturago_stellar.Auth.Identity.{
  Identities, AccountStatus-discrete, account_status_eq, active, get_roles, get_issuer_scopes,
}

-- A role is the text that the store has: the code casts it to `AppRole`.
pub record ActorContext : Type 0 where
  pub account_id : String
  pub role : String
  pub issuer_entity_ids : List String
  pub person_entity_id : Option String
  pub wallet_address : Option String
  pub is_service_identity : Bool

unfoldable pub assert_role : ActorContext → List String → Result (Unit {0})
assert_role actor roles = require (includes roles actor.role) unauthorized

unfoldable pub assert_issuer_scope : ActorContext → String → Result (Unit {0})
assert_issuer_scope actor issuer =
    require (actor.role == "admin" || includes actor.issuer_entity_ids issuer) unauthorized

abbrev first_or_visitor : List String → String
first_or_visitor [] = "visitor"
first_or_visitor (role ∷ roles) = role

unfoldable pub resolve_actor : Identities → String → Result ActorContext
unfolding AccountStatus-discrete get_roles get_issuer_scopes
resolve_actor s account_id = do
  account ← or_fail (get account_id s.accounts) not_found
  require (account.status == active) unauthorized
  ok (record {
    account_id = account.id;
    role = first_or_visitor (get_roles account_id s);
    issuer_entity_ids = get_issuer_scopes account_id s;
    person_entity_id = account.person_entity_id;
    wallet_address = account.wallet_contract_address;
    is_service_identity = false;
  })
