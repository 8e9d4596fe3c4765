-- ===== src/UseCases/Entity.antt =====
-- src/application/use-cases/manage-entity.ts.
use culturago_stellar.Base.{ℕ, String, Option, none, some, or_fail, not_found, if◌then◌else◌}
use culturago_stellar.Domain.Entities.{
  EntityRecord, EntityContentInput, register_entity, version_entity, deactivate_entity,
}
use culturago_stellar.UseCases.Database.{
  DatabaseGateway, NewEntityDetails, Action, ◌>>=◌, ◌>>◌, return, lift, query, commit,
}

module _ {Db : Type 0} (g : DatabaseGateway Db) where
  -- `record !== existing` holds exactly where there was no record.
  unfoldable pub store_unless_registered :
      Option EntityRecord → EntityRecord → Option NewEntityDetails → Action Db EntityRecord
  store_unless_registered (some existing) r details = return r
  store_unless_registered none r details = do commit (g.save_entity_record r details); return r

  unfoldable pub register_entity_record :
      String → EntityContentInput → Option NewEntityDetails → Action Db EntityRecord
  unfolding store_unless_registered
  register_entity_record entity_id input details = do
    existing ← query (g.get_entity_record entity_id)
    r ← lift (register_entity existing entity_id input)
    store_unless_registered existing r details

  unfoldable pub version_entity_record : String → ℕ → EntityContentInput → Action Db EntityRecord
  version_entity_record entity_id expected_version input = do
    found ← query (g.get_entity_record entity_id)
    existing ← lift (or_fail found not_found)
    r ← lift (version_entity existing expected_version input)
    commit (g.save_entity_record r none)
    return r

  -- `record !== existing` holds exactly where the entity was active.
  unfoldable pub deactivate_entity_record : String → ℕ → Action Db EntityRecord
  deactivate_entity_record entity_id expected_version = do
    found ← query (g.get_entity_record entity_id)
    existing ← lift (or_fail found not_found)
    r ← lift (deactivate_entity existing expected_version)
    if existing.active then (do commit (g.save_entity_record r none); return r) else return r
