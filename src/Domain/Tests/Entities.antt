-- ===== src/Domain/Tests/Entities.antt =====
-- The theorems on entities at concrete inputs.
use culturago_stellar.Base.{◌≤◌, ◌≡◌, refl, true, false, String, [], ◌∷◌, ok, arith, text_eq}
use culturago_stellar.Domain.Entities.{
  EntityRecord, EntityContentInput, version_entity, get_entity_version, new_version, is_hex64,
}
use culturago_stellar.Domain.Entities.Updates.{Update, Updates, versions_immutable}
use culturago_stellar.Domain.Tests.{digest, other_digest}

abbrev content : String → EntityContentInput
content hash = record {
  metadata_hash = hash;
  hash_schema = 1;
  registrar_id = "r1";
  recorded_at = "t0";
}

abbrev entity : EntityRecord
entity = record {
  entity_id = "ent";
  active = true;
  latest_version = 1;
  versions = new_version 1 (content digest) ∷ [];
}

abbrev entity_v2 : EntityRecord
entity_v2 = record entity {
  latest_version = 2;
  versions = new_version 1 (content digest) ∷ new_version 2 (content other_digest) ∷ [];
}

second_version : version_entity entity 1 (content other_digest) ≡ ok entity_v2
unfolding version_entity is_hex64
second_version = refl

versions_immutable_example :
    (1 ≤ 2)
    × (get_entity_version entity_v2 1 ≡ get_entity_version entity 1)
    × (entity_v2.entity_id ≡ entity.entity_id)
versions_immutable_example =
    versions_immutable {r = entity} {q = entity_v2} 1
      (Updates.after Updates.start (Update.versioned 1 (content other_digest) second_version))
      (omega arith)

abbrev closed_entity : EntityRecord
closed_entity = record entity { active = false }
