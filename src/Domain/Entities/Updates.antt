-- ===== src/Domain/Entities/Updates.antt =====
-- What the entity operations keep: immutable versions, optimistic concurrency, idempotence.
use culturago_stellar.Base.{
  ℕ, ◌+◌, ◌≤◌, ◌≡◌, ◌≢◌, ◌⊎◌, refl, ◌∙◌, true, none, some, String, List, [], ◌∷◌, ◌++◌, ok, err,
  arith, find, eq_iff, ◌==◌, number_eq, text_eq, version_conflict, already_exists, inactive,
}
use culturago_stellar.Domain.Entities.{
  EntityVersion, EntityRecord, EntityContentInput, register_entity, version_entity, new_version,
  deactivate_entity, get_entity_version, assert_content,
}
use culturago_stellar.Domain.Entities.History.{IsHistory, version-IsHistory, deactivate-IsHistory}

-- One update of a stored record, by either operation.
pub data Update : EntityRecord → EntityRecord → Type 0 where
  versioned :
      {r q : EntityRecord} (n : ℕ) (input : EntityContentInput)
      → version_entity r n input ≡ ok q
      → Update r q
  deactivated : {r q : EntityRecord} (n : ℕ) → deactivate_entity r n ≡ ok q → Update r q

pub data Updates (r : EntityRecord) : EntityRecord → Type 0 where
  start : Updates r r
  after : {p q : EntityRecord} → Updates r p → Update p q → Updates r q

Update-IsHistory : {r q : EntityRecord} → Update r q → IsHistory r → IsHistory q
Update-IsHistory {r} (versioned n input h) v = version-IsHistory r n input v h
Update-IsHistory {r} (deactivated n h) v = deactivate-IsHistory r n v h

pub Updates-IsHistory : {r q : EntityRecord} → Updates r q → IsHistory r → IsHistory q
Updates-IsHistory start v = v
Updates-IsHistory (after us u) v = Update-IsHistory u (Updates-IsHistory us v)

find_append :
    (k : ℕ) (vs : List EntityVersion) (v : EntityVersion)
    → v.version ≢ k
    → find (λ w. w.version == k) (vs ++ v ∷ []) ≡ find (λ w. w.version == k) vs
find_append k [] v h = ground arith
find_append k (w ∷ vs) v h = ground (arith, find_append k vs v h)

Update-keeps :
    {r q : EntityRecord} (k : ℕ)
    → Update r q
    → k ≤ r.latest_version
    → (r.latest_version ≤ q.latest_version)
      × (get_entity_version q k ≡ get_entity_version r k)
      × (q.entity_id ≡ r.entity_id)
unfolding version_entity deactivate_entity get_entity_version
Update-keeps {r} k (versioned n input h) l =
    ground (arith, find_append k r.versions (new_version (r.latest_version + 1) input))
Update-keeps k (deactivated n h) l = ground arith

-- No operation rewrites history: whatever updates a record goes through, a version number up to its
-- latest version finds the same version as before, the latest version never falls, and the
-- identifier stays.
pub versions_immutable :
    {r q : EntityRecord} (k : ℕ)
    → Updates r q
    → k ≤ r.latest_version
    → (r.latest_version ≤ q.latest_version)
      × (get_entity_version q k ≡ get_entity_version r k)
      × (q.entity_id ≡ r.entity_id)
versions_immutable k start l = (omega arith, refl, refl)
versions_immutable {r} k (after us u) l =
    let (grown, same, id) = versions_immutable k us l in
    let (grown', same', id') = Update-keeps k u (omega (arith, grown)) in
    (omega (arith, grown, grown'), same' ∙ same, id' ∙ id)

-- What `versionEntity` does when it succeeds: the record was active and at the expected version, and
-- the result has one version more, with the input's content and the next number.
pub version_entity_appends :
    (r : EntityRecord) (n : ℕ) (input : EntityContentInput) {q : EntityRecord}
    → version_entity r n input ≡ ok q
    → (r.active ≡ true)
      × (n ≡ r.latest_version)
      × (q.latest_version ≡ r.latest_version + 1)
      × (q.versions ≡ r.versions ++ new_version (r.latest_version + 1) input ∷ [])
      × (q.active ≡ true)
      × (q.entity_id ≡ r.entity_id)
unfolding version_entity
version_entity_appends r n input h = ground arith

-- Optimistic concurrency: of two writers that read the same version only the first succeeds. After a
-- new version was stored, a second one with valid content, and a deactivation, that expect the old
-- version number are refused as a conflict.
pub stale_writer_conflicts :
    (r : EntityRecord) (n : ℕ) (first second : EntityContentInput) {q : EntityRecord}
    → version_entity r n first ≡ ok q
    → assert_content second ≡ ok tt
    → (version_entity q n second ≡ err version_conflict)
      × (deactivate_entity q n ≡ err version_conflict)
unfolding version_entity deactivate_entity
stale_writer_conflicts r n first second h c = ground arith

-- A deactivated entity takes no further version: the record is unchanged but for its flag, every new
-- version with valid content is refused as `inactive`, and a repeated deactivation returns the same
-- record.
pub deactivate_closes :
    (r : EntityRecord) (n : ℕ) (input : EntityContentInput) {q : EntityRecord}
    → deactivate_entity r n ≡ ok q
    → assert_content input ≡ ok tt
    → (q.versions ≡ r.versions)
      × (q.latest_version ≡ r.latest_version)
      × (version_entity q n input ≡ err inactive)
      × (deactivate_entity q n ≡ ok q)
unfolding version_entity deactivate_entity
deactivate_closes r n input h c = ground arith

-- Registration is idempotent on the content: repeated with the same hash and schema, whatever the
-- registrar and the time, it returns the stored record; with another hash or schema it is refused as
-- `already_exists`.
pub register_entity_twice :
    (id : String) (first second : EntityContentInput) {r : EntityRecord}
    → register_entity none id first ≡ ok r
    → assert_content second ≡ ok tt
    → (first.metadata_hash ≡ second.metadata_hash
        → first.hash_schema ≡ second.hash_schema
        → register_entity (some r) id second ≡ ok r)
      × ((first.metadata_hash ≢ second.metadata_hash) ⊎ (first.hash_schema ≢ second.hash_schema)
          → register_entity (some r) id second ≡ err already_exists)
unfolding register_entity
register_entity_twice id first second h c =
    ground (arith, eq_iff first.metadata_hash second.metadata_hash)
