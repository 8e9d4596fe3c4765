-- ===== src/Domain/Entities.antt =====
-- Entities and their version history (src/domain/entities/entity.ts).
pub mod History
pub mod Updates
use culturago_stellar.Base.{
  ℕ, ◌+◌, ◌-◌, ◌≡◌, Bool, true, false, ◌&&◌, ◌||◌, not, Option, none, some, String, List, [], ◌∷◌,
  ◌++◌, ◌==◌, number_eq, text_eq, leb, nat_beq, length, get_elem?, every, find, codes,
  if◌then◌else◌, Result, ok, err, ◌>>=◌, ◌>>◌, require, or_fail, invalid_input, already_exists,
  inactive, internal, version_conflict,
}

pub record EntityVersion : Type 0 where
  pub version : ℕ
  pub metadata_hash : String
  pub hash_schema : ℕ
  pub registrar_id : String
  pub recorded_at : String
  pub recorded_ledger : Option ℕ

pub record EntityRecord : Type 0 where
  pub entity_id : String
  pub active : Bool
  pub latest_version : ℕ
  pub versions : List EntityVersion

pub record EntityContentInput : Type 0 where
  pub metadata_hash : String
  pub hash_schema : ℕ
  pub registrar_id : String
  pub recorded_at : String

-- `[0-9a-f]`
unfoldable pub is_hex_digit : ℕ → Bool
is_hex_digit c = (leb b'0' c && leb c b'9') || (leb b'a' c && leb c b'f')

-- `/^[0-9a-f]{64}$/.test(s)`
unfoldable pub is_hex64 : String → Bool
unfolding is_hex_digit
is_hex64 s = nat_beq (length (codes s)) 64 && every is_hex_digit (codes s)

-- A schema number is a natural number here, so that only the sign is left to test.
unfoldable pub assert_content : EntityContentInput → Result (Unit {0})
assert_content input = do
  require (is_hex64 input.metadata_hash) invalid_input
  require (not (input.hash_schema == 0)) invalid_input
  require (not (input.registrar_id == "")) invalid_input

-- `{ version, ...input, recordedLedger: null }`
abbrev pub new_version : ℕ → EntityContentInput → EntityVersion
new_version v input = record {
  version = v;
  metadata_hash = input.metadata_hash;
  hash_schema = input.hash_schema;
  registrar_id = input.registrar_id;
  recorded_at = input.recorded_at;
  recorded_ledger = none;
}

-- `existing.versions[existing.latestVersion - 1]`, with `undefined` as `none`. Reading a field of
-- `undefined` throws a `TypeError`, here `internal`; the records with a history rule it out.
unfoldable pub head_version : EntityRecord → Option EntityVersion
head_version r = if r.latest_version == 0 then none else get_elem? r.versions (r.latest_version - 1)

abbrev same_content : EntityVersion → EntityContentInput → Bool
same_content head input =
    head.metadata_hash == input.metadata_hash && head.hash_schema == input.hash_schema

unfoldable pub register_existing : EntityRecord → EntityContentInput → Result EntityRecord
unfolding head_version
register_existing existing input = do
  head ← or_fail (head_version existing) internal
  if same_content head input then ok existing else err already_exists

unfoldable pub register_entity :
    Option EntityRecord → String → EntityContentInput → Result EntityRecord
unfolding assert_content register_existing
register_entity (some existing) entity_id input = do
  assert_content input
  register_existing existing input
register_entity none entity_id input = do
  assert_content input
  ok (record {
    entity_id = entity_id;
    active = true;
    latest_version = 1;
    versions = new_version 1 input ∷ [];
  })

unfoldable pub version_entity : EntityRecord → ℕ → EntityContentInput → Result EntityRecord
unfolding assert_content
version_entity r expected_version input = do
  assert_content input
  require r.active inactive
  require (expected_version == r.latest_version) version_conflict
  ok (record r {
    latest_version = r.latest_version + 1;
    versions = r.versions ++ new_version (r.latest_version + 1) input ∷ [];
  })

unfoldable pub deactivate_entity : EntityRecord → ℕ → Result EntityRecord
deactivate_entity r expected_version = do
  require (expected_version == r.latest_version) version_conflict
  if not r.active then ok r else ok (record r { active = false })

unfoldable pub get_entity_version : EntityRecord → ℕ → Option EntityVersion
get_entity_version r version = find (λ v. v.version == version) r.versions
