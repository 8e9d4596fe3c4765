-- ===== src/UseCases/Memory.antt =====
-- tests/fixtures/inMemoryDatabaseGateway.ts: the port implemented by maps, and the proof that it is
-- lawful. It is the in-memory stand-in for the PostgreSQL adapter, which is not modelled.
use Prim.Native.String.{◌++◌}
use culturago_stellar.Base.{
  decimal, ℕ, ◌≡◌, arith, eq_iff, Bool, true, false, ◌&&◌, not, Option, none, some, String, [], ◌∷◌,
  Result, ok, err, already_exists, invalid_input, if◌then◌else◌, ◌==◌, text_eq, ltb, select, length,
  JsMap, get, set, values, get-set_self,
}
use culturago_stellar.Domain.Entities.{EntityRecord}
use culturago_stellar.Domain.Credentials.{CredentialRecord}
use culturago_stellar.Domain.Participation.{ParticipationRecord}
use culturago_stellar.UseCases.Database.{
  DatabaseGateway, IsLawful, IssuerOperatorLink, NewEntityDetails,
}

pub record Memory : Type 0 where
  pub entities : JsMap EntityRecord
  pub participations : JsMap ParticipationRecord
  pub links : JsMap IssuerOperatorLink
  pub credentials : JsMap CredentialRecord

abbrev pub pair_key : String → String → String
pair_key a b = a ++ "|" ++ b

unfoldable pub credential_business_key : String → String → String → ℕ → String
credential_business_key issuer_id subject_id event_id credential_type =
    issuer_id ++ "|" ++ subject_id ++ "|" ++ event_id ++ "|" ++ decimal credential_type

abbrev key_of : CredentialRecord → String
key_of r = credential_business_key r.issuer_id r.subject_id r.event_id r.credential_type

abbrev find_by_key : String → JsMap CredentialRecord → Option CredentialRecord
find_by_key key [] = none
find_by_key key ((id, r) ∷ m) = if key_of r == key then some r else find_by_key key m

abbrev has_duplicate : String → String → JsMap CredentialRecord → Bool
has_duplicate id key [] = false
has_duplicate id key ((other, r) ∷ m) =
    if not (other == id) && key_of r == key then true else has_duplicate id key m

abbrev shrinks : EntityRecord → Option EntityRecord → Bool
shrinks r none = false
shrinks r (some existing) = ltb (length r.versions) (length existing.versions)

unfoldable pub save_entity_record : EntityRecord → Option NewEntityDetails → Memory → Result Memory
save_entity_record r details db =
    if shrinks r (get r.entity_id db.entities)
    then err invalid_input
    else ok (record db { entities = set r.entity_id r db.entities })

unfoldable pub save_participation : ParticipationRecord → Memory → Result Memory
save_participation r db =
    ok (record db { participations = set (pair_key r.subject_id r.event_id) r db.participations })

unfoldable pub save_credential : CredentialRecord → Memory → Result Memory
save_credential r db =
    if has_duplicate r.credential_id (key_of r) db.credentials
    then err already_exists
    else ok (record db { credentials = set r.credential_id r db.credentials })

unfoldable pub find_credential_by_business_key :
    String → String → String → ℕ → Memory → Option CredentialRecord
find_credential_by_business_key issuer_id subject_id event_id type db =
    find_by_key (credential_business_key issuer_id subject_id event_id type) db.credentials

abbrev pub memory_gateway : DatabaseGateway Memory
memory_gateway = record {
  get_entity_record = λ id db. get id db.entities;
  save_entity_record = save_entity_record;
  get_participation = λ a b db. get (pair_key a b) db.participations;
  save_participation = save_participation;
  get_issuer_operator_link = λ a b db. get (pair_key a b) db.links;
  find_credential_by_business_key = find_credential_by_business_key;
  get_credential_by_id = λ id db. get id db.credentials;
  save_credential = save_credential;
  list_credentials_by_subject = λ id db. select (λ r. r.subject_id == id) (values db.credentials);
}

find_by_key-set :
    (r : CredentialRecord) (m : JsMap CredentialRecord)
    → has_duplicate r.credential_id (key_of r) m ≡ false
    → find_by_key (key_of r) (set r.credential_id r m) ≡ some r
unfolding set
find_by_key-set r [] h = ground (arith, eq_iff (key_of r) (key_of r))
find_by_key-set r ((id, q) ∷ m) h = ground (
  arith,
  find_by_key-set r m,
  eq_iff (key_of r) (key_of r),
  eq_iff (key_of q) (key_of r),
  eq_iff id r.credential_id,
)

entity_saved :
    (r : EntityRecord) (d : Option NewEntityDetails) (db db' : Memory)
    → save_entity_record r d db ≡ ok db'
    → get r.entity_id db'.entities ≡ some r
unfolding save_entity_record
entity_saved r d db db' h = ground (arith, get-set_self r.entity_id r db.entities)

credential_saved :
    (r : CredentialRecord) (db db' : Memory)
    → save_credential r db ≡ ok db'
    → (get r.credential_id db'.credentials ≡ some r)
      × (find_credential_by_business_key r.issuer_id r.subject_id r.event_id r.credential_type db'
          ≡ some r)
unfolding save_credential find_credential_by_business_key
credential_saved r db db' h =
    ground (arith, get-set_self r.credential_id r db.credentials, find_by_key-set r db.credentials)

participation_saved :
    (r : ParticipationRecord) (db db' : Memory)
    → save_participation r db ≡ ok db'
    → get (pair_key r.subject_id r.event_id) db'.participations ≡ some r
unfolding save_participation
participation_saved r db db' h =
    ground (arith, get-set_self (pair_key r.subject_id r.event_id) r db.participations)

credential_apart :
    (r : CredentialRecord) (db db' : Memory) (a b : String)
    → save_credential r db ≡ ok db'
    → (get (pair_key a b) db'.links ≡ get (pair_key a b) db.links)
      × (get (pair_key a b) db'.participations ≡ get (pair_key a b) db.participations)
unfolding save_credential
credential_apart r db db' a b h = ground arith

-- The in-memory database keeps the contract of the persistence port: what was saved is found by its keys as it was
-- saved (a credential by its identifier and by its business key), and saving a credential changes no
-- link and no participation.
pub memory_gateway-IsLawful : IsLawful memory_gateway
memory_gateway-IsLawful = record {
  entity_saved = entity_saved;
  participation_saved = participation_saved;
  credential_saved = credential_saved;
  credential_apart = credential_apart;
}
