-- ===== src/UseCases/Database.antt =====
-- The persistence port (src/ports/DatabaseGateway.ts) as an interface: its operations on a database
-- state, and the contract that the use cases rely on (tests/contracts/databaseGateway.contract.ts).
use culturago_stellar.Base.{ℕ, ◌≡◌, Bool, Option, some, String, List, Result, ok, err}
use culturago_stellar.Domain.Entities.{EntityRecord}
use culturago_stellar.Domain.Credentials.{CredentialRecord}
use culturago_stellar.Domain.Participation.{ParticipationRecord}
use culturago_stellar.Domain.Relationships.{EntityKind}

pub record IssuerOperatorLink : Type 0 where
  pub issuer_id : String
  pub operator_id : String
  pub active : Bool

pub record NewEntityDetails : Type 0 where
  pub kind : EntityKind
  pub display_name : String
  pub slug : String
  pub country : String
  pub city : String

-- A save either gives the new state of the database or throws and changes nothing.
pub record DatabaseGateway (Db : Type 0) : Type 0 where
  pub get_entity_record : String → Db → Option EntityRecord
  pub save_entity_record : EntityRecord → Option NewEntityDetails → Db → Result Db
  pub get_participation : String → String → Db → Option ParticipationRecord
  pub save_participation : ParticipationRecord → Db → Result Db
  pub get_issuer_operator_link : String → String → Db → Option IssuerOperatorLink
  pub find_credential_by_business_key : String → String → String → ℕ → Db → Option CredentialRecord
  pub get_credential_by_id : String → Db → Option CredentialRecord
  pub save_credential : CredentialRecord → Db → Result Db
  pub list_credentials_by_subject : String → Db → List CredentialRecord

module _ {Db : Type 0} (g : DatabaseGateway Db) where
  open g use {
    get_entity_record, save_entity_record, get_participation, save_participation,
    get_issuer_operator_link, find_credential_by_business_key, get_credential_by_id,
    save_credential,
  }

  -- What a stored record is found by, and which other answers a save leaves as they were.
  pub record IsLawful : Type 0 where
    pub entity_saved :
        (r : EntityRecord) (d : Option NewEntityDetails) (db db' : Db)
        → save_entity_record r d db ≡ ok db'
        → get_entity_record r.entity_id db' ≡ some r
    pub participation_saved :
        (r : ParticipationRecord) (db db' : Db)
        → save_participation r db ≡ ok db'
        → get_participation r.subject_id r.event_id db' ≡ some r
    pub credential_saved :
        (r : CredentialRecord) (db db' : Db)
        → save_credential r db ≡ ok db'
        → (get_credential_by_id r.credential_id db' ≡ some r)
          × (find_credential_by_business_key r.issuer_id r.subject_id r.event_id r.credential_type
                db'
              ≡ some r)
    pub credential_apart :
        (r : CredentialRecord) (db db' : Db) (a b : String)
        → save_credential r db ≡ ok db'
        → (get_issuer_operator_link a b db' ≡ get_issuer_operator_link a b db)
          × (get_participation a b db' ≡ get_participation a b db)

-- A use case runs on the database; it returns or throws, with the state that it leaves.
abbrev pub Action : Type 0 → Type 0 → Type 0
Action Db A = Db → Db × Result A

abbrev pub resume : {Db A B : Type 0} → (A → Action Db B) → Db × Result A → Db × Result B
resume next (db, ok a) = next a db
resume next (db, err c) = (db, err c)

infixl 5 ◌>>=◌ ◌>>◌
abbrev pub ◌>>=◌ : {Db A B : Type 0} → Action Db A → (A → Action Db B) → Action Db B
◌>>=◌ action next db = resume next (action db)

abbrev pub ◌>>◌ : {Db B : Type 0} → Action Db (Unit {0}) → Action Db B → Action Db B
first >> second = first >>= λ _. second

abbrev pub return : {Db A : Type 0} → A → Action Db A
return a db = (db, ok a)

-- A synchronous call that may throw.
abbrev pub lift : {Db A : Type 0} → Result A → Action Db A
lift r db = (db, r)

-- A query.
abbrev pub query : {Db A : Type 0} → (Db → A) → Action Db A
query q db = (db, ok (q db))

-- An awaited save.
abbrev pub commit : {Db : Type 0} → (Db → Result Db) → Action Db (Unit {0})
commit save db = elim (save db) [ ok db' ↦ (db', ok tt) | err c ↦ (db, err c) ]
