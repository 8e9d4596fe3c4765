-- ===== src/Stellar/Chain/Ledger.antt =====
-- The state of the chain of src/infrastructure/stellar/InMemoryChainTransport.ts, and what a contract
-- call checks and changes in it.
use Prim.Native.String.{◌++◌}
use culturago_stellar.Base.{
  decimal, ℕ, suc, Bool, true, false, ◌||◌, ◌&&◌, not, Option, none, some, String, List, [], ◌∷◌,
  invalid_input, if◌then◌else◌, ◌==◌, text_eq, number_eq, option_beq, ltb, get_elem?, JsMap, get,
  set, has,
}
use culturago_stellar.Stellar.Transport.{
  ContractArg, address, bytes32, u32, optional_bytes32, ContractCallSpec, Attempt, threw, done,
  thrown_domain, thrown_error,
}

pub record EntityHead : Type 0 where
  pub entity_id : String
  pub latest_version : ℕ
  pub active : Bool
  pub metadata_hash : String
  pub hash_schema : ℕ
  pub ledger : ℕ

pub record ChainCredential : Type 0 where
  pub credential_id : String
  pub token_id : ℕ
  pub issuer_id : String
  pub subject_id : String
  pub event_id : String
  pub credential_type : ℕ
  pub metadata_hash : String
  pub hash_schema : ℕ
  pub revoked : Bool
  pub revoked_reason_hash : Option String
  pub revoked_ledger : Option ℕ
  pub issued_ledger : ℕ
  pub issued_by : Option String

pub data PendingStatus : Type 0 where
  is_pending is_success is_failed : PendingStatus

pub record Pending : Type 0 where
  pub status : PendingStatus
  pub ledger : ℕ

-- The versions of an entity are its hash and schema at each version number.
pub record Chain : Type 0 where
  pub ledger : ℕ
  pub entities : JsMap EntityHead
  pub entity_versions : JsMap (List (ℕ × String × ℕ))
  pub credentials : JsMap ChainCredential
  pub token_counter : ℕ
  pub business_keys : JsMap String
  pub pending : JsMap Pending
  pub next_submission_stays_pending : Bool
  pub next_poll_returns_null_ledger : Bool

infixl 5 ◌>>=◌
abbrev pub ◌>>=◌ : {A B : Type 0} → Attempt A → (A → Attempt B) → Attempt B
threw f >>= next = threw f
done a >>= next = next a

-- A missing argument is `undefined`, whose `kind` cannot be read.
abbrev pub arg_at : ContractCallSpec → ℕ → Attempt ContractArg
arg_at spec i = elim (get_elem? spec.args i) [
  | some arg ↦ done arg
  | none ↦ threw (thrown_error "Cannot read properties of undefined")
]

unfoldable pub hex_of : ContractArg → Attempt String
hex_of (bytes32 hex) = done hex
hex_of _ = threw (thrown_domain invalid_input)

unfoldable pub u32_of : ContractArg → Attempt ℕ
u32_of (u32 n) = done n
u32_of _ = threw (thrown_domain invalid_input)

unfoldable pub opt_hex_of : ContractArg → Attempt (Option String)
opt_hex_of (optional_bytes32 hex) = done hex
opt_hex_of _ = threw (thrown_domain invalid_input)

-- `(args[0] as { address }).address`, of whatever argument stands there.
abbrev pub address_of : ContractArg → Option String
address_of (address a) = some a
address_of _ = none

abbrev pub hex_at : ContractCallSpec → ℕ → Attempt String
hex_at spec i = arg_at spec i >>= hex_of

abbrev pub u32_at : ContractCallSpec → ℕ → Attempt ℕ
u32_at spec i = arg_at spec i >>= u32_of

abbrev pub business_key : String → String → String → ℕ → String
business_key issuer subject event type =
    issuer ++ "|" ++ subject ++ "|" ++ event ++ "|" ++ decimal type

abbrev differs : Option EntityHead → String → Bool
differs none hash = false
differs (some head) hash = not (head.metadata_hash == hash) || not (head.hash_schema == 1)

abbrev revocation_error : Option ChainCredential → Option String → Option String
revocation_error none reason = some "NOT_FOUND"
revocation_error (some c) reason =
    if c.revoked && not (option_beq c.revoked_reason_hash reason)
    then some "ALREADY_EXISTS"
    else none

unfoldable pub validate_registration : ContractCallSpec → Chain → Attempt (Option String)
unfolding hex_of u32_of
validate_registration spec c = do
  entity ← hex_at spec 1
  hash ← hex_at spec 2
  schema ← u32_at spec 3
  done (
      if not (schema == 1)
      then some "INVALID_INPUT"
      else if differs (get entity c.entities) hash
      then some "ALREADY_EXISTS"
      else none)

unfoldable pub validate_issuance : ContractCallSpec → Chain → Attempt (Option String)
unfolding hex_of u32_of
validate_issuance spec c = do
  id ← hex_at spec 1
  issuer ← hex_at spec 2
  subject ← hex_at spec 3
  event ← hex_at spec 4
  type ← u32_at spec 5
  schema ← u32_at spec 7
  done (
      if not (schema == 1)
      then some "INVALID_INPUT"
      else if ltb type 1 || ltb 6 type
      then some "UNKNOWN_CREDENTIAL_TYPE"
      else if has id c.credentials
      then none
      else if has (business_key issuer subject event type) c.business_keys
      then some "ALREADY_EXISTS"
      else none)

unfoldable pub validate_revocation : ContractCallSpec → Chain → Attempt (Option String)
unfolding hex_of opt_hex_of
validate_revocation spec c = do
  id ← hex_at spec 1
  arg ← arg_at spec 2
  reason ← opt_hex_of arg
  done (revocation_error (get id c.credentials) reason)

unfoldable pub validate : ContractCallSpec → Chain → Attempt (Option String)
unfolding validate_registration validate_issuance validate_revocation
validate spec c =
    if spec.method == "register_entity"
    then validate_registration spec c
    else if spec.method == "issue_credential"
    then validate_issuance spec c
    else if spec.method == "revoke_credential"
    then validate_revocation spec c
    else done (some "INVALID_INPUT")

unfoldable pub register : String → String → ℕ → Chain → Chain
register id hash schema c = if has id c.entities then c else record c {
  entities =
      set id
        (record {
          entity_id = id;
          latest_version = 1;
          active = true;
          metadata_hash = hash;
          hash_schema = schema;
          ledger = c.ledger;
        })
        c.entities;
  entity_versions = set id ((1, hash, schema) ∷ []) c.entity_versions;
}

abbrev pub minted :
    String → String → String → String → ℕ → String → ℕ → Option String → Chain → ChainCredential
minted id issuer subject event type hash schema by c = record {
  credential_id = id;
  token_id = suc c.token_counter;
  issuer_id = issuer;
  subject_id = subject;
  event_id = event;
  credential_type = type;
  metadata_hash = hash;
  hash_schema = schema;
  revoked = false;
  revoked_reason_hash = none;
  revoked_ledger = none;
  issued_ledger = c.ledger;
  issued_by = by;
}

-- The business key is taken and the token counted before the last arguments are read.
unfoldable pub start_mint : String → String → String → String → ℕ → Chain → Chain
start_mint id issuer subject event type c = record c {
  business_keys = set (business_key issuer subject event type) id c.business_keys;
  token_counter = suc c.token_counter;
}

unfoldable pub mint :
    String → String → String → String → ℕ → String → ℕ → Option String → Chain → Chain
unfolding start_mint
mint id issuer subject event type hash schema by c =
    record (start_mint id issuer subject event type c) {
      credentials = set id (minted id issuer subject event type hash schema by c) c.credentials;
    }

unfoldable pub revoke : String → Option String → Chain → Chain
revoke id reason c = elim (get id c.credentials) [
  | none ↦ c
  | some r ↦ if r.revoked then c else record c {
    credentials =
        set id
          (record r {
            revoked = true;
            revoked_reason_hash = reason;
            revoked_ledger = some c.ledger;
          })
          c.credentials;
  }
]

unfoldable pub registration_args : ContractCallSpec → Attempt (String × String × ℕ)
unfolding hex_of u32_of
registration_args spec = do
  id ← hex_at spec 1
  hash ← hex_at spec 2
  schema ← u32_at spec 3
  done (id, hash, schema)

unfoldable pub key_args : ContractCallSpec → Attempt (ℕ × String × String × String)
unfolding hex_of u32_of
key_args spec = do
  type ← u32_at spec 5
  issuer ← hex_at spec 2
  subject ← hex_at spec 3
  event ← hex_at spec 4
  done (type, issuer, subject, event)

unfoldable pub mint_args : ContractCallSpec → Attempt (String × ℕ × Option String)
unfolding hex_of u32_of
mint_args spec = do
  hash ← hex_at spec 6
  schema ← u32_at spec 7
  by ← arg_at spec 0
  done (hash, schema, address_of by)

unfoldable pub revocation_args : ContractCallSpec → Attempt (String × Option String)
unfolding hex_of opt_hex_of
revocation_args spec = do
  id ← hex_at spec 1
  arg ← arg_at spec 2
  reason ← opt_hex_of arg
  done (id, reason)

-- An argument that is not of its kind makes a call throw, with what was changed before it.
unfoldable pub mint_with :
    String
    → String
    → String
    → String
    → ℕ
    → Chain
    → Attempt (String × ℕ × Option String)
    → Chain × Attempt (Unit {0})
unfolding mint start_mint
mint_with id issuer subject event type c (threw f) =
    (start_mint id issuer subject event type c, threw f)
mint_with id issuer subject event type c (done (hash, schema, by)) =
    (mint id issuer subject event type hash schema by c, done tt)

unfoldable pub apply_new :
    ContractCallSpec
    → String
    → Chain
    → Attempt (ℕ × String × String × String)
    → Chain × Attempt (Unit {0})
unfolding mint_args mint_with
apply_new spec id c (threw f) = (c, threw f)
apply_new spec id c (done (type, issuer, subject, event)) =
    mint_with id issuer subject event type c (mint_args spec)

unfoldable pub apply_issuance :
    ContractCallSpec → Chain → Attempt String → Chain × Attempt (Unit {0})
unfolding key_args apply_new
apply_issuance spec c (threw f) = (c, threw f)
apply_issuance spec c (done id) =
    if has id c.credentials then (c, done tt) else apply_new spec id c (key_args spec)

unfoldable pub apply_registration :
    Chain → Attempt (String × String × ℕ) → Chain × Attempt (Unit {0})
unfolding register
apply_registration c (threw f) = (c, threw f)
apply_registration c (done (id, hash, schema)) = (register id hash schema c, done tt)

unfoldable pub apply_revocation :
    Chain → Attempt (String × Option String) → Chain × Attempt (Unit {0})
unfolding revoke
apply_revocation c (threw f) = (c, threw f)
apply_revocation c (done (id, reason)) = (revoke id reason c, done tt)

unfoldable pub apply : ContractCallSpec → Chain → Chain × Attempt (Unit {0})
unfolding hex_of registration_args revocation_args apply_registration apply_issuance
    apply_revocation
apply spec c =
    if spec.method == "register_entity"
    then apply_registration c (registration_args spec)
    else if spec.method == "issue_credential"
    then apply_issuance spec c (hex_at spec 1)
    else if spec.method == "revoke_credential"
    then apply_revocation c (revocation_args spec)
    else (c, done tt)
