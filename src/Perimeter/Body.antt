-- ===== src/Perimeter/Body.antt =====
-- src/infrastructure/perimeter/perimeter.ts: the validation of request bodies. `JSON.parse` is an argument of
-- `parse_strict_json`; the configuration that the environment gives is one of `validate_submit_body`.
pub mod Patterns
pub mod Commands
pub mod Tests
use Prim.Native.String.{len}
use culturago_stellar.Base.{
  ℕ, suc, ◌-◌, ◌%◌, Bool, true, false, not, ◌&&◌, ◌||◌, Option, none, some, is_some, String, List,
  [], ◌∷◌, Result, ok, err, ◌>>=◌, ◌>>◌, require, or_fail, invalid_input, if◌then◌else◌, ◌==◌,
  text_eq, number_eq, leb, nat_beq, includes, every, length, codes, to_lower_case, Class, repeat,
  fits, uuid_of, is_any_hex, is_base32, is_base64, trim,
}
use culturago_stellar.Base.Values.{
  Value, null, boolean, natural, number, string, array, object, Fields, field_of, keys_of,
  is_truthy,
}
use culturago_stellar.Config.Env.{PublicConfig, is_demo}
use culturago_stellar.Stellar.Commands.{Command, register, issue, revoke}

pub record SubmitBody : Type 0 where
  pub operation_id : String
  pub signed_xdr : String
  pub signer_address : String

pub record DeployBody : Type 0 where
  pub signed_tx : String
  pub contract_id : String
  pub key_id : Option String
  pub wallet_wasm_hash : Option String

unfoldable pub is_uuid : String → Bool
is_uuid s = fits (uuid_of is_any_hex) (codes s)

unfoldable pub is_any_hex64 : String → Bool
is_any_hex64 s = fits (repeat 64 is_any_hex) (codes s)

unfoldable pub is_stellar_address : String → Bool
is_stellar_address s = fits ((λ c. nat_beq c 71 || nat_beq c 67) ∷ repeat 55 is_base32) (codes s)

unfoldable pub is_contract_id : String → Bool
is_contract_id s = fits ((λ c. nat_beq c 67) ∷ repeat 55 is_base32) (codes s)

-- `typeof value === 'string'`, with the text.
abbrev pub string_of : Option Value → Option String
string_of (some (string s)) = some s
string_of _ = none

abbrev pub assert_text : (String → Bool) → Option Value → Result String
assert_text test value = do
  s ← or_fail (string_of value) invalid_input
  require (test s) invalid_input
  ok s

unfoldable pub assert_uuid : Option Value → Result String
unfolding is_uuid
assert_uuid value = do s ← assert_text is_uuid value; ok (to_lower_case s)

unfoldable pub assert_hex32 : Option Value → Result String
unfolding is_any_hex64
assert_hex32 value = do s ← assert_text is_any_hex64 value; ok (to_lower_case s)

-- `value === null`: a missing field is no `null`.
abbrev pub is_null : Option Value → Bool
is_null (some null) = true
is_null _ = false

unfoldable pub assert_optional_hex32 : Option Value → Result (Option String)
unfolding assert_hex32
assert_optional_hex32 value =
    if is_null value then ok none else (assert_hex32 value >>= λ s. ok (some s))

abbrev is_not_empty : String → Bool
is_not_empty s = not (s == "")

unfoldable pub assert_string : Option Value → Result String
assert_string value = assert_text is_not_empty value

unfoldable pub assert_stellar_address : Option Value → Result String
unfolding is_stellar_address
assert_stellar_address value = assert_text is_stellar_address value

abbrev is_base64_text : String → Bool
is_base64_text s = is_base64 (codes s) && nat_beq (length (codes s) % 4) 0

unfoldable pub assert_base64 : Option Value → Result String
assert_base64 value = do
  s ← assert_text is_not_empty value
  require (is_base64_text s) invalid_input
  ok s

unfoldable pub assert_contract_id : Option Value → Result String
unfolding is_contract_id
assert_contract_id value = assert_text is_contract_id value

unfoldable pub assert_no_extra_fields : List String → Fields → Result (Unit {0})
assert_no_extra_fields allowed obj = require (every (includes allowed) (keys_of obj)) invalid_input

-- `!raw || typeof raw !== 'object' || Array.isArray(raw)` refuses.
abbrev pub object_of : Value → Option Fields
object_of (object fields) = some fields
object_of _ = none

abbrev pub register_fields : List String
register_fields = "kind" ∷ "idempotencyKey" ∷ "entityId" ∷ "metadataHash" ∷ "hashSchema" ∷ []

abbrev pub issue_fields : List String
issue_fields =
    "kind" ∷ "idempotencyKey" ∷ "credentialId" ∷ "issuerId" ∷ "subjectId" ∷ "eventId"
    ∷ "credentialType" ∷ "metadataHash" ∷ "hashSchema" ∷ []

abbrev pub revoke_fields : List String
revoke_fields = "kind" ∷ "idempotencyKey" ∷ "credentialId" ∷ "reasonHash" ∷ []

unfoldable pub validate_register : Fields → String → Result Command
unfolding assert_no_extra_fields assert_uuid assert_hex32
validate_register obj actor_address = do
  assert_no_extra_fields register_fields obj
  key ← assert_uuid (field_of "idempotencyKey" obj)
  entity_id ← assert_uuid (field_of "entityId" obj)
  metadata_hash ← assert_hex32 (field_of "metadataHash" obj)
  ok (
      register (record {
        idempotency_key = key;
        actor_address = actor_address;
        entity_id = entity_id;
        metadata_hash = metadata_hash;
        hash_schema = 1;
      }))

abbrev pub natural_of : Option Value → Option ℕ
natural_of (some (natural n)) = some n
natural_of _ = none

-- A number that is no natural one is no integer from 1 to 6.
unfoldable pub assert_credential_type : Option Value → Result ℕ
assert_credential_type value = do
  n ← or_fail (natural_of value) invalid_input
  require (leb 1 n && leb n 6) invalid_input
  ok n

unfoldable pub assert_hash_schema : Option Value → Result (Unit {0})
assert_hash_schema value = do
  n ← or_fail (natural_of value) invalid_input
  require (n == 1) invalid_input

unfoldable pub validate_issue : Fields → String → Result Command
unfolding assert_no_extra_fields assert_uuid assert_hex32 assert_credential_type assert_hash_schema
validate_issue obj actor_address = do
  assert_no_extra_fields issue_fields obj
  credential_type ← assert_credential_type (field_of "credentialType" obj)
  assert_hash_schema (field_of "hashSchema" obj)
  key ← assert_uuid (field_of "idempotencyKey" obj)
  credential_id ← assert_uuid (field_of "credentialId" obj)
  issuer_id ← assert_uuid (field_of "issuerId" obj)
  subject_id ← assert_uuid (field_of "subjectId" obj)
  event_id ← assert_uuid (field_of "eventId" obj)
  metadata_hash ← assert_hex32 (field_of "metadataHash" obj)
  ok (
      issue (record {
        idempotency_key = key;
        actor_address = actor_address;
        credential_id = credential_id;
        issuer_id = issuer_id;
        subject_id = subject_id;
        event_id = event_id;
        credential_type = credential_type;
        metadata_hash = metadata_hash;
        hash_schema = 1;
      }))

unfoldable pub validate_revoke : Fields → String → Result Command
unfolding assert_no_extra_fields assert_uuid assert_optional_hex32
validate_revoke obj actor_address = do
  assert_no_extra_fields revoke_fields obj
  key ← assert_uuid (field_of "idempotencyKey" obj)
  credential_id ← assert_uuid (field_of "credentialId" obj)
  reason_hash ← assert_optional_hex32 (field_of "reasonHash" obj)
  ok (
      revoke (record {
        idempotency_key = key;
        actor_address = actor_address;
        credential_id = credential_id;
        reason_hash = reason_hash;
      }))

-- The `switch` on the kind.
unfoldable pub validate_kind : String → Fields → String → Result Command
unfolding validate_register validate_issue validate_revoke
validate_kind kind obj actor_address =
    if kind == "register_entity"
    then validate_register obj actor_address
    else if kind == "issue_credential"
    then validate_issue obj actor_address
    else if kind == "revoke_credential"
    then validate_revoke obj actor_address
    else err invalid_input

unfoldable pub validate_prepare_command : Value → String → Result Command
unfolding validate_kind
validate_prepare_command raw actor_address = do
  obj ← or_fail (object_of raw) invalid_input
  require (not (is_some (field_of "actorAddress" obj))) invalid_input
  kind ← or_fail (string_of (field_of "kind" obj)) invalid_input
  validate_kind kind obj actor_address

unfoldable pub validate_submit_body : Result PublicConfig → Value → Result SubmitBody
unfolding assert_no_extra_fields assert_uuid assert_string assert_base64 assert_stellar_address
validate_submit_body loaded raw = do
  obj ← or_fail (object_of raw) invalid_input
  assert_no_extra_fields ("operationId" ∷ "signedXdr" ∷ "signerAddress" ∷ []) obj
  config ← loaded
  operation_id ← assert_uuid (field_of "operationId" obj)
  signed_xdr ←
      (if is_demo config
        then assert_string (field_of "signedXdr" obj)
        else assert_base64 (field_of "signedXdr" obj))
  signer_address ←
      (if is_demo config
        then assert_string (field_of "signerAddress" obj)
        else assert_stellar_address (field_of "signerAddress" obj))
  ok (record {
    operation_id = operation_id;
    signed_xdr = signed_xdr;
    signer_address = signer_address;
  })

-- `value ? assertString(value) : null`
abbrev pub assert_if_given : Option Value → Result (Option String)
assert_if_given none = ok none
assert_if_given (some v) =
    if is_truthy v then (assert_string (some v) >>= λ s. ok (some s)) else ok none

unfoldable pub validate_deploy_body : Value → Result DeployBody
unfolding assert_no_extra_fields assert_base64 assert_contract_id assert_string
validate_deploy_body raw = do
  obj ← or_fail (object_of raw) invalid_input
  assert_no_extra_fields ("signedTx" ∷ "contractId" ∷ "keyId" ∷ "walletWasmHash" ∷ []) obj
  signed_tx ← assert_base64 (field_of "signedTx" obj)
  contract_id ← assert_contract_id (field_of "contractId" obj)
  key_id ← assert_if_given (field_of "keyId" obj)
  wallet_wasm_hash ← assert_if_given (field_of "walletWasmHash" obj)
  ok (record {
    signed_tx = signed_tx;
    contract_id = contract_id;
    key_id = key_id;
    wallet_wasm_hash = wallet_wasm_hash;
  })

-- The size is that of the UTF-8 text.
unfoldable pub assert_body_size : String → ℕ → Result (Unit {0})
assert_body_size body max_bytes = require (leb (len body) max_bytes) invalid_input

abbrev pub max_body_bytes : ℕ
max_body_bytes = 65536

unfoldable pub parse_strict_json : (String → Option Value) → ℕ → String → Result (String × Value)
unfolding assert_body_size
parse_strict_json parse max_bytes body = do
  require (not (trim body == "")) invalid_input
  assert_body_size body max_bytes
  parsed ← or_fail (parse body) invalid_input
  obj ← or_fail (object_of parsed) invalid_input
  ok (body, parsed)
