-- ===== src/Stellar/Readback.antt =====
-- The readback of src/infrastructure/stellar/SorobanStellarGateway.ts: the conversions of a raw value,
-- and the comparison of a credential's record with what the intent expects.

use culturago_stellar.Base.{
  ℕ, ◌≡◌, ◌↔◌, arith, Bool, true, false, ◌&&◌, not, Option, none, some, String, Eq, option_beq,
  text_eq, number_eq, JsMap, get, to_lower_case,
}
use culturago_stellar.Stellar.Operation.{
  Expected, OperationKind, issue_credential, revoke_credential, register_entity, link_wallet,
  admin_provision, Intent,
}
use culturago_stellar.Stellar.Transport.{
  Leaf, js_boolean, js_number, js_bigint, js_text, js_bytes, js_address, Raw, raw_leaf, raw_object,
}

-- A field of an object; one that is not there is `undefined`.
abbrev pub field : String → JsMap Leaf → Option Leaf
field name object = get name object

unfoldable pub to_hex_string : Option Leaf → Option String
to_hex_string (some (js_text s)) = some (to_lower_case s)
to_hex_string (some (js_bytes hex)) = some hex
to_hex_string _ = none

unfoldable pub to_number : Option Leaf → Option ℕ
to_number (some (js_number n)) = some n
to_number (some (js_bigint n)) = some n
to_number _ = none

unfoldable pub to_bool : Option Leaf → Option Bool
to_bool (some (js_boolean b)) = some b
to_bool _ = none

unfoldable pub to_address_string : Option Leaf → Option String
to_address_string (some (js_text s)) = some s
to_address_string (some (js_address s)) = some s
to_address_string _ = none

abbrev pub bool_same : Bool → Bool → Bool
bool_same true b = b
bool_same false b = not b

pub bool_same_iff : (a b : Bool) → (bool_same a b ≡ true) ↔ (a ≡ b)
bool_same_iff a b = ground arith

instance abbrev pub bool_eq : Eq Bool
bool_eq = record { equal = bool_same; equal_iff = bool_same_iff }

-- `!(expected !== undefined && actual !== expected)`
abbrev pub agrees : {A : Type 0} ⦃test : Eq A⦄ → Option A → Option A → Bool
agrees none actual = true
agrees (some wanted) actual = option_beq actual (some wanted)

-- `!(ledger !== null && actual !== ledger)`, and the same for the reason, which may be `null` itself.
abbrev pub agrees_reason : Option (Option String) → Option String → Bool
agrees_reason none actual = true
agrees_reason (some wanted) actual = option_beq actual wanted

-- The comparisons that both kinds share.
unfoldable pub fields_match : JsMap Leaf → Expected → Bool
unfolding to_hex_string to_number to_bool to_address_string
fields_match r e =
    agrees e.credential_id (to_hex_string (field "credential_id" r))
    && agrees e.issuer_id (to_hex_string (field "issuer_id" r))
    && agrees e.subject_id (to_hex_string (field "subject_id" r))
    && agrees e.event_id (to_hex_string (field "event_id" r))
    && agrees e.credential_type (to_number (field "credential_type" r))
    && agrees e.metadata_hash (to_hex_string (field "metadata_hash" r))
    && agrees e.hash_schema (to_number (field "hash_schema" r))
    && agrees e.issued_by (to_address_string (field "issued_by" r))
    && agrees e.revoked (to_bool (field "revoked" r))

unfoldable pub record_matches : JsMap Leaf → Expected → Option ℕ → OperationKind → Bool
unfolding fields_match to_bool to_number to_hex_string
record_matches r e ledger issue_credential =
    fields_match r e
    && option_beq (to_bool (field "revoked" r)) (some false)
    && agrees ledger (to_number (field "issued_ledger" r))
record_matches r e ledger revoke_credential =
    fields_match r e
    && option_beq (to_bool (field "revoked" r)) (some true)
    && agrees ledger (to_number (field "revoked_ledger" r))
    && agrees_reason e.revoked_reason_hash (to_hex_string (field "revoked_reason_hash" r))
record_matches r e ledger _ = false

unfoldable pub credential_record_matches : Raw → Expected → Option ℕ → OperationKind → Bool
unfolding record_matches
credential_record_matches (raw_leaf leaf) e ledger kind = false
credential_record_matches (raw_object r) e ledger kind = record_matches r e ledger kind

abbrev pub is_true : Raw → Bool
is_true (raw_leaf (js_boolean true)) = true
is_true _ = false

abbrev pub expected_matches : Raw → Option Expected → Option ℕ → OperationKind → Bool
expected_matches raw none ledger kind = false
expected_matches raw (some e) ledger kind = credential_record_matches raw e ledger kind

-- `readbackMatches`, from the raw value on. A `null` is no record, so no kind accepts it.
unfoldable pub raw_matches : Intent → Option ℕ → Raw → Bool
unfolding credential_record_matches
raw_matches intent ledger raw = elim intent.kind [
  | register_entity ↦ is_true raw
  | issue_credential ↦ expected_matches raw intent.expected ledger issue_credential
  | revoke_credential ↦ expected_matches raw intent.expected ledger revoke_credential
  | link_wallet ↦ false
  | admin_provision ↦ false
]
