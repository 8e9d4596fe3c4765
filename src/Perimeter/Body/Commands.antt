-- ===== src/Perimeter/Body/Commands.antt =====
-- The commands that a body of /api/sign/prepare can make.
use culturago_stellar.Base.{
  ◌≤◌, ◌≡◌, refl, subst, ap, ◌⊎◌, inl, inr, true, not, Option, none, some, is_some, String, List,
  Result, ok, err, ◌>>=◌, or_fail, require, invalid_input, then-eq-ok, bind-eq-ok, err-ne-ok,
  ok_inj, arith, text_eq, number_eq, every, includes,
}
use culturago_stellar.Base.Values.{
  Value, null, natural, string, object, Fields, end, field, field_of, keys_of,
}
use culturago_stellar.Domain.Entities.{is_hex64}
use culturago_stellar.Stellar.Commands.{Command, register, issue, revoke, actor_of}
use culturago_stellar.Perimeter.Body.{
  string_of, object_of, assert_uuid, assert_hex32, assert_optional_hex32, assert_no_extra_fields,
  assert_credential_type, assert_hash_schema, register_fields, issue_fields, revoke_fields,
  validate_register, validate_issue, validate_revoke, validate_kind, validate_prepare_command,
}
use culturago_stellar.Perimeter.Body.Patterns.{
  is_small_uuid, lower-uuid, lower-hex64, small_uuid-fixed, small_uuid-uuid, hex64-fixed, hex64-any,
}

abbrev pub HexOrNull : Option String → Type 0
HexOrNull none = Unit
HexOrNull (some h) = is_hex64 h ≡ true

-- The identifiers are UUIDs and the hashes digests, in small letters, and the numbers are in range.
abbrev pub Canonical : Command → Type 0
Canonical (register c) =
    (is_small_uuid c.idempotency_key ≡ true)
    × (is_small_uuid c.entity_id ≡ true)
    × (is_hex64 c.metadata_hash ≡ true)
    × (c.hash_schema ≡ 1)
Canonical (issue c) =
    (is_small_uuid c.idempotency_key ≡ true)
    × (is_small_uuid c.credential_id ≡ true)
    × (is_small_uuid c.issuer_id ≡ true)
    × (is_small_uuid c.subject_id ≡ true)
    × (is_small_uuid c.event_id ≡ true)
    × (1 ≤ c.credential_type)
    × (c.credential_type ≤ 6)
    × (is_hex64 c.metadata_hash ≡ true)
    × (c.hash_schema ≡ 1)
Canonical (revoke c) =
    (is_small_uuid c.idempotency_key ≡ true)
    × (is_small_uuid c.credential_id ≡ true)
    × HexOrNull c.reason_hash

-- What holds of the value of a result.
abbrev Holds {ℓ} : {A : Type ℓ} → (A → Type 0) → Result A → Type 0
Holds P (ok a) = P a
Holds P (err code) = Unit

string_cases :
    (value : Option Value) → (string_of value ≡ none) ⊎ ((s : String) × (value ≡ some (string s)))
string_cases none = inl refl
string_cases (some (string s)) = inr (s, refl)
string_cases (some null) = inl refl
string_cases (some Value.undefined) = inl refl
string_cases (some Value.not_a_number) = inl refl
string_cases (some Value.infinite) = inl refl
string_cases (some Value.opaque) = inl refl
string_cases (some (Value.boolean b)) = inl refl
string_cases (some (natural n)) = inl refl
string_cases (some (Value.number s)) = inl refl
string_cases (some (Value.array xs)) = inl refl
string_cases (some (object fs)) = inl refl

assert_uuid-Holds : (v : Option Value) → Holds (λ s. is_small_uuid s ≡ true) (assert_uuid v)
unfolding assert_uuid
assert_uuid-Holds v = elim (string_cases v) [
  | inl missing ↦ ground arith
  | inr (s, found) ↦ rw found (ground (arith, lower-uuid s))
]

assert_hex32-Holds : (v : Option Value) → Holds (λ s. is_hex64 s ≡ true) (assert_hex32 v)
unfolding assert_hex32
assert_hex32-Holds v = elim (string_cases v) [
  | inl missing ↦ ground arith
  | inr (s, found) ↦ rw found (ground (arith, lower-hex64 s))
]

assert_optional_hex32-Holds : (v : Option Value) → Holds HexOrNull (assert_optional_hex32 v)
unfolding assert_optional_hex32
assert_optional_hex32-Holds v = ground (arith, assert_hex32-Holds v)

abbrev pub fields_for : Command → List String
fields_for (register c) = register_fields
fields_for (issue c) = issue_fields
fields_for (revoke c) = revoke_fields

-- What a command has that was made of the fields of a body.
abbrev pub Made : Fields → String → Command → Type 0
Made obj actor c =
    Canonical c × (actor_of c ≡ actor) × (every (includes (fields_for c)) (keys_of obj) ≡ true)

validate_register-Canonical :
    (obj : Fields) (actor : String) → Holds (Made obj actor) (validate_register obj actor)
unfolding validate_register assert_no_extra_fields
validate_register-Canonical obj actor = ground (
  arith,
  assert_uuid-Holds (field_of "idempotencyKey" obj),
  assert_uuid-Holds (field_of "entityId" obj),
  assert_hex32-Holds (field_of "metadataHash" obj),
)

validate_revoke-Canonical :
    (obj : Fields) (actor : String) → Holds (Made obj actor) (validate_revoke obj actor)
unfolding validate_revoke assert_no_extra_fields
validate_revoke-Canonical obj actor = ground (
  arith,
  assert_uuid-Holds (field_of "idempotencyKey" obj),
  assert_uuid-Holds (field_of "credentialId" obj),
  assert_optional_hex32-Holds (field_of "reasonHash" obj),
)

validate_issue-Canonical :
    (obj : Fields) (actor : String) → Holds (Made obj actor) (validate_issue obj actor)
unfolding validate_issue assert_no_extra_fields assert_credential_type
validate_issue-Canonical obj actor = ground (
  arith,
  assert_uuid-Holds (field_of "idempotencyKey" obj),
  assert_uuid-Holds (field_of "credentialId" obj),
  assert_uuid-Holds (field_of "issuerId" obj),
  assert_uuid-Holds (field_of "subjectId" obj),
  assert_uuid-Holds (field_of "eventId" obj),
  assert_hex32-Holds (field_of "metadataHash" obj),
)

validate_kind-Made :
    (kind : String) (obj : Fields) (actor : String)
    → Holds (Made obj actor) (validate_kind kind obj actor)
unfolding validate_kind
validate_kind-Made kind obj actor = ground (
  arith,
  validate_register-Canonical obj actor,
  validate_issue-Canonical obj actor,
  validate_revoke-Canonical obj actor,
)

Holds-ok : {A : Type 0} (P : A → Type 0) (r : Result A) (a : A) → Holds P r → r ≡ ok a → P a
Holds-ok P (ok b) a h e = subst P (ok_inj e) h
Holds-ok P (err code) a h e = cc

object_cases : (raw : Value) → (object_of raw ≡ none) ⊎ ((obj : Fields) × (raw ≡ object obj))
object_cases (object fs) = inr (fs, refl)
object_cases null = inl refl
object_cases Value.undefined = inl refl
object_cases Value.not_a_number = inl refl
object_cases Value.infinite = inl refl
object_cases Value.opaque = inl refl
object_cases (Value.boolean b) = inl refl
object_cases (natural n) = inl refl
object_cases (Value.number t) = inl refl
object_cases (string t) = inl refl
object_cases (Value.array xs) = inl refl

validate_object-Made :
    (obj : Fields) (actor : String) (c : Command)
    → validate_prepare_command (object obj) actor ≡ ok c
    → (field_of "actorAddress" obj ≡ none) × Made obj actor c
unfolding validate_prepare_command
validate_object-Made obj actor c h =
    let kind : Result String = or_fail (string_of (field_of "kind" obj)) invalid_input in
    let (free, rest) =
      then-eq-ok (require (not (is_some (field_of "actorAddress" obj))) invalid_input)
        (kind >>= λ k. validate_kind k obj actor) c h in
    let (k, found, valid) = bind-eq-ok kind (λ k. validate_kind k obj actor) c rest in
    (ground arith, Holds-ok (Made obj actor) _ c (validate_kind-Made k obj actor) valid)

-- A body that is let through is an object without a field `actorAddress`, has only the fields of its kind, and
-- makes a command that acts as the given actor, with identifiers and digests in small letters and the
-- numbers in range.
pub validate_prepare_command-Made :
    (raw : Value) (actor : String) (c : Command)
    → validate_prepare_command raw actor ≡ ok c
    → (obj : Fields) × (raw ≡ object obj) × (field_of "actorAddress" obj ≡ none) × Made obj actor c
unfolding validate_prepare_command
validate_prepare_command-Made raw actor c h = elim (object_cases raw) [
  | inl missing ↦ absurd (err-ne-ok (rw (validate_prepare_command, missing) at h))
  | inr (obj, found) ↦
      let (free, made) = validate_object-Made obj actor c (rw found at h) in
      (obj, found, free, made)
]

-- The body that asks for a command.
abbrev or_null : Option String → Value
or_null none = null
or_null (some s) = string s

abbrev pub body_of : Command → Value
body_of (register c) = object (
    field "kind" (string "register_entity") (
      field "idempotencyKey" (string c.idempotency_key) (
        field "entityId" (string c.entity_id) (field "metadataHash" (string c.metadata_hash) end))))
body_of (issue c) = object (
    field "kind" (string "issue_credential") (
      field "idempotencyKey" (string c.idempotency_key) (
        field "credentialId" (string c.credential_id) (
          field "issuerId" (string c.issuer_id) (
            field "subjectId" (string c.subject_id) (
              field "eventId" (string c.event_id) (
                field "credentialType" (natural c.credential_type) (
                  field "metadataHash" (string c.metadata_hash)
                    (field "hashSchema" (natural 1) end)))))))))
body_of (revoke c) = object (
    field "kind" (string "revoke_credential") (
      field "idempotencyKey" (string c.idempotency_key) (
        field "credentialId" (string c.credential_id)
          (field "reasonHash" (or_null c.reason_hash) end))))

assert_uuid-small : (s : String) → is_small_uuid s ≡ true → assert_uuid (some (string s)) ≡ ok s
unfolding assert_uuid
assert_uuid-small s h = rw (small_uuid-uuid s h) (ap ok (small_uuid-fixed s h))

assert_hex32-small : (s : String) → is_hex64 s ≡ true → assert_hex32 (some (string s)) ≡ ok s
unfolding assert_hex32
assert_hex32-small s h = rw (hex64-any s h) (ap ok (hex64-fixed s h))

assert_optional_hex32-small :
    (o : Option String) → HexOrNull o → assert_optional_hex32 (some (or_null o)) ≡ ok o
unfolding assert_optional_hex32
assert_optional_hex32-small none h = refl
assert_optional_hex32-small (some s) h = rw (assert_hex32-small s h)

-- Every canonical command is what its body makes: the validation loses no command, and changes none.
pub validate_prepare_command-body_of :
    (c : Command) → Canonical c → validate_prepare_command (body_of c) (actor_of c) ≡ ok c
unfolding validate_prepare_command validate_kind validate_register validate_issue validate_revoke
    assert_no_extra_fields assert_credential_type assert_hash_schema field_of
validate_prepare_command-body_of (register c) (key, id, hash, schema) = ground (
  arith,
  assert_uuid-small c.idempotency_key key,
  assert_uuid-small c.entity_id id,
  assert_hex32-small c.metadata_hash hash,
)
validate_prepare_command-body_of (issue c)
      (key, id, issuer, subject, event, low, high, hash, schema) =
    ground (
      arith,
      assert_uuid-small c.idempotency_key key,
      assert_uuid-small c.credential_id id,
      assert_uuid-small c.issuer_id issuer,
      assert_uuid-small c.subject_id subject,
      assert_uuid-small c.event_id event,
      assert_hex32-small c.metadata_hash hash,
    )
validate_prepare_command-body_of (revoke c) (key, id, hash) = ground (
  arith,
  assert_uuid-small c.idempotency_key key,
  assert_uuid-small c.credential_id id,
  assert_optional_hex32-small c.reason_hash hash,
)
