-- ===== src/Hashing.antt =====
-- src/infrastructure/hashing: the canonical form of a JSON value (canonicalize.ts), and the digest of a document
-- (canonicalHash.ts). A value is a tree, so that no value is cyclic. Every throw has one code, so that it
-- does not matter that the fields are sorted here after their values are written, and not before. A natural
-- number is one below 10^21, which JavaScript prints with all its digits.
pub mod Order
pub mod Reordering
pub mod Tests
use Prim.Native.Char.{code}
use Prim.Native.String.{◌++◌}
use culturago_stellar.Base.{
  ℕ, zero, suc, ◌+◌, ◌-◌, ◌/◌, ◌%◌, Bool, true, false, Option, none, some, String, List, [], ◌∷◌,
  Result, ok, err, ◌>>=◌, ◌>>◌, require, invalid_input, if◌then◌else◌, ltb, nat_beq, includes,
  text_eq, decimal, get_elem?,
}
use culturago_stellar.Base.Values.{
  Value, null, undefined, not_a_number, infinite, opaque, boolean, natural, number, string, array,
  object, Items, nil, cons, Fields, end, field,
}

abbrev hex_digits : List String
hex_digits =
    "0" ∷ "1" ∷ "2" ∷ "3" ∷ "4" ∷ "5" ∷ "6" ∷ "7" ∷ "8" ∷ "9" ∷ "a" ∷ "b" ∷ "c" ∷ "d" ∷ "e" ∷ "f"
    ∷ []

abbrev hex_digit : ℕ → String
hex_digit n = elim (get_elem? hex_digits n) [ some s ↦ s | none ↦ "" ]

-- The escape that `JSON.stringify` writes for a character, by its code point, where it writes one.
unfoldable pub escape : ℕ → Option String
escape c =
    if nat_beq c 34
    then some "\\\""
    else if nat_beq c 92
    then some "\\\\"
    else if nat_beq c 8
    then some "\\b"
    else if nat_beq c 9
    then some "\\t"
    else if nat_beq c 10
    then some "\\n"
    else if nat_beq c 12
    then some "\\f"
    else if nat_beq c 13
    then some "\\r"
    else if ltb c 32
    then some ("\\u00" ++ hex_digit (c / 16) ++ hex_digit (c % 16))
    else none

abbrev escaped : String → String
escaped String.[] = ""
escaped (String.◌∷◌ c s) =
    let rest = escaped s in
    elim (escape (code c)) [ none ↦ String.◌∷◌ c rest | some text ↦ text ++ rest ]

-- `JSON.stringify(s)` for a text.
unfoldable pub quoted : String → String
unfolding escape
quoted s = "\"" ++ escaped s ++ "\""

-- The UTF-16 code units of a code point, and of a text.
abbrev units_of_code : ℕ → List ℕ → List ℕ
units_of_code c rest =
    if ltb c 65536
    then c ∷ rest
    else (55296 + (c - 65536) / 1024) ∷ (56320 + (c - 65536) % 1024) ∷ rest

unfoldable pub units_of : String → List ℕ
units_of String.[] = []
units_of (String.◌∷◌ c s) = units_of_code (code c) (units_of s)

-- The order of `sort()`.
unfoldable pub before : List ℕ → List ℕ → Bool
before [] [] = false
before [] (d ∷ ds) = true
before (c ∷ cs) [] = false
before (c ∷ cs) (d ∷ ds) = if nat_beq c d then before cs ds else ltb c d

pub record Entry : Type 0 where
  pub key : String
  pub text : String

unfoldable pub insert_entry : Entry → List Entry → List Entry
unfolding before units_of
insert_entry e [] = e ∷ []
insert_entry e (x ∷ xs) =
    let rest = insert_entry e xs in
    if before (units_of e.key) (units_of x.key) then e ∷ x ∷ xs else x ∷ rest

abbrev join_more : List String → String
join_more [] = ""
join_more (s ∷ ss) = "," ++ s ++ join_more ss

-- `parts.join(',')`
abbrev join_commas : List String → String
join_commas [] = ""
join_commas (s ∷ ss) = s ++ join_more ss

abbrev entry_texts : List Entry → List String
entry_texts [] = []
entry_texts (e ∷ es) = (quoted e.key ++ ":" ++ e.text) ∷ entry_texts es

unfoldable mutual
  unfolding insert_entry quoted

  pub canonicalize_json : Value → Result String
  canonicalize_json null = ok "null"
  canonicalize_json undefined = err invalid_input
  canonicalize_json not_a_number = err invalid_input
  canonicalize_json infinite = err invalid_input
  canonicalize_json opaque = err invalid_input
  canonicalize_json (boolean b) = ok (if b then "true" else "false")
  canonicalize_json (natural n) = ok (decimal n)
  canonicalize_json (number s) = ok s
  canonicalize_json (string s) = ok (quoted s)
  canonicalize_json (array xs) = do parts ← canonical_items xs; ok ("[" ++ join_commas parts ++ "]")
  canonicalize_json (object fs) = do
    entries ← sorted_entries fs
    ok ("{" ++ join_commas (entry_texts entries) ++ "}")

  pub canonical_items : Items → Result (List String)
  canonical_items nil = ok []
  canonical_items (cons x xs) = do
    part ← canonicalize_json x
    parts ← canonical_items xs
    ok (part ∷ parts)

  pub sorted_entries : Fields → Result (List Entry)
  sorted_entries end = ok []
  sorted_entries (field k v fs) = do
    text ← canonicalize_json v
    entries ← sorted_entries fs
    ok (insert_entry (record { key = k; text = text }) entries)

abbrev pub known_schemas : List String
known_schemas = "culturago.entity.v1" ∷ "culturago.credential.v1" ∷ "culturago.fingerprint.v1" ∷ []

-- The text whose UTF-8 bytes are hashed.
unfoldable pub build_digest_input : String → String → String
build_digest_input schema canonical = "CULTURAGO\0" ++ schema ++ "\0" ++ canonical

unfoldable pub canonicalize : String → Value → Result String
unfolding canonicalize_json
canonicalize schema document = do
  require (includes known_schemas schema) invalid_input
  canonicalize_json document

unfoldable pub hash_document : (String → String) → String → Value → Result String
unfolding canonicalize_json build_digest_input
hash_document sha256 schema document = do
  require (includes known_schemas schema) invalid_input
  canonical ← canonicalize_json document
  ok (sha256 (build_digest_input schema canonical))
