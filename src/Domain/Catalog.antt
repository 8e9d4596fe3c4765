-- ===== src/Domain/Catalog.antt =====
-- The versioned catalog of credential types (src/domain/credentials/catalog.ts).
pub mod Codes
use culturago_stellar.Base.{
  ℕ, String, Bool, Option, none, some, List, [], ◌∷◌, map, ◌==◌, number_eq, text_eq, find, JsMap,
  get, has, is_some, if◌then◌else◌, Result, ok, err, or_fail, unknown_credential_type,
}

abbrev pub credential_catalog_version : ℕ
credential_catalog_version = 1

-- `CREDENTIAL_TYPES`, the entries in the order of the source.
unfoldable pub credential_types : JsMap ℕ
credential_types =
    ("dancer_participant", 1)
    ∷ ("school_participant", 2)
    ∷ ("teacher_director", 3)
    ∷ ("official_photographer", 4)
    ∷ ("official_videographer", 5)
    ∷ ("venue_sponsor", 6)
    ∷ []

-- `NAME_BY_CODE`: the entries turned round.
unfoldable pub name_by_code : List (ℕ × String)
unfolding credential_types
name_by_code = map (λ p. (p.1, p.0)) credential_types

abbrev lookup_code : ℕ → List (ℕ × String) → Option String
lookup_code c [] = none
lookup_code c ((d, name) ∷ rest) = if d == c then some name else lookup_code c rest

unfoldable pub credential_type_code : String → Result ℕ
unfolding credential_types get
credential_type_code name = or_fail (get name credential_types) unknown_credential_type

unfoldable pub credential_type_name : ℕ → Result String
unfolding name_by_code
credential_type_name code = or_fail (lookup_code code name_by_code) unknown_credential_type

unfoldable pub is_known_credential_type : String → Bool
unfolding credential_types get
is_known_credential_type name = has name credential_types
