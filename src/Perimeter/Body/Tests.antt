-- ===== src/Perimeter/Body/Tests.antt =====
-- The validation of bodies and of origins at concrete requests.
use culturago_stellar.Base.{
  ◌≡◌, refl, none, some, String, [], ◌∷◌, ok, err, invalid_input, fits, is_small_hex, to_lower_case,
  get, Option, JsMap, trim, split_commas, if◌then◌else◌, ◌==◌, text_eq,
}
use culturago_stellar.Base.Values.{null, string, object, field, end, Fields, field_of}
use culturago_stellar.Domain.Entities.{is_hex64}
use culturago_stellar.Domain.Tests.{digest}
use culturago_stellar.Stellar.Commands.{Command, register}
use culturago_stellar.Perimeter.Body.{validate_prepare_command}
use culturago_stellar.Perimeter.Body.Patterns.{is_small_uuid}
use culturago_stellar.Perimeter.Body.Commands.{
  Canonical, Made, body_of, validate_prepare_command-Made, validate_prepare_command-body_of,
}
use culturago_stellar.Perimeter.Origin.{
  Url, RequestHeaders, get_trusted_origins, normalize_origin, request_url, assert_origin_allowed,
}

abbrev request : Command
request = register (record {
  idempotency_key = "0b9c1f6e-1c51-4c0e-9f0a-0e6d3f3b2a10";
  actor_address = "GACTOR";
  entity_id = "5f0c7a52-8a52-4b6e-8d38-6f1f4d1c9b77";
  metadata_hash = digest;
  hash_schema = 1;
})

request-Canonical : Canonical request
unfolding is_small_uuid is_hex64 fits is_small_hex
request-Canonical = (refl, refl, refl, refl)

validate_prepare_command-body_of_example :
    validate_prepare_command (body_of request) "GACTOR" ≡ ok request
validate_prepare_command-body_of_example =
    validate_prepare_command-body_of request request-Canonical

validate_prepare_command-Made_example :
    (obj : Fields) × (body_of request ≡ object obj)
    × (field_of "actorAddress" obj ≡ none)
    × Made obj "GACTOR" request
validate_prepare_command-Made_example =
    validate_prepare_command-Made (body_of request) "GACTOR" request
      (validate_prepare_command-body_of request request-Canonical)

impersonating :
    validate_prepare_command
      (object (field "kind" (string "register_entity") (field "actorAddress" null end)))
      "GACTOR"
    ≡ err invalid_input
unfolding validate_prepare_command field_of
impersonating = refl

abbrev site : Url
site = record { origin = "https://culturago.example"; hostname = "culturago.example" }

abbrev parse_url : String → Option Url
parse_url s = if s == "https://culturago.example" then some site else none

abbrev env : JsMap String
env =
    ("NODE_ENV", "production") ∷ ("CULTURAGO_TRUSTED_ORIGINS", " https://culturago.example, x") ∷ []

abbrev headers : RequestHeaders
headers = record {
  origin = some "https://culturago.example";
  referer = none;
  host = some "other.example";
}

trusted : assert_origin_allowed parse_url env headers ≡ ok tt
unfolding assert_origin_allowed get_trusted_origins normalize_origin request_url get trim
    split_commas to_lower_case
trusted = refl
