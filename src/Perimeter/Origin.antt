-- ===== src/Perimeter/Origin.antt =====
-- The check of a request's origin of src/infrastructure/perimeter/perimeter.ts. `new URL` is a parameter: it gives
-- the origin and the host name of a text, or throws.
use culturago_stellar.Base.{
  Bool, false, not, Option, none, some, String, List, [], ◌∷◌, Result, ok, err, ◌>>=◌, ◌>>◌,
  require, or_fail, unauthorized, if◌then◌else◌, ◌==◌, text_eq, includes, trim, split_commas,
  before_colon, to_lower_case, JsMap, get,
}

pub record Url : Type 0 where
  pub origin : String
  pub hostname : String

-- The headers that the check reads.
pub record RequestHeaders : Type 0 where
  pub origin : Option String
  pub referer : Option String
  pub host : Option String

-- An empty header is as good as none.
abbrev pub header_given : Option String → Option String
header_given none = none
header_given (some s) = if s == "" then none else some s

module _ (parse_url : String → Option Url) where
  unfoldable pub normalize_origin : String → String
  normalize_origin input = elim (parse_url (trim input)) [
    | none ↦ ""
    | some url ↦ to_lower_case url.origin
  ]

  abbrev normalized : List String → List String
  normalized [] = []
  normalized (s ∷ ss) =
      if normalize_origin s == "" then normalized ss else normalize_origin s ∷ normalized ss

  abbrev parts : String × List String → List String
  parts (first, others) = first ∷ others

  abbrev trimmed_or_empty : Option String → String
  trimmed_or_empty none = ""
  trimmed_or_empty (some value) = trim value

  unfoldable pub get_trusted_origins : JsMap String → List String
  unfolding normalize_origin
  get_trusted_origins env =
      normalized (parts (split_commas (trimmed_or_empty (get "CULTURAGO_TRUSTED_ORIGINS" env))))

  -- The URL of the referer stands in only where there is no origin. Its origin must not be empty.
  abbrev pub referer_url : Option String → Result Url
  referer_url none = err unauthorized
  referer_url (some referer) = do
    url ← or_fail (parse_url referer) unauthorized
    require (not (url.origin == "")) unauthorized
    ok url

  unfoldable pub request_url : RequestHeaders → Result Url
  request_url request = elim (header_given request.origin) [
    | some origin ↦ or_fail (parse_url origin) unauthorized
    | none ↦ referer_url (header_given request.referer)
  ]

  abbrev same_host : RequestHeaders → Url → Bool
  same_host request url = elim request.host [
    | none ↦ false
    | some host ↦
        let name = to_lower_case (before_colon host) in
        if name == "" then false else to_lower_case url.hostname == name
  ]

  abbrev pub check_origin : Bool → List String → RequestHeaders → Url → Result (Unit {0})
  check_origin production [] request url =
      if production then err unauthorized else require (same_host request url) unauthorized
  check_origin production (first ∷ others) request url =
      require (includes (first ∷ others) (to_lower_case url.origin)) unauthorized

  abbrev pub is_production : Option String → Bool
  is_production none = false
  is_production (some value) = value == "production"

  unfoldable pub assert_origin_allowed : JsMap String → RequestHeaders → Result (Unit {0})
  unfolding request_url get_trusted_origins
  assert_origin_allowed env request = do
    url ← request_url request
    check_origin (is_production (get "NODE_ENV" env)) (get_trusted_origins env) request url
