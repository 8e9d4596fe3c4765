-- ===== src/Routes/Server.antt =====
-- What a request handler works on, and the calls that it makes: each returns or throws, with the state that it leaves.
use culturago_stellar.Base.{
  ℕ, ◌≡◌, refl, Option, String, Result, ok, err, JsMap, unauthorized, rate_limited,
  DomainErrorCode-discrete, error_code_eq, ◌==◌, if◌then◌else◌,
}
use culturago_stellar.Base.Values.{Value}
use culturago_stellar.Auth.Identity.{Identities}
use culturago_stellar.Perimeter.Origin.{Url, RequestHeaders}
use culturago_stellar.Perimeter.Rate.{LimitEntry}
use culturago_stellar.Stellar.Commands.{Config}
use culturago_stellar.Stellar.Gateway.Prepare.{Host}
use culturago_stellar.Stellar.Transport.{
  World, Act, SorobanTransport, Failure, thrown_domain, thrown_error, thrown_value, Attempt, threw,
  done, attempt_of,
}
use culturago_stellar.UseCases.Database.{DatabaseGateway}

pub record Server (Chain Db : Type 0) : Type 0 where
  pub world : World Chain
  pub db : Db
  pub limits : JsMap LimitEntry
  pub identities : Identities

-- The environment, the clock, and the code outside the repository that a handler calls. `gateway_config` is
-- the network configuration of the gateway, or what its construction throws.
pub record Site (Chain Db : Type 0) : Type 0 where
  pub env : JsMap String
  pub parse_url : String → Option Url
  pub parse_json : String → Option Value
  pub sha256 : String → String
  pub gateway_config : Attempt Config
  pub host : Host
  pub transport : SorobanTransport Chain
  pub gateway : DatabaseGateway Db
  pub default_rate_limit : ℕ
  pub default_relayer_budget : ℕ
  pub now : ℕ
  pub now_text : String

pub record Request : Type 0 where
  pub headers : RequestHeaders
  pub session_cookie : Option String
  pub body : String

abbrev pub Call : Type 0 → Type 0 → Type 0 → Type 0
Call Chain Db A = Server Chain Db → Server Chain Db × Attempt A

abbrev pub proceed :
    {Chain Db A B : Type 0}
    → (A → Call Chain Db B)
    → Server Chain Db × Attempt A
    → Server Chain Db × Attempt B
proceed next (s, done a) = next a s
proceed next (s, threw f) = (s, threw f)

infixl 5 ◌>>=◌ ◌>>◌
abbrev pub ◌>>=◌ :
    {Chain Db A B : Type 0} → Call Chain Db A → (A → Call Chain Db B) → Call Chain Db B
◌>>=◌ call next s = proceed next (call s)

abbrev pub ◌>>◌ :
    {Chain Db B : Type 0} → Call Chain Db (Unit {0}) → Call Chain Db B → Call Chain Db B
first >> second = first >>= λ _. second

abbrev pub return : {Chain Db A : Type 0} → A → Call Chain Db A
return a s = (s, done a)

-- A synchronous check.
abbrev pub checked : {Chain Db A : Type 0} → Result A → Call Chain Db A
checked r s = (s, attempt_of r)

-- A synchronous call of other code.
abbrev pub tried : {Chain Db A : Type 0} → Attempt A → Call Chain Db A
tried a s = (s, a)

-- A check that reads the accounts and the sessions.
abbrev pub identified : {Chain Db A : Type 0} → (Identities → Result A) → Call Chain Db A
identified check s = (s, attempt_of (check s.identities))

-- A change of the accounts, as the identity store makes it.
abbrev pub enrolled : {Chain Db A : Type 0} → (Identities → Identities × Result A) → Call Chain Db A
enrolled change s =
    let (identities, r) = change s.identities in
    (record s { identities = identities }, attempt_of r)

-- A hit of a limit.
abbrev pub limited :
    {Chain Db : Type 0}
    → (JsMap LimitEntry → JsMap LimitEntry × Result (Unit {0}))
    → Call Chain Db (Unit {0})
limited hit s = let (limits, r) = hit s.limits in (record s { limits = limits }, attempt_of r)

-- A call of the gateway or of its store.
abbrev pub on_world : {Chain Db A : Type 0} → Act Chain A → Call Chain Db A
on_world act s = let (w, a) = act s.world in (record s { world = w }, a)

abbrev pub asked : {Chain Db A : Type 0} → (Db → A) → Call Chain Db A
asked q s = (s, done (q s.db))

-- A save: it throws and changes nothing, or succeeds.
abbrev pub saved : {Chain Db : Type 0} → (Db → Result Db) → Call Chain Db (Unit {0})
saved save s = elim (save s.db) [
  | ok db ↦ (record s { db = db }, done tt)
  | err code ↦ (s, threw (thrown_domain code))
]

-- The status of an answer after a throw.
unfoldable pub status_of : Failure → ℕ
unfolding DomainErrorCode-discrete
status_of (thrown_domain code) =
    if code == unauthorized then 401 else if code == rate_limited then 429 else 400
status_of (thrown_error message) = 500
status_of thrown_value = 500

-- Both parts of a chain that returned did.
pub bind-done :
    {Chain Db A B : Type 0} (call : Call Chain Db A) (next : A → Call Chain Db B)
    (s s' : Server Chain Db) (b : B)
    → (call >>= next) s ≡ (s', done b)
    → (t : Server Chain Db) × (a : A) × (call s ≡ (t, done a)) × (next a t ≡ (s', done b))
bind-done {Chain} {Db} {A} call next s s' b = split (call s) refl
  where
    split :
        (r : Server Chain Db × Attempt A)
        → call s ≡ r
        → proceed next r ≡ (s', done b)
        → (t : Server Chain Db) × (a : A) × (call s ≡ (t, done a)) × (next a t ≡ (s', done b))
    split (t, done a) e h = (t, a, e, h)
    split (t, threw f) e h = cc
