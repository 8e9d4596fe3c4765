-- ===== src/Base/Errors.antt =====
-- src/domain/errors.ts: the typed domain errors, and fallible code as values.
use mathlib.Core.Bool.{Bool, true, false}
use mathlib.Core.Path.{◌≡◌, refl}
use mathlib.Core.Logic.{◌⊎◌, inl, inr, ◌≢◌}
use mathlib.Core.Option.{Option, none, some}
use culturago_stellar.Base.Tests.{Eq, enum_eq, ◌==◌}

pub data DomainErrorCode : Type 0 where
  unauthorized invalid_input already_exists not_found inactive : DomainErrorCode
  version_conflict already_revoked invalid_state_transition : DomainErrorCode
  participation_not_confirmed issuer_operator_not_linked : DomainErrorCode
  unknown_credential_type invalid_credential invalid_evidence : DomainErrorCode
  invalid_relationship rate_limited internal : DomainErrorCode

unfoldable pub DomainErrorCode-discrete : Discrete DomainErrorCode
DomainErrorCode-discrete = hlevel

instance abbrev pub error_code_eq : Eq DomainErrorCode
error_code_eq = enum_eq DomainErrorCode-discrete

-- What `throw` hands on: a `DomainError`, told by its code, or another `Error`.
pub data Error : Type 0 where
  domain_error : DomainErrorCode → Error
  other_error : Error

unfoldable pub is_domain_error : Error → Option DomainErrorCode → Bool
is_domain_error (domain_error c) none = true
is_domain_error (domain_error c) (some d) = c == d
is_domain_error other_error code = false

-- An `async` function without state: it throws a domain error or returns a value.
pub data Result {ℓ} (Value : Type ℓ) : Type ℓ where
  err : DomainErrorCode → Result Value
  ok : Value → Result Value

infixl 5 ◌>>=◌ ◌>>◌
abbrev pub ◌>>=◌ {ℓ κ} :
    {Value : Type ℓ} {Next : Type κ} → Result Value → (Value → Result Next) → Result Next
err code >>= next = err code
ok value >>= next = next value

abbrev pub ◌>>◌ {ℓ} : {Next : Type ℓ} → Result (Unit {0}) → Result Next → Result Next
first >> second = first >>= λ _. second

-- `if (!test) throw domainError(code)`
abbrev pub require : Bool → DomainErrorCode → Result (Unit {0})
require true e = ok tt
require false e = err e

-- `if (value === null) throw domainError(code)`, with the value after it.
abbrev pub or_fail {ℓ} : {A : Type ℓ} → Option A → DomainErrorCode → Result A
or_fail none e = err e
or_fail (some a) e = ok a

abbrev pub IsOk {ℓ} : {A : Type ℓ} → Result A → Type 0
IsOk (ok a) = Unit
IsOk (err e) = ⊥

pub ok_inj {ℓ} : {A : Type ℓ} {a b : A} → ok a ≡ ok b → a ≡ b
ok_inj h = cc h

pub Result-cases {ℓ} :
    {A : Type ℓ} (r : Result A) → ((a : A) × (r ≡ ok a)) ⊎ ((c : DomainErrorCode) × (r ≡ err c))
Result-cases (ok a) = inl (a, refl)
Result-cases (err c) = inr (c, refl)

-- Both steps of a chain that succeeded did.
pub then-eq-ok {ℓ} :
    {A : Type ℓ} (first : Result (Unit {0})) (second : Result A) (a : A)
    → (first >> second) ≡ ok a
    → (first ≡ ok tt) × (second ≡ ok a)
then-eq-ok (ok tt) second a h = (refl, h)
then-eq-ok (err code) second a h = cc

pub bind-eq-ok {ℓ κ} :
    {A : Type ℓ} {B : Type κ} (first : Result A) (next : A → Result B) (b : B)
    → (first >>= next) ≡ ok b
    → (a : A) × (first ≡ ok a) × (next a ≡ ok b)
bind-eq-ok (ok a) next b h = (a, refl, h)
bind-eq-ok (err code) next b h = cc

pub err-ne-ok {ℓ} : {A : Type ℓ} {code : DomainErrorCode} {a : A} → err code ≢ ok a
err-ne-ok h = cc h
