-- ===== src/Stellar/Chain/Immutability.antt =====
-- What no contract call changes.
use culturago_stellar.Stellar.Chain.Port.{
  Codec, enter, submit_checked, submit_decoded, submit, decoded,
}
use culturago_stellar.Base.{
  suc, ℕ, ◌≡◌, refl, true, false, Option, none, some, String, arith, eq_iff, get, has, Option-cases,
  inl, inr, subst, sym, get-set, text_eq,
}
use culturago_stellar.Stellar.Transport.{ContractCallSpec, Attempt, done, threw}
use culturago_stellar.Stellar.Chain.Ledger.{
  Chain, ChainCredential, validate, minted, start_mint, mint, mint_with, revoke, register, apply,
  apply_new, apply_issuance, apply_registration, apply_revocation, mint_args, key_args,
  registration_args, revocation_args, hex_at,
}

-- The attested part of a credential: all but its revocation.
abbrev pub attested : Option ChainCredential → Option ChainCredential
attested none = none
attested (some r) =
    some (record r { revoked = false; revoked_reason_hash = none; revoked_ledger = none })

-- A credential keeps what it attests, and its revocation once it has one.
abbrev pub Kept : Option ChainCredential → Option ChainCredential → Type 0
Kept none after = Unit
Kept (some r) after = (attested after ≡ attested (some r)) × (r.revoked ≡ true → after ≡ some r)

Kept-refl : (o : Option ChainCredential) → Kept o o
Kept-refl none = tt
Kept-refl (some r) = (refl, λ h. refl)

mint-Kept :
    (k id issuer subject event : String) (type : ℕ) (hash : String) (schema : ℕ)
    (by : Option String) (c : Chain)
    → has id c.credentials ≡ false
    → Kept
        (get k c.credentials)
        (get k (mint id issuer subject event type hash schema by c).credentials)
unfolding mint start_mint
mint-Kept k id issuer subject event type hash schema by c h = ground (
  arith,
  get-set id k (minted id issuer subject event type hash schema by c) c.credentials,
  eq_iff id k,
)

revoke_missing :
    (id : String) (reason : Option String) (c : Chain)
    → get id c.credentials ≡ none
    → revoke id reason c ≡ c
unfolding revoke
revoke_missing id reason c e = ground arith

revoke-Kept :
    (k id : String) (reason : Option String) (c : Chain)
    → Kept (get k c.credentials) (get k (revoke id reason c).credentials)
unfolding revoke
revoke-Kept k id reason c = elim (Option-cases (get id c.credentials)) [
  | inl e ↦
      subst (λ x. Kept (get k c.credentials) (get k x.credentials))
        (sym (revoke_missing id reason c e)) (Kept-refl (get k c.credentials))
  | inr (r, e) ↦ ground (
    arith,
    e,
    eq_iff id k,
    get-set id k
        (record r { revoked = true; revoked_reason_hash = reason; revoked_ledger = some c.ledger })
        c.credentials,
  )
]

-- The credential `k` before and after a call.
abbrev KeptBy : String → Chain → Chain × Attempt (Unit {0}) → Type 0
KeptBy k c result = Kept (get k c.credentials) (get k result.0.credentials)

mint_with-KeptBy :
    (k id issuer subject event : String) (type : ℕ) (c : Chain)
    (args : Attempt (String × ℕ × Option String))
    → has id c.credentials ≡ false
    → KeptBy k c (mint_with id issuer subject event type c args)
unfolding mint_with start_mint
mint_with-KeptBy k id issuer subject event type c (threw f) h = Kept-refl (get k c.credentials)
mint_with-KeptBy k id issuer subject event type c (done (hash, schema, by)) h =
    mint-Kept k id issuer subject event type hash schema by c h

apply_new-KeptBy :
    (k : String) (spec : ContractCallSpec) (id : String) (c : Chain)
    (args : Attempt (ℕ × String × String × String))
    → has id c.credentials ≡ false
    → KeptBy k c (apply_new spec id c args)
unfolding apply_new
apply_new-KeptBy k spec id c (threw f) h = Kept-refl (get k c.credentials)
apply_new-KeptBy k spec id c (done (type, issuer, subject, event)) h =
    mint_with-KeptBy k id issuer subject event type c (mint_args spec) h

apply_issuance-KeptBy :
    (k : String) (spec : ContractCallSpec) (c : Chain) (arg : Attempt String)
    → KeptBy k c (apply_issuance spec c arg)
unfolding apply_issuance
apply_issuance-KeptBy k spec c (threw f) = Kept-refl (get k c.credentials)
apply_issuance-KeptBy k spec c (done id) =
    ground (arith, Kept-refl (get k c.credentials), apply_new-KeptBy k spec id c (key_args spec))

register-same :
    (id hash : String) (schema : ℕ) (c : Chain)
    → (register id hash schema c).credentials ≡ c.credentials
unfolding register
register-same id hash schema c = ground arith

apply_registration-KeptBy :
    (k : String) (c : Chain) (args : Attempt (String × String × ℕ))
    → KeptBy k c (apply_registration c args)
unfolding apply_registration
apply_registration-KeptBy k c (threw f) = Kept-refl (get k c.credentials)
apply_registration-KeptBy k c (done (id, hash, schema)) =
    rw (register-same id hash schema c) (Kept-refl (get k c.credentials))

apply_revocation-KeptBy :
    (k : String) (c : Chain) (args : Attempt (String × Option String))
    → KeptBy k c (apply_revocation c args)
unfolding apply_revocation
apply_revocation-KeptBy k c (threw f) = Kept-refl (get k c.credentials)
apply_revocation-KeptBy k c (done (id, reason)) = revoke-Kept k id reason c

apply-Kept :
    (k : String) (spec : ContractCallSpec) (c : Chain)
    → Kept (get k c.credentials) (get k (apply spec c).0.credentials)
unfolding apply
apply-Kept k spec c = ground (
  arith,
  apply_registration-KeptBy k c (registration_args spec),
  apply_issuance-KeptBy k spec c (hex_at spec 1),
  apply_revocation-KeptBy k c (revocation_args spec),
  Kept-refl (get k c.credentials),
)

module _ (codec : Codec) where
  enter-Kept :
      (k hash : String) (c : Chain) (result : Chain × Attempt (Unit {0}))
      → KeptBy k c result
      → Kept (get k c.credentials) (get k (enter codec hash result).0.credentials)
  unfolding enter
  enter-Kept k hash c (c', threw f) h = h
  enter-Kept k hash c (c', done _) h = h

  submit_checked-Kept :
      (k hash : String) (spec : ContractCallSpec) (c : Chain) (checked : Attempt (Option String))
      → Kept (get k c.credentials) (get k (submit_checked codec hash spec c checked).0.credentials)
  unfolding submit_checked
  submit_checked-Kept k hash spec c (threw f) = Kept-refl (get k c.credentials)
  submit_checked-Kept k hash spec c (done (some error)) = Kept-refl (get k c.credentials)
  submit_checked-Kept k hash spec c (done none) =
      let started = record c { ledger = suc c.ledger } in
      enter-Kept k hash started (apply spec started) (apply-Kept k spec started)

  submit_decoded-Kept :
      (k xdr : String) (c : Chain) (envelope : Attempt (ContractCallSpec × Option String))
      → Kept (get k c.credentials) (get k (submit_decoded codec xdr c envelope).0.credentials)
  unfolding submit_decoded
  submit_decoded-Kept k xdr c (threw f) = Kept-refl (get k c.credentials)
  submit_decoded-Kept k xdr c (done (spec, signature)) = ground (
    arith,
    Kept-refl (get k c.credentials),
    submit_checked-Kept k (codec.sha256 xdr) spec c (validate spec c),
  )

  -- An issued credential is immutable: after the submission of whatever envelope, accepted or not, a
  -- credential that was on the chain still attests the same, and one that was revoked is unchanged.
  pub submit-Kept :
      (k xdr : String) (c : Chain)
      → Kept (get k c.credentials) (get k (submit codec xdr c).0.credentials)
  unfolding submit
  submit-Kept k xdr c = submit_decoded-Kept k xdr c (decoded codec xdr)
