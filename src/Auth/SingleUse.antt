-- ===== src/Auth/SingleUse.antt =====
-- A code is used once.
use culturago_stellar.Base.{
  ℕ, ◌≡◌, ◌<◌, refl, Bool, true, Option, none, some, String, ok, err, arith, eq_iff, get,
  get-set_self, unauthorized, ap, JsMap, Option-cases, inl, inr, is_some, ◌==◌, text_eq,
}
use culturago_stellar.Auth.Identity.{
  Identities, Account, AccountStatus, Challenge, pending_claim, active, consume_challenge,
  take_challenge, used, update_account_status,
}
use culturago_stellar.Auth.Claims.{claim, recover}

taken_once :
    (now now' : ℕ) (digest : String) (c q : Challenge) (s s' : Identities)
    → take_challenge now digest c s ≡ (s', some q)
    → (consume_challenge now' digest s' ≡ (s', none))
      × (now < c.expires_at)
      × (s'.accounts ≡ s.accounts)
      × (q ≡ used now c)
unfolding take_challenge consume_challenge
taken_once now now' digest c q s s' h =
    let again = get-set_self digest (used now c) s.challenges in
    (ground (arith, again), ground arith, ground arith, ground arith)

consumed_once :
    (now now' : ℕ) (digest : String) (q : Challenge) (s s' : Identities)
    → consume_challenge now digest s ≡ (s', some q)
    → (consume_challenge now' digest s' ≡ (s', none))
      × (now < q.expires_at)
      × (s'.accounts ≡ s.accounts)
unfolding consume_challenge
consumed_once now now' digest q s s' h = elim (Option-cases (get digest s.challenges)) [
  | inl e ↦ absurd (ground arith)
  | inr (c, e) ↦
      let (gone, early, same, is_used) = taken_once now now' digest c q s s' (ground arith) in
      (gone, ground arith, same)
]

abbrev pub status_of : Option Account → Option AccountStatus
status_of none = none
status_of (some account) = some account.status

abbrev pub own_key : String → Option Account → Bool
own_key k none = true
own_key k (some account) = account.id == k

abbrev account_key : Option Challenge → String
account_key none = ""
account_key (some c) = elim c.account_id [ none ↦ "" | some id ↦ id ]

abbrev id_in : String → Option Account → String
id_in k none = k
id_in k (some account) = account.id

id_in-own_key : (k : String) (o : Option Account) → own_key k o ≡ true → id_in k o ≡ k
id_in-own_key k none h = refl
id_in-own_key k (some account) h = ground (arith, eq_iff account.id k)

get-id_in :
    (k : String) (m : JsMap Account)
    → own_key k (get k m) ≡ true
    → get (id_in k (get k m)) m ≡ get k m
get-id_in k m h = ap (λ j. get j m) (id_in-own_key k (get k m) h)

consumed_gone :
    (now later : ℕ) (digest : String) (s : Identities)
    → is_some (consume_challenge now digest s).1 ≡ true
    → let s1 = (consume_challenge now digest s).0 in
      (consume_challenge later digest s1 ≡ (s1, none)) × (s1.accounts ≡ s.accounts)
consumed_gone now later digest s h =
    let (s1, found) = consume_challenge now digest s in
    elim (Option-cases found) [
      | inl e ↦ absurd (ground arith)
      | inr (c, e) ↦
          let (gone, early, same) = consumed_once now later digest c s s1 (ap (λ o. (s1, o)) e) in
          (gone, same)
    ]

updated_account :
    (id digest : String) (later : ℕ) (s1 s' : Identities)
    → update_account_status id active s1 ≡ ok s'
    → consume_challenge later digest s1 ≡ (s1, none)
    → (status_of (get id s'.accounts) ≡ some active)
      × (consume_challenge later digest s' ≡ (s', none))
unfolding update_account_status consume_challenge take_challenge
updated_account id digest later s1 s' h k = elim (Option-cases (get id s1.accounts)) [
  | inl e ↦ absurd (ground arith)
  | inr (a, e) ↦
      (ground (arith, get-set_self id (record a { status = active }) s1.accounts), ground arith)
]

module _ (sha256 : String → String) where
  claim_refused :
      (now : ℕ) (code : String) (s : Identities)
      → (consume_challenge now (sha256 code) s ≡ (s, none))
      → (claim sha256 now code s ≡ (s, err unauthorized))
        × (recover sha256 now code s ≡ (s, err unauthorized))
  unfolding claim recover
  claim_refused now code s h = (ground arith, ground arith)

  claim_steps :
      (now : ℕ) (code id : String) (s s' : Identities)
      → ((k : String) → own_key k (get k s.accounts) ≡ true)
      → claim sha256 now code s ≡ (s', ok id)
      → let (s1, found) = consume_challenge now (sha256 code) s in
        (is_some found ≡ true)
        × (status_of (get id s1.accounts) ≡ some pending_claim)
        × (update_account_status id active s1 ≡ ok s')
  unfolding claim consume_challenge take_challenge
  claim_steps now code id s s' keyed h =
      let key = account_key (get (sha256 code) s.challenges) in
      (ground arith, ground (arith, get-id_in key s.accounts (keyed key)), ground arith)

  -- A claim code works once. Over accounts that are stored under their own identifiers, a claim that
  -- succeeds finds an account whose claim was pending, and leaves it active; after it, at any time, the
  -- same code is refused as `unauthorized`, for a claim and for a recovery.
  pub claim-once :
      (now later : ℕ) (code id : String) (s s' : Identities)
      → ((k : String) → own_key k (get k s.accounts) ≡ true)
      → claim sha256 now code s ≡ (s', ok id)
      → (status_of (get id s.accounts) ≡ some pending_claim)
        × (status_of (get id s'.accounts) ≡ some active)
        × (claim sha256 later code s' ≡ (s', err unauthorized))
        × (recover sha256 later code s' ≡ (s', err unauthorized))
  claim-once now later code id s s' keyed h =
      let (taken, pending, updated) = claim_steps now code id s s' keyed h in
      let (gone, same) = consumed_gone now later (sha256 code) s taken in
      let (now_active, refused) =
        updated_account id (sha256 code) later (consume_challenge now (sha256 code) s).0 s' updated
          gone in
      let (no_claim, no_recovery) = claim_refused later code s' refused in
      (rw same at pending, now_active, no_claim, no_recovery)
