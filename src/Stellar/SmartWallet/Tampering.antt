-- ===== src/Stellar/SmartWallet/Tampering.antt =====
-- What a signer can change in a prepared smart-wallet transaction.
use culturago_stellar.Base.{
  ◌≡◌, ◌≢◌, true, String, List, [], ◌∷◌, ok, length, arith, eq_iff, Result-cases, inl, inr,
}
use culturago_stellar.Stellar.SmartWallet.{
  AuthEntry, Envelope, EnvelopeOperation, is_address_bound, has_auth_signature, auth_entry_address,
  check_entry, check_entries, get_host_function_op, assert_smart_wallet_signed_matches,
}

-- The entries pair by pair: the addresses are the prepared ones; an entry of another address is
-- unchanged, and one of the actor is bound to its address and signed.
abbrev pub Untampered : String → List AuthEntry → List AuthEntry → Type 0
Untampered actor [] [] = Unit
Untampered actor (u ∷ us) (s ∷ ss) =
    (u.address ≡ s.address)
    × (s.address ≢ actor → u.xdr ≡ s.xdr)
    × (s.address ≡ actor → (is_address_bound s ≡ true) × (has_auth_signature s ≡ true))
    × Untampered actor us ss
Untampered actor _ _ = ⊥

check_entry_lem :
    (actor : String) (u s : AuthEntry)
    → check_entry actor u s ≡ ok tt
    → (u.address ≡ s.address)
      × (s.address ≢ actor → u.xdr ≡ s.xdr)
      × (s.address ≡ actor → (is_address_bound s ≡ true) × (has_auth_signature s ≡ true))
unfolding check_entry auth_entry_address has_auth_signature
check_entry_lem actor u s h =
    ground (arith, eq_iff u.address s.address, eq_iff s.address actor, eq_iff u.xdr s.xdr)

check_entries-first :
    (actor : String) (u s : AuthEntry) (us ss : List AuthEntry)
    → check_entries actor (u ∷ us) (s ∷ ss) ≡ ok tt
    → (check_entry actor u s ≡ ok tt) × (check_entries actor us ss ≡ ok tt)
unfolding check_entries
check_entries-first actor u s us ss h = ground arith

check_entries-Untampered :
    (actor : String) (us ss : List AuthEntry)
    → length us ≡ length ss
    → check_entries actor us ss ≡ ok tt
    → Untampered actor us ss
check_entries-Untampered actor [] [] l h = tt
check_entries-Untampered actor [] (s ∷ ss) l h = ground arith
check_entries-Untampered actor (u ∷ us) [] l h = ground arith
check_entries-Untampered actor (u ∷ us) (s ∷ ss) l h =
    let (first, rest) = check_entries-first actor u s us ss h in
    let (a, b, c) = check_entry_lem actor u s first in
    (a, b, c, check_entries-Untampered actor us ss (omega arith) rest)

get_host_function_op_lem :
    (e : Envelope) {op : EnvelopeOperation}
    → get_host_function_op e ≡ ok op
    → (e.operations ≡ op ∷ []) × (op.is_invoke_host_function ≡ true)
unfolding get_host_function_op
get_host_function_op_lem e h = ground arith

assert_outcome :
    (unsigned signed : Envelope) (actor : String)
    → assert_smart_wallet_signed_matches unsigned signed actor ≡ ok tt
    → (u s : EnvelopeOperation) × (get_host_function_op unsigned ≡ ok u)
      × (get_host_function_op signed ≡ ok s)
      × (unsigned.bare_xdr ≡ signed.bare_xdr)
      × (length u.auth ≡ length s.auth)
      × (check_entries actor u.auth s.auth ≡ ok tt)
unfolding assert_smart_wallet_signed_matches
assert_outcome unsigned signed actor h = elim (Result-cases (get_host_function_op unsigned)) [
  | inl (u, e) ↦ elim (Result-cases (get_host_function_op signed)) [
    | inl (s, f) ↦ (
      u,
      s,
      e,
      f,
      ground (arith, eq_iff unsigned.bare_xdr signed.bare_xdr),
      ground arith,
      ground arith,
    )
    | inr (c, f) ↦ absurd (ground arith)
  ]
  | inr (c, e) ↦ absurd (ground arith)
]

-- A signed smart-wallet envelope that passes has exactly one operation, a contract invocation, and the
-- prepared transaction but for its auth entries. Their number and addresses are the prepared ones,
-- each entry that is not the actor's is unchanged byte by byte, and each of the actor's is bound to its address and carries a signature.
pub assert_smart_wallet_signed_matches-Untampered :
    (unsigned signed : Envelope) (actor : String)
    → assert_smart_wallet_signed_matches unsigned signed actor ≡ ok tt
    → (u s : EnvelopeOperation) × (unsigned.operations ≡ u ∷ [])
      × (signed.operations ≡ s ∷ [])
      × (s.is_invoke_host_function ≡ true)
      × (unsigned.bare_xdr ≡ signed.bare_xdr)
      × Untampered actor u.auth s.auth
assert_smart_wallet_signed_matches-Untampered unsigned signed actor h =
    let (u, s, eu, es, bare, size, checked) = assert_outcome unsigned signed actor h in
    let (one_u, _) = get_host_function_op_lem unsigned eu in
    let (one_s, invoke) = get_host_function_op_lem signed es in
    (u, s, one_u, one_s, invoke, bare, check_entries-Untampered actor u.auth s.auth size checked)
