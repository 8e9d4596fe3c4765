-- ===== src/Stellar/SmartWallet.antt =====
-- assertSmartWalletSignedMatches of src/infrastructure/stellar/SorobanStellarGateway.ts. The envelopes
-- stand as the SDK decodes them.
pub mod Tampering
use culturago_stellar.Base.{
  ℕ, Bool, true, false, ◌&&◌, ◌||◌, not, Option, none, some, String, List, [], ◌∷◌, Result, ok, err,
  ◌>>=◌, ◌>>◌, require, invalid_input, unauthorized, ◌==◌, text_eq, number_eq, if◌then◌else◌,
  length, ltb,
}

-- An auth entry: the type of its credentials in small letters, their address, whether the signature is
-- void, the number of elements of the signature as a native array or object (`none` where it is no
-- such value, or where the conversion throws), and the entry's XDR.
pub record AuthEntry : Type 0 where
  pub credentials : String
  pub address : String
  pub signature_is_void : Bool
  pub signature_size : Option ℕ
  pub xdr : String

pub record EnvelopeOperation : Type 0 where
  pub is_invoke_host_function : Bool
  pub auth : List AuthEntry

-- A decoded envelope; `bare_xdr` is its transaction's XDR with the auth entries taken out.
pub record Envelope : Type 0 where
  pub envelope_type : String
  pub operations : List EnvelopeOperation
  pub bare_xdr : String

abbrev only_operation : List EnvelopeOperation → Result EnvelopeOperation
only_operation (op ∷ []) = ok op
only_operation _ = err invalid_input

unfoldable pub get_host_function_op : Envelope → Result EnvelopeOperation
get_host_function_op e = do
  require (e.envelope_type == "envelopeTypeTx" || e.envelope_type == "envelopeTypeTxV0")
      invalid_input
  op ← only_operation e.operations
  require op.is_invoke_host_function invalid_input
  ok op

abbrev pub is_address_bound : AuthEntry → Bool
is_address_bound entry =
    entry.credentials == "sorobancredentialsaddressv2"
    || entry.credentials == "sorobancredentialsaddresswithdelegates"

abbrev pub has_address : AuthEntry → Bool
has_address entry = entry.credentials == "sorobancredentialsaddress" || is_address_bound entry

unfoldable pub auth_entry_address : AuthEntry → Result String
auth_entry_address entry = do require (has_address entry) invalid_input; ok entry.address

abbrev is_positive : Option ℕ → Bool
is_positive none = false
is_positive (some n) = ltb 0 n

unfoldable pub has_auth_signature : AuthEntry → Bool
has_auth_signature entry =
    has_address entry && not entry.signature_is_void && is_positive entry.signature_size

abbrev check_actor_entry : AuthEntry → Result (Unit {0})
check_actor_entry s = do
  require (is_address_bound s) unauthorized
  require (has_auth_signature s) unauthorized

-- The body of the loop over the pairs of entries.
unfoldable pub check_entry : String → AuthEntry → AuthEntry → Result (Unit {0})
unfolding auth_entry_address has_auth_signature
check_entry actor u s = do
  u_address ← auth_entry_address u
  s_address ← auth_entry_address s
  require (u_address == s_address) unauthorized
  if s_address == actor then check_actor_entry s else require (u.xdr == s.xdr) unauthorized

unfoldable pub check_entries : String → List AuthEntry → List AuthEntry → Result (Unit {0})
unfolding check_entry
check_entries actor (u ∷ us) (s ∷ ss) = do check_entry actor u s; check_entries actor us ss
check_entries actor _ _ = ok tt

unfoldable pub assert_smart_wallet_signed_matches : Envelope → Envelope → String → Result (Unit {0})
unfolding get_host_function_op check_entries
assert_smart_wallet_signed_matches unsigned signed actor = do
  u ← get_host_function_op unsigned
  s ← get_host_function_op signed
  require (unsigned.bare_xdr == signed.bare_xdr) unauthorized
  require (length u.auth == length s.auth) unauthorized
  check_entries actor u.auth s.auth
