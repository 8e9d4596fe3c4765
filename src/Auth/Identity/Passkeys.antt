-- ===== src/Auth/Identity/Passkeys.antt =====
-- The passkeys of src/infrastructure/auth/InMemoryIdentityStore.ts. The identifiers and the clock are arguments.
use culturago_stellar.Base.{
  ℕ, ◌&&◌, not, Option, none, some, String, List, Result, ok, err, if◌then◌else◌, ◌==◌, text_eq,
  get, set, has, values, select, is_some, already_exists, not_found,
}
use culturago_stellar.Auth.Identity.{Passkey, Identities}

-- A new passkey, before the store gives it an identifier and a time.
abbrev pub created_passkey : String → ℕ → Passkey → Passkey
created_passkey id now credential = record credential { id = id; created_at = now }

unfoldable pub add_passkey : String → ℕ → Passkey → Identities → Result (Identities × Passkey)
add_passkey id now credential s =
    if has credential.credential_id s.passkeys
    then err already_exists
    else ok (
      record s {
        passkeys = set credential.credential_id (created_passkey id now credential) s.passkeys;
      },
      created_passkey id now credential,
    )

unfoldable pub get_passkey : String → Identities → Option Passkey
get_passkey credential_id s = get credential_id s.passkeys

unfoldable pub list_passkeys : String → Identities → List Passkey
list_passkeys account_id s =
    select (λ p. p.account_id == account_id && not (is_some p.revoked_at)) (values s.passkeys)

abbrev change_passkey : (Passkey → Passkey) → String → Identities → Result Identities
change_passkey change credential_id s = elim (get credential_id s.passkeys) [
  | none ↦ err not_found
  | some p ↦ ok (record s { passkeys = set credential_id (change p) s.passkeys })
]

unfoldable pub update_passkey_counter : String → ℕ → ℕ → Identities → Result Identities
update_passkey_counter credential_id counter last_used_at s =
    change_passkey (λ p. record p { sign_counter = counter; last_used_at = some last_used_at })
      credential_id s

unfoldable pub revoke_passkey : ℕ → String → String → Identities → Result Identities
revoke_passkey now credential_id reason s =
    change_passkey (λ p. record p { revoked_at = some now; revoked_reason = some reason })
      credential_id s
