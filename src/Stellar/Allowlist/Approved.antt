-- ===== src/Stellar/Allowlist/Approved.antt =====
-- Which deployments the allowlist lets through.
use culturago_stellar.Base.{
  ◌≡◌, ◌≢◌, refl, sym, Bool, true, false, not, Option, String, List, [], ◌∷◌, ok, every, arith, All,
  require, unauthorized, then-eq-ok, ok_inj, ◌>>◌, subst,
}
use culturago_stellar.Stellar.Allowlist.{
  ParsedTransaction, extract_create_contract_wasm_hashes, assert_smart_wallet_wasm_allowlist,
  is_empty_list, approves,
}

require-ok : (b : Bool) → require b unauthorized ≡ ok tt → b ≡ true
require-ok true h = refl
require-ok false h = cc

All-every : (p : String → Bool) (xs : List String) → every p xs ≡ true → All (λ x. p x ≡ true) xs
All-every p [] h = tt
All-every p (x ∷ xs) h = (ground arith, All-every p xs (ground arith))

not_empty : (xs : List String) → not (is_empty_list xs) ≡ true → xs ≢ []
not_empty [] h e = cc h
not_empty (x ∷ xs) h e = cc e

module _ (decode : String → String → Option ParsedTransaction) where
  pub assert_smart_wallet_wasm_allowlist-Approved :
      (xdr passphrase : String) (allowlist hashes : List String)
      → assert_smart_wallet_wasm_allowlist decode xdr passphrase allowlist ≡ ok hashes
      → (hashes ≡ extract_create_contract_wasm_hashes decode xdr passphrase)
        × (hashes ≢ [])
        × All (λ h. approves allowlist h ≡ true) hashes
  unfolding assert_smart_wallet_wasm_allowlist
  assert_smart_wallet_wasm_allowlist-Approved xdr passphrase allowlist hashes h =
      let found = extract_create_contract_wasm_hashes decode xdr passphrase in
      let some_hash = require (not (is_empty_list found)) unauthorized in
      let approved = require (every (approves allowlist) found) unauthorized in
      let (_, rest) =
        then-eq-ok (require (not (is_empty_list allowlist)) unauthorized)
          (some_hash >> (approved >> ok found)) hashes h in
      let (present, last) = then-eq-ok some_hash (approved >> ok found) hashes rest in
      let (all_in, same) = then-eq-ok approved (ok found) hashes last in
      let e : found ≡ hashes = ok_inj same in
      (
        sym e,
        subst (λ xs. xs ≢ []) e (not_empty found (require-ok (not (is_empty_list found)) present)),
        subst (All (λ h. approves allowlist h ≡ true)) e (
            All-every (approves allowlist) found
              (require-ok (every (approves allowlist) found) all_in)),
      )
