-- ===== src/Stellar/Allowlist.antt =====
-- src/infrastructure/stellar/SmartWalletAllowlist.ts, over decoded envelopes. The SDK's decoding is a parameter, and so is
-- the address that it derives of an account, a salt and a network.
pub mod Approved
use culturago_stellar.Base.{
  ℕ, ◌-◌, Bool, true, false, not, ◌||◌, Option, none, some, is_some, String, List, [], ◌∷◌, ◌++◌,
  map, Result, ok, err, ◌>>=◌, ◌>>◌, or_fail, require, invalid_input, unauthorized, if◌then◌else◌,
  ◌==◌, text_eq, nat_beq, number_eq, includes, codes, upper_code, every, to_lower_case,
}
use culturago_stellar.Stellar.Network.{without_prefix}

-- The executable of a new contract: its kind, and the hex text of its WASM hash where reading it does not throw.
pub record Executable : Type 0 where
  pub kind : ℕ
  pub wasm_hash : Option String

pub record Preimage : Type 0 where
  pub name : String
  pub address : String
  pub salt : String

-- The arguments of a host function that creates a contract; a part whose reading throws is none.
pub record CreateArgs : Type 0 where
  pub executable : Option Executable
  pub preimage : Option Preimage

pub record HostFunction : Type 0 where
  pub kind : ℕ
  pub create_args : Option CreateArgs

pub record DeployOperation : Type 0 where
  pub name : String
  pub host_function : Option HostFunction

pub record DeployEnvelope : Type 0 where
  pub kind : String
  pub operations : List DeployOperation

-- A transaction, with the one that it wraps if it is a fee bump.
pub record ParsedTransaction : Type 0 where
  pub own : DeployEnvelope
  pub inner : Option DeployEnvelope

unfoldable pub wasm_hash_from_executable : Executable → Option String
wasm_hash_from_executable executable = if executable.kind == 0 then executable.wasm_hash else none

abbrev creates_contract : HostFunction → Bool
creates_contract f = f.kind == 1 || f.kind == 2 || f.kind == 3

abbrev executable_hash : Option CreateArgs → Option String
executable_hash none = none
executable_hash (some args) = elim args.executable [
  | none ↦ none
  | some executable ↦ wasm_hash_from_executable executable
]

unfoldable pub extract_wasm_hash_from_host_function : HostFunction → Option String
unfolding wasm_hash_from_executable
extract_wasm_hash_from_host_function f =
    if creates_contract f then executable_hash f.create_args else none

-- `/invoke.?host.?function/i.test(name)`, on the codes of the name.
unfoldable pub strip : List ℕ → List ℕ → Option (List ℕ)
strip [] cs = some cs
strip (d ∷ ds) [] = none
strip (d ∷ ds) (c ∷ cs) = if nat_beq d c then strip ds cs else none

abbrev strip_later : List ℕ → List ℕ → Option (List ℕ)
strip_later ds [] = strip ds []
strip_later ds (c ∷ cs) = elim (strip ds (c ∷ cs)) [ some rest ↦ some rest | none ↦ strip ds cs ]

abbrev matches_here : List ℕ → Bool
matches_here cs = elim (strip (codes "INVOKE") cs) [
  | none ↦ false
  | some host ↦ elim (strip_later (codes "HOST") host) [
    | none ↦ false
    | some function ↦ is_some (strip_later (codes "FUNCTION") function)
  ]
]

abbrev matches_within : List ℕ → Bool
matches_within [] = false
matches_within (c ∷ cs) = matches_here (c ∷ cs) || matches_within cs

unfoldable pub invokes_host_function : String → Bool
unfolding strip
invokes_host_function name = matches_within (map upper_code (codes name))

abbrev one_or_none : Option String → List String
one_or_none none = []
one_or_none (some hash) = if hash == "" then [] else hash ∷ []

abbrev hashes_of : Option HostFunction → List String
hashes_of none = []
hashes_of (some f) = one_or_none (extract_wasm_hash_from_host_function f)

unfoldable pub extract_wasm_hashes_from_operation : DeployOperation → List String
unfolding invokes_host_function extract_wasm_hash_from_host_function
extract_wasm_hashes_from_operation op =
    if invokes_host_function op.name then hashes_of op.host_function else []

unfoldable pub get_inner_transaction : ParsedTransaction → DeployEnvelope
get_inner_transaction parsed = elim parsed.inner [ none ↦ parsed.own | some inner ↦ inner ]

abbrev is_transaction : DeployEnvelope → Bool
is_transaction envelope = envelope.kind == "envelopeTypeTx" || envelope.kind == "envelopeTypeTxV0"

abbrev hashes_in : List DeployOperation → List String
hashes_in [] = []
hashes_in (op ∷ ops) = extract_wasm_hashes_from_operation op ++ hashes_in ops

abbrev operations_of : Option ParsedTransaction → List DeployOperation
operations_of none = []
operations_of (some parsed) =
    let envelope = get_inner_transaction parsed in
    if is_transaction envelope then envelope.operations else []

unfoldable pub extract_contract_id_preimage : HostFunction → Option Preimage
extract_contract_id_preimage f =
    if creates_contract f
    then elim f.create_args [ none ↦ none | some args ↦ args.preimage ]
    else none

abbrev is_empty_list : List String → Bool
is_empty_list [] = true
is_empty_list (x ∷ xs) = false

abbrev pub normalized_allowlist : List String → List String
normalized_allowlist = map (λ h. without_prefix (to_lower_case h))

abbrev pub approves : List String → String → Bool
approves allowlist hash = includes (normalized_allowlist allowlist) (to_lower_case hash)

module _ (decode : String → String → Option ParsedTransaction) where
  unfoldable pub extract_create_contract_wasm_hashes : String → String → List String
  unfolding extract_wasm_hashes_from_operation get_inner_transaction
  extract_create_contract_wasm_hashes xdr passphrase =
      hashes_in (operations_of (decode xdr passphrase))

  unfoldable pub assert_smart_wallet_wasm_allowlist :
      String → String → List String → Result (List String)
  unfolding extract_create_contract_wasm_hashes without_prefix to_lower_case
  assert_smart_wallet_wasm_allowlist xdr passphrase allowlist = do
    require (not (is_empty_list allowlist)) unauthorized
    let hashes = extract_create_contract_wasm_hashes xdr passphrase
    require (not (is_empty_list hashes)) unauthorized
    require (every (approves allowlist) hashes) unauthorized
    ok hashes

module _ (decode : String → String → Option ParsedTransaction)
    (contract_address : String → String → String → Option String) where
  abbrev derive_address : String → Option Preimage → Option String
  derive_address passphrase none = none
  derive_address passphrase (some preimage) =
      if to_lower_case preimage.name == "contractidpreimagefromaddress"
      then contract_address passphrase preimage.address preimage.salt
      else none

  abbrev address_of_function : String → Option HostFunction → Option String
  address_of_function passphrase none = none
  address_of_function passphrase (some f) =
      derive_address passphrase (extract_contract_id_preimage f)

  unfoldable pub derive_contract_address_from_operation : String → DeployOperation → Option String
  unfolding invokes_host_function extract_contract_id_preimage to_lower_case
  derive_contract_address_from_operation passphrase op =
      if invokes_host_function op.name
      then address_of_function passphrase op.host_function
      else none

  abbrev first_address : String → List DeployOperation → Option String
  first_address passphrase [] = none
  first_address passphrase (op ∷ ops) =
      let rest = first_address passphrase ops in
      elim (derive_contract_address_from_operation passphrase op) [
        | none ↦ rest
        | some address ↦ if address == "" then rest else some address
      ]

  unfoldable pub derive_smart_wallet_contract_address : String → String → Option String
  unfolding derive_contract_address_from_operation get_inner_transaction
  derive_smart_wallet_contract_address xdr passphrase =
      first_address passphrase (operations_of (decode xdr passphrase))

  unfoldable pub assert_smart_wallet_contract_address : String → String → String → Result String
  unfolding derive_smart_wallet_contract_address
  assert_smart_wallet_contract_address xdr passphrase expected = do
    derived ← or_fail (derive_smart_wallet_contract_address xdr passphrase) invalid_input
    require (derived == expected) invalid_input
    ok derived
