-- ===== src/Stellar/Transport.antt =====
-- src/ports/SorobanTransport.ts: the transport port as an interface, and the actions that run over it and
-- over the store of operations.
use culturago_stellar.Base.{ℕ, Bool, Option, String, List, Result, ok, err, DomainErrorCode, JsMap}
use culturago_stellar.Stellar.Store.{Store}

pub data ContractArg : Type 0 where
  address : String → ContractArg
  bytes32 : String → ContractArg
  u32 : ℕ → ContractArg
  u64 : ℕ → ContractArg
  optional_bytes32 : Option String → ContractArg

pub record ContractCallSpec : Type 0 where
  pub contract_id : String
  pub method : String
  pub args : List ContractArg
  pub actor_address : String
  pub fee_payer_address : Option String

pub record SimulationOutcome : Type 0 where
  pub needs_restore : Bool
  pub prepared_xdr : String
  pub latest_ledger : ℕ
  pub contract_error : Option String

pub data TransactionStatus : Type 0 where
  success : Option ℕ → TransactionStatus
  failed : Option String → TransactionStatus
  not_found_yet pending : TransactionStatus

-- A value that a contract call gives back: a field's value, or an object of such fields.
pub data Leaf : Type 0 where
  js_null : Leaf
  js_boolean : Bool → Leaf
  js_number : ℕ → Leaf
  js_bigint : ℕ → Leaf
  js_text : String → Leaf
  js_bytes : String → Leaf
  js_address : String → Leaf

pub data Raw : Type 0 where
  raw_leaf : Leaf → Raw
  raw_object : JsMap Leaf → Raw

-- What a call may throw: a domain error, another `Error` with its message, or a value that is no error.
pub data Failure : Type 0 where
  thrown_domain : DomainErrorCode → Failure
  thrown_error : String → Failure
  thrown_value : Failure

pub data Attempt {ℓ} (Value : Type ℓ) : Type ℓ where
  threw : Failure → Attempt Value
  done : Value → Attempt Value

-- What holds of the value of an attempt.
abbrev pub HoldsOf {ℓ} : {A : Type ℓ} → (A → Type 0) → Attempt A → Type 0
HoldsOf P (done a) = P a
HoldsOf P (threw f) = Unit

pub record SorobanTransport (Chain : Type 0) : Type 0 where
  pub simulate : ContractCallSpec → Chain → Chain × Attempt SimulationOutcome
  pub submit : String → Chain → Chain × Attempt String
  pub poll_transaction : String → Chain → Chain × Attempt TransactionStatus
  pub readback : ContractCallSpec → Chain → Chain × Attempt Raw
  pub verify_signed_matches : String → String → Chain → Chain × Attempt Bool
  pub enforcing_simulate_and_assemble : String → Chain → Chain × Attempt SimulationOutcome

-- The store of operations and the chain behind the transport.
pub record World (Chain : Type 0) : Type 0 where
  pub store : Store
  pub chain : Chain

-- An awaited call: it returns or throws, with the world that it leaves.
abbrev pub Act : Type 0 → Type 0 → Type 0
Act Chain A = World Chain → World Chain × Attempt A

abbrev pub continue :
    {Chain A B : Type 0} → (A → Act Chain B) → World Chain × Attempt A → World Chain × Attempt B
continue next (w, done a) = next a w
continue next (w, threw f) = (w, threw f)

infixl 5 ◌>>=◌ ◌>>◌
abbrev pub ◌>>=◌ : {Chain A B : Type 0} → Act Chain A → (A → Act Chain B) → Act Chain B
◌>>=◌ act next w = continue next (act w)

abbrev pub ◌>>◌ : {Chain B : Type 0} → Act Chain (Unit {0}) → Act Chain B → Act Chain B
first >> second = first >>= λ _. second

abbrev pub return : {Chain A : Type 0} → A → Act Chain A
return a w = (w, done a)

abbrev pub throw : {Chain A : Type 0} → DomainErrorCode → Act Chain A
throw code w = (w, threw (thrown_domain code))

abbrev pub attempt_of {ℓ} : {A : Type ℓ} → Result A → Attempt A
attempt_of (ok a) = done a
attempt_of (err code) = threw (thrown_domain code)

-- A synchronous check of the domain.
abbrev pub lift : {Chain A : Type 0} → Result A → Act Chain A
lift r w = (w, attempt_of r)

-- A synchronous call of other code.
abbrev pub attempt : {Chain A : Type 0} → Attempt A → Act Chain A
attempt a w = (w, a)

-- A query of the store.
abbrev pub query : {Chain A : Type 0} → (Store → A) → Act Chain A
query q w = (w, done (q w.store))

-- A change of the store: it throws and changes nothing, or succeeds.
abbrev pub commit : {Chain : Type 0} → (Store → Result Store) → Act Chain (Unit {0})
commit change w = elim (change w.store) [
  | ok s ↦ (record w { store = s }, done tt)
  | err code ↦ (w, threw (thrown_domain code))
]

-- A call of the transport.
abbrev pub on_chain : {Chain A : Type 0} → (Chain → Chain × Attempt A) → Act Chain A
on_chain call w = let (c, a) = call w.chain in (record w { chain = c }, a)

-- `try { … } catch (error) { … }`
abbrev pub handled :
    {Chain A : Type 0} → (Failure → Act Chain A) → World Chain × Attempt A → World Chain × Attempt A
handled handler (w, done a) = (w, done a)
handled handler (w, threw f) = handler f w

abbrev pub catch : {Chain A : Type 0} → Act Chain A → (Failure → Act Chain A) → Act Chain A
catch act handler w = handled handler (act w)
