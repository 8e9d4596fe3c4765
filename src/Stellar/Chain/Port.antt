-- ===== src/Stellar/Chain/Port.antt =====
-- The calls of src/infrastructure/stellar/InMemoryChainTransport.ts, as an instance of the transport port.
use culturago_stellar.Base.{
  ℕ, suc, Bool, true, false, ◌||◌, ◌&&◌, not, Option, none, some, String, List, [], ◌∷◌,
  invalid_input, if◌then◌else◌, ◌==◌, text_eq, number_eq, ltb, find, get, set,
}
use culturago_stellar.Stellar.Transport.{
  ContractArg, bytes32, ContractCallSpec, SimulationOutcome, TransactionStatus, success, failed,
  not_found_yet, pending, Leaf, js_null, js_boolean, js_number, js_text, Raw, raw_leaf, raw_object,
  Attempt, threw, done, thrown_domain, thrown_error, SorobanTransport,
}
use culturago_stellar.Stellar.Chain.Ledger.{
  Chain, ChainCredential, EntityHead, Pending, PendingStatus, is_pending, is_success, is_failed,
  ◌>>=◌, hex_at, u32_at, hex_of, u32_of, validate, apply,
}

-- JSON and SHA-256: the text of an unsigned envelope, the call and the signature in an envelope's text
-- (`none` where it does not parse), the text of a call, and the digest of a text.
pub record Codec : Type 0 where
  pub encode : ContractCallSpec → String
  pub decode : String → Option (ContractCallSpec × Option String)
  pub spec_text : ContractCallSpec → String
  pub sha256 : String → String

abbrev is_signature : Option String → Bool
is_signature none = false
is_signature (some s) = not (s == "")

abbrev is_error : Option String → Bool
is_error none = false
is_error (some s) = true

module _ (codec : Codec) where
  abbrev pub decoded : String → Attempt (ContractCallSpec × Option String)
  decoded xdr = elim (codec.decode xdr) [
    | none ↦ threw (thrown_error "Unexpected token")
    | some envelope ↦ done envelope
  ]

  abbrev outcome : String → Chain → Option String → SimulationOutcome
  outcome xdr c error = record {
    needs_restore = false;
    prepared_xdr = if is_error error then "" else xdr;
    latest_ledger = c.ledger;
    contract_error = error;
  }

  unfoldable pub simulate : ContractCallSpec → Chain → Chain × Attempt SimulationOutcome
  simulate spec c = (c, validate spec c >>= λ error. done (outcome (codec.encode spec) c error))

  abbrev pub entered : String → PendingStatus → Chain → Chain
  entered hash status c = record c {
    pending = set hash (record { status = status; ledger = c.ledger }) c.pending;
  }

  -- The end of a submission that was applied.
  unfoldable pub enter : String → Chain × Attempt (Unit {0}) → Chain × Attempt String
  enter hash (c, threw f) = (c, threw f)
  enter hash (c, done _) =
      let status = if c.next_submission_stays_pending then is_pending else is_success in
      (entered hash status (record c { next_submission_stays_pending = false }), done hash)

  -- A submission from the validation on.
  unfoldable pub submit_checked :
      String → ContractCallSpec → Chain → Attempt (Option String) → Chain × Attempt String
  unfolding enter
  submit_checked hash spec c (threw f) = (c, threw f)
  submit_checked hash spec c (done (some error)) =
      (entered hash is_failed (record c { ledger = suc c.ledger }), done hash)
  submit_checked hash spec c (done none) =
      enter hash (apply spec (record c { ledger = suc c.ledger }))

  unfoldable pub submit_decoded :
      String → Chain → Attempt (ContractCallSpec × Option String) → Chain × Attempt String
  unfolding submit_checked
  submit_decoded xdr c (threw f) = (c, threw f)
  submit_decoded xdr c (done (spec, signature)) =
      let checked = submit_checked (codec.sha256 xdr) spec c (validate spec c) in
      if is_signature signature then checked else (c, threw (thrown_domain invalid_input))

  unfoldable pub submit : String → Chain → Chain × Attempt String
  unfolding submit_decoded
  submit xdr c = submit_decoded xdr c (decoded xdr)

  abbrev answer : Pending → Chain → Chain × Attempt TransactionStatus
  answer p c = elim p.status [
    | is_pending ↦ (c, done pending)
    | is_failed ↦ (c, done (failed (some "CONTRACT_FAILED")))
    | is_success ↦
        if c.next_poll_returns_null_ledger
        then (record c { next_poll_returns_null_ledger = false }, done (success none))
        else (c, done (success (some p.ledger)))
  ]

  unfoldable pub poll_transaction : String → Chain → Chain × Attempt TransactionStatus
  poll_transaction hash c = elim (get hash c.pending) [
    | none ↦ (c, done not_found_yet)
    | some p ↦ answer p c
  ]

  abbrev null_or_text : Option String → Leaf
  null_or_text none = js_null
  null_or_text (some s) = js_text s

  abbrev null_or_number : Option ℕ → Leaf
  null_or_number none = js_null
  null_or_number (some n) = js_number n

  unfoldable pub entity_object : EntityHead → Raw
  entity_object h = raw_object (
      ("entity_id", js_text h.entity_id)
      ∷ ("latest_version", js_number h.latest_version)
      ∷ ("active", js_boolean h.active)
      ∷ ("metadata_hash", js_text h.metadata_hash)
      ∷ ("hash_schema", js_number h.hash_schema)
      ∷ ("matches", js_boolean true)
      ∷ [])

  unfoldable pub credential_object : ChainCredential → Raw
  credential_object r = raw_object (
      ("credential_id", js_text r.credential_id)
      ∷ ("token_id", js_number r.token_id)
      ∷ ("issuer_id", js_text r.issuer_id)
      ∷ ("issued_by", null_or_text r.issued_by)
      ∷ ("subject_id", js_text r.subject_id)
      ∷ ("event_id", js_text r.event_id)
      ∷ ("credential_type", js_number r.credential_type)
      ∷ ("metadata_hash", js_text r.metadata_hash)
      ∷ ("hash_schema", js_number r.hash_schema)
      ∷ ("revoked", js_boolean r.revoked)
      ∷ ("issued_ledger", js_number r.issued_ledger)
      ∷ ("revoked_ledger", null_or_number r.revoked_ledger)
      ∷ ("revoked_reason_hash", null_or_text r.revoked_reason_hash)
      ∷ ("matches", js_boolean true)
      ∷ [])

  abbrev first_bytes32 : List ContractArg → Option String
  first_bytes32 [] = none
  first_bytes32 (bytes32 hex ∷ args) = some hex
  first_bytes32 (_ ∷ args) = first_bytes32 args

  abbrev version_at : ℕ → Option (List (ℕ × String × ℕ)) → Option (ℕ × String × ℕ)
  version_at n none = none
  version_at n (some versions) = find (λ v. v.0 == n) versions

  abbrev version_matches : String → ℕ → Option (ℕ × String × ℕ) → Bool
  version_matches hash schema none = false
  version_matches hash schema (some (n, h, s)) = h == hash && s == schema

  unfoldable pub entity_matches : String → ℕ → String → ℕ → Chain → Bool
  entity_matches id version hash schema c = elim (get id c.entities) [
    | none ↦ false
    | some head ↦
        head.active
        && not (ltb version 1 || ltb head.latest_version version)
        && version_matches hash schema (version_at version (get id c.entity_versions))
  ]

  unfoldable pub credential_matches : String → String → ℕ → Chain → Bool
  credential_matches id hash schema c = elim (get id c.credentials) [
    | none ↦ false
    | some r ↦ not r.revoked && r.metadata_hash == hash && r.hash_schema == schema
  ]

  unfoldable pub verify_entity : ContractCallSpec → Chain → Attempt Raw
  unfolding hex_of u32_of entity_matches
  verify_entity spec c = do
    id ← hex_at spec 0
    version ← u32_at spec 1
    hash ← hex_at spec 2
    schema ← u32_at spec 3
    done (raw_leaf (js_boolean (entity_matches id version hash schema c)))

  unfoldable pub verify_credential : ContractCallSpec → Chain → Attempt Raw
  unfolding hex_of u32_of credential_matches
  verify_credential spec c = do
    id ← hex_at spec 0
    hash ← hex_at spec 1
    schema ← u32_at spec 2
    done (raw_leaf (js_boolean (credential_matches id hash schema c)))

  abbrev or_null : {A : Type 0} → (A → Raw) → Option A → Raw
  or_null f none = raw_leaf js_null
  or_null f (some a) = f a

  unfoldable pub read : String → ContractCallSpec → Chain → Attempt Raw
  unfolding entity_object credential_object verify_entity verify_credential
  read key spec c =
      if spec.method == "get_entity"
      then done (or_null entity_object (get key c.entities))
      else if spec.method == "verify_entity"
      then verify_entity spec c
      else if spec.method == "get_credential"
      then done (or_null credential_object (get key c.credentials))
      else if spec.method == "verify_credential"
      then verify_credential spec c
      else done (raw_leaf js_null)

  unfoldable pub readback : ContractCallSpec → Chain → Chain × Attempt Raw
  unfolding read
  readback spec c = elim (first_bytes32 spec.args) [
    | none ↦ (c, done (raw_leaf js_null))
    | some key ↦ (c, if key == "" then done (raw_leaf js_null) else read key spec c)
  ]

  unfoldable pub enforcing_simulate_and_assemble :
      String → Chain → Chain × Attempt SimulationOutcome
  enforcing_simulate_and_assemble xdr c = (
    c,
    decoded xdr >>= λ envelope.
        let checked = validate envelope.0 c >>= λ error.
        done (record (outcome xdr c error) { prepared_xdr = xdr }) in
        if is_signature envelope.1 then checked else done (outcome xdr c (some "UNAUTHORIZED")),
  )

  abbrev same_call :
      Option (ContractCallSpec × Option String) → Option (ContractCallSpec × Option String) → Bool
  same_call (some (u, none)) (some (s, some signature)) = codec.spec_text u == codec.spec_text s
  same_call _ _ = false

  unfoldable pub verify_signed_matches : String → String → Chain → Chain × Attempt Bool
  verify_signed_matches unsigned signed c =
      (c, done (same_call (codec.decode unsigned) (codec.decode signed)))

  abbrev pub in_memory_chain : SorobanTransport Chain
  in_memory_chain = record {
    simulate = simulate;
    submit = submit;
    poll_transaction = poll_transaction;
    readback = readback;
    verify_signed_matches = verify_signed_matches;
    enforcing_simulate_and_assemble = enforcing_simulate_and_assemble;
  }
