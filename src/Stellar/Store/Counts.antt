-- ===== src/Stellar/Store/Counts.antt =====
-- The report of `countByPhase`.
use culturago_stellar.Base.{
  ℕ, ◌+◌, ◌≡◌, refl, List, [], ◌∷◌, arith, select, length, ◌==◌, values, if◌then◌else◌,
}
use culturago_stellar.Domain.Operations.{
  Phase, Phase-discrete, phase_eq, awaiting_signature, signed, submitted, confirming, confirmed,
  failed_retryable, failed_terminal, unknown, restoring,
}
use culturago_stellar.Stellar.Operation.{StoredOperation}
use culturago_stellar.Stellar.Store.{Store, count_loop, count_by_phase}

count_loop_lem :
    (rs : List StoredOperation) (counts : Phase → ℕ) (p : Phase)
    → count_loop rs counts p ≡ counts p + length (select (λ r. r.state.phase == p) rs)
unfolding count_loop
count_loop_lem [] counts p = omega arith
count_loop_lem (r ∷ rs) counts p =
    ground (arith, count_loop_lem rs (λ q. if r.state.phase == q then counts q + 1 else counts q) p)

in_all_phases :
    (rs : List StoredOperation)
    → let size : Phase → ℕ = λ p. length (select (λ r. r.state.phase == p) rs) in
      size awaiting_signature
        + size signed
        + size submitted
        + size confirming
        + size confirmed
        + size failed_retryable
        + size failed_terminal
        + size unknown
        + size restoring
      ≡ length rs
unfolding Phase-discrete
in_all_phases [] = refl
in_all_phases (r ∷ rs) = ground (arith, in_all_phases rs)

-- The report counts, for each phase, the operations in it, 0 where there is none, and its numbers sum
-- up to the number of the stored operations.
pub count_by_phase_lem :
    (s : Store) (p : Phase)
    → (count_by_phase s p ≡ length (select (λ r. r.state.phase == p) (values s.by_id)))
      × (let n = count_by_phase s in
          n awaiting_signature
            + n signed
            + n submitted
            + n confirming
            + n confirmed
            + n failed_retryable
            + n failed_terminal
            + n unknown
            + n restoring
          ≡ length (values s.by_id))
unfolding count_by_phase
count_by_phase_lem s p =
    let each = count_loop_lem (values s.by_id) (λ _. 0) in
    (
      omega (arith, each p),
      omega (
        arith,
        each awaiting_signature,
        each signed,
        each submitted,
        each confirming,
        each confirmed,
        each failed_retryable,
        each failed_terminal,
        each unknown,
        each restoring,
        in_all_phases (values s.by_id),
      ),
    )
