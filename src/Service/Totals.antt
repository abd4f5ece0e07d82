-- ===== src/Service/Totals.antt =====
-- GET /metrics/recovery (internal/metrics/calculator.go) on an orderly service.
use smart_retry_orchestrator.Float.{Float64, IsIeee, small}
use smart_retry_orchestrator.Common.{
  List, ℕ, All, length, ◌≡◌, ◌≤◌, keep, ◌∷◌, arith, [], refl, ◌<◌, false, ◌⊎◌, if◌then◌else◌, ◌+◌,
  some, true, inl, inr, All-keep, ap, length-keep, ◌==◌,
}
use smart_retry_orchestrator.Domain.Models.{Transaction, Time, RecoveryMetrics}
use smart_retry_orchestrator.Orchestrator.State.{System}
use smart_retry_orchestrator.Store.Contents.{ids}
use smart_retry_orchestrator.Service.Sound.{IsSound}
use smart_retry_orchestrator.Service.Orderly.{IsOrderly}
use smart_retry_orchestrator.Metrics.Counts.{
  is_soft, is_recovered, is_exhausted, get_recovery_metrics-IsRecovery, created_between, is_hard,
}
use smart_retry_orchestrator.Metrics.{get_recovery_metrics}

module _ {F : Type 0} ⦃fl : Float64 F⦄ where
  length-is_hard :
      (ts : List (Transaction F)) → length ts ≡ length (keep is_hard ts) + length (keep is_soft ts)
  length-is_hard [] = omega arith
  length-is_hard (t ∷ ts) = ground (arith, length-is_hard ts)

  -- of a sound transaction, whether it is soft, recovered and exhausted
  IsSound-tests :
      (t : Transaction F)
      → IsSound t
      → ((is_soft t ≡ false) × (is_recovered t ≡ false) × (is_exhausted t ≡ false))
        ⊎ ((is_soft t ≡ true) × (is_recovered t ≡ true) × (is_exhausted t ≡ false))
        ⊎ ((is_soft t ≡ true) × (is_recovered t ≡ false) × (is_exhausted t ≡ true))
  IsSound-tests t (inl d) = inl (ground (arith, d.hard, d.status))
  IsSound-tests t (inr r) = elim r.ended [
    | inl e ↦ inr (inl (ground (arith, r.soft, e)))
    | inr e ↦ inr (inr (ground (arith, r.soft, e.0)))
  ]

  length-is_soft :
      (ts : List (Transaction F))
      → All IsSound ts
      → length (keep is_soft ts) ≡ length (keep is_recovered ts) + length (keep is_exhausted ts)
  length-is_soft [] all = omega arith
  length-is_soft (t ∷ ts) (first, rest) =
      ground (arith, IsSound-tests t first, length-is_soft ts rest)

  pub length-ids : (ts : List (Transaction F)) → length (ids ts) ≡ length ts
  length-ids [] = refl
  length-ids (t ∷ ts) = omega (arith, length-ids ts)

  rate-le_one :
      IsIeee F
      → (a b : ℕ) → a ≤ b
      → b < small
      → fl.le (if b == 0 then fl.lit 0 1 else fl.div (fl.of_int a) (fl.of_int b)) (fl.lit 1 1)
        ≡ true
  rate-le_one ieee a b h few =
      ground (arith, ieee.div-of_int a b, ieee.le-lit a b 1 1, ieee.le-lit 0 1 1 1)

  -- While fewer than 2^25 transactions are stored, the recovery metrics of any range of time are
  -- there, every transaction in them is a hard or a soft decline, every soft decline is recovered or
  -- exhausted, and the recovery rate is at most one.
  pub get_recovery_metrics_totals :
      IsIeee F
      → (s : System F) (start end : Time) → IsOrderly s
      → length s.store.tx_order < small
      → (m : RecoveryMetrics F) × (get_recovery_metrics start end s.store ≡ some m)
        × (m.total_transactions ≡ m.hard_declines + m.soft_declines)
        × (m.soft_declines ≡ m.recovered + m.exhausted)
        × (fl.le m.recovery_rate (fl.lit 1 1) ≡ true)
  get_recovery_metrics_totals ieee s start end o few =
      let (m, e, known) =
        get_recovery_metrics-IsRecovery start end s.store o.transactions o.stored in
      let txns = keep (created_between start end) o.transactions in
      let halves = length-is_hard txns in
      let ends =
        length-is_soft txns (All-keep IsSound (created_between start end) o.transactions o.sound) in
      let order = ap length o.stored.order in
      let fewer : length (keep is_soft txns) < small = omega (
        arith,
        few,
        order,
        length-ids o.transactions,
        length-keep (created_between start end) o.transactions,
        length-keep is_soft txns,
      ) in
      (
        m,
        e,
        omega (arith, known.total, known.hard, known.soft, halves),
        omega (arith, known.soft, known.recovered_ones, known.exhausted_ones, ends),
        rw known.rate (
            rate-le_one ieee (length (keep is_recovered txns)) (length (keep is_soft txns))
              (omega (arith, ends)) fewer),
      )
