-- ===== src/Metrics/Counts.antt =====
-- GetRecoveryMetrics (internal/metrics/calculator.go) against the stored transactions.
use smart_retry_orchestrator.Float.{Float64}
use smart_retry_orchestrator.Common.{
  List, String, Bool, ℕ, ◌∷◌, not, str_eq, [], true, false, ◌≡◌, ◌++◌, ◌+◌, length, keep,
  if◌then◌else◌, Bool-cases, inl, eq_iff, inr, arith, refl, length-append, ◌==◌, ◌∙◌, some, leb,
  ◌&&◌,
}
use smart_retry_orchestrator.Domain.Models.{RecoveryMetrics, Transaction, RetryAttempt, Time}
use smart_retry_orchestrator.Metrics.{
  count_transaction, count_code, count_decline, count_status, count_transactions,
  get_recovery_metrics, empty_metrics, averages,
}
use smart_retry_orchestrator.Common.Dict.{Dict, get_or, lookup, lookup-insert}
use smart_retry_orchestrator.Domain.Enums.{exhausted, hard_decline, recovered, soft_decline}
use smart_retry_orchestrator.Store.{MemoryStore}
use smart_retry_orchestrator.Store.Refinement.{Represents}
use smart_retry_orchestrator.Store.Listing.{get_all_transactions_in_range-Represents}

count_code_lem :
    (c code : String) (breakdown : Dict ℕ)
    → get_or 0 (lookup code (count_code c breakdown))
      ≡ get_or 0 (lookup code breakdown) + (if str_eq c code then 1 else 0)
unfolding count_code
count_code_lem c code breakdown = rw (lookup-insert c code) (elim (Bool-cases (str_eq c code)) [
  | inl e ↦ rw (e, (eq_iff c code).0 e) refl
  | inr e ↦ rw e (omega arith)
])

module _ {F : Type 0} ⦃fl : Float64 F⦄ where
  abbrev pub is_hard : Transaction F → Bool
  is_hard tx = elim tx.classification.decline_type [ hard_decline ↦ true | soft_decline ↦ false ]

  abbrev pub is_soft : Transaction F → Bool
  is_soft tx = not (is_hard tx)

  abbrev pub is_recovered : Transaction F → Bool
  is_recovered tx = elim tx.status [ recovered ↦ true | _ ↦ false ]

  abbrev pub is_exhausted : Transaction F → Bool
  is_exhausted tx = elim tx.status [ exhausted ↦ true | _ ↦ false ]

  abbrev pub has_code : String → Transaction F → Bool
  has_code code tx = str_eq tx.original_event.failure_code code

  abbrev pub attempts_of : List (Transaction F) → List (RetryAttempt F)
  attempts_of [] = []
  attempts_of (tx ∷ rest) = tx.retry_attempts ++ attempts_of rest

  abbrev code_count : String → RecoveryMetrics F → ℕ
  code_count code m = get_or 0 (lookup code m.failure_code_breakdown)

  -- The counters after some transactions, from those before.
  record IsCounted (m m' : RecoveryMetrics F) (txns : List (Transaction F)) : Type 0 where
    total : m'.total_transactions ≡ m.total_transactions + length txns
    hard : m'.hard_declines ≡ m.hard_declines + length (keep is_hard txns)
    soft : m'.soft_declines ≡ m.soft_declines + length (keep is_soft txns)
    recovered_ones : m'.recovered ≡ m.recovered + length (keep is_recovered txns)
    exhausted_ones : m'.exhausted ≡ m.exhausted + length (keep is_exhausted txns)
    retries : m'.total_retries_attempted ≡ m.total_retries_attempted + length (attempts_of txns)
    codes :
        (code : String)
        → code_count code m' ≡ code_count code m + length (keep (has_code code) txns)
    rate : m'.recovery_rate ≡ m.recovery_rate

  count_transaction-IsCounted :
      (m : RecoveryMetrics F) (tx : Transaction F) → IsCounted m (count_transaction m tx) (tx ∷ [])
  unfolding count_transaction count_decline count_status
  count_transaction-IsCounted m tx = record {
    total = ground arith;
    hard = ground arith;
    soft = ground arith;
    recovered_ones = ground arith;
    exhausted_ones = ground arith;
    retries = ground (arith, length-append tx.retry_attempts []);
    codes = λ code.
        ground (arith, count_code_lem tx.original_event.failure_code code m.failure_code_breakdown);
    rate = ground arith;
  }

  count_transactions-IsCounted :
      (m : RecoveryMetrics F) (txns : List (Transaction F))
      → IsCounted m (count_transactions m txns) txns
  unfolding count_transactions
  count_transactions-IsCounted m [] = record {
    total = omega arith;
    hard = omega arith;
    soft = omega arith;
    recovered_ones = omega arith;
    exhausted_ones = omega arith;
    retries = omega arith;
    codes = λ code. omega arith;
    rate = refl;
  }
  count_transactions-IsCounted m (tx ∷ rest) =
      let one = count_transaction-IsCounted m tx in
      let others = count_transactions-IsCounted (count_transaction m tx) rest in
      record {
        total = ground (arith, one.total, others.total);
        hard = ground (arith, one.hard, others.hard);
        soft = ground (arith, one.soft, others.soft);
        recovered_ones = ground (arith, one.recovered_ones, others.recovered_ones);
        exhausted_ones = ground (arith, one.exhausted_ones, others.exhausted_ones);
        retries = ground (
          arith,
          one.retries,
          others.retries,
          length-append tx.retry_attempts [],
          length-append tx.retry_attempts (attempts_of rest),
        );
        codes = λ code. ground (arith, one.codes code, others.codes code);
        rate = others.rate ∙ one.rate;
      }

  -- The metrics of some transactions.
  pub record IsRecovery (m : RecoveryMetrics F) (txns : List (Transaction F)) : Type 0 where
    pub total : m.total_transactions ≡ length txns
    pub hard : m.hard_declines ≡ length (keep is_hard txns)
    pub soft : m.soft_declines ≡ length (keep is_soft txns)
    pub recovered_ones : m.recovered ≡ length (keep is_recovered txns)
    pub exhausted_ones : m.exhausted ≡ length (keep is_exhausted txns)
    pub retries : m.total_retries_attempted ≡ length (attempts_of txns)
    pub codes : (code : String) → code_count code m ≡ length (keep (has_code code) txns)
    pub rate : m.recovery_rate ≡ (
        if length (keep is_soft txns) == 0
        then fl.lit 0 1
        else fl.div
            (fl.of_int (length (keep is_recovered txns)))
            (fl.of_int (length (keep is_soft txns))))

  averages_lem :
      (m : RecoveryMetrics F)
      → ((averages m).total_transactions ≡ m.total_transactions)
        × ((averages m).hard_declines ≡ m.hard_declines)
        × ((averages m).soft_declines ≡ m.soft_declines)
        × ((averages m).recovered ≡ m.recovered)
        × ((averages m).exhausted ≡ m.exhausted)
        × ((averages m).total_retries_attempted ≡ m.total_retries_attempted)
        × ((averages m).failure_code_breakdown ≡ m.failure_code_breakdown)
        × ((averages m).recovery_rate ≡ (
            if m.soft_declines == 0
            then m.recovery_rate
            else fl.div (fl.of_int m.recovered) (fl.of_int m.soft_declines)))
  unfolding averages
  averages_lem m = ground arith

  averages-IsRecovery :
      (start end : Time) (txns : List (Transaction F))
      → IsRecovery (averages (count_transactions (empty_metrics start end) txns)) txns
  unfolding empty_metrics lookup
  averages-IsRecovery start end txns =
      let counted = count_transactions (empty_metrics start end) txns in
      let known = count_transactions-IsCounted (empty_metrics start end) txns in
      let (total, hard, soft, recovered_ones, exhausted_ones, retries, codes, rate) =
        averages_lem counted in
      record {
        total = omega (arith, total, known.total);
        hard = omega (arith, hard, known.hard);
        soft = omega (arith, soft, known.soft);
        recovered_ones = omega (arith, recovered_ones, known.recovered_ones);
        exhausted_ones = omega (arith, exhausted_ones, known.exhausted_ones);
        retries = omega (arith, retries, known.retries);
        codes = λ code. rw codes (omega (arith, known.codes code));
        rate = ground (arith, rate, known.soft, known.recovered_ones, known.rate);
      }

  abbrev pub created_between : (start end : Time) → Transaction F → Bool
  created_between start end t = leb start t.created_at && leb t.created_at end

  -- On a store that stands for a list, GetRecoveryMetrics of a range of time succeeds, and counts
  -- the transactions that were created in the range: all, the hard and the soft declines, the
  -- recovered, the exhausted, their retry attempts, and those of each failure code; the recovery
  -- rate is the number of recovered over that of soft declines, and zero without soft declines.
  pub get_recovery_metrics-IsRecovery :
      (start end : Time) (s : MemoryStore F) (ts : List (Transaction F))
      → Represents s ts
      → (m : RecoveryMetrics F) × (get_recovery_metrics start end s ≡ some m)
        × IsRecovery m (keep (created_between start end) ts)
  unfolding get_recovery_metrics
  get_recovery_metrics-IsRecovery start end s ts r =
      let txns = keep (created_between start end) ts in
      (
        averages (count_transactions (empty_metrics start end) txns),
        rw (get_all_transactions_in_range-Represents s ts start end r, get_recovery_metrics) refl,
        averages-IsRecovery start end txns,
      )
