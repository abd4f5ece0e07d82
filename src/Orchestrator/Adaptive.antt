-- ===== src/Orchestrator/Adaptive.antt =====
-- The adaptive data of internal/orchestrator/orchestrator.go: recordAdaptive, getAdaptiveRate and
-- GetAdaptiveWeights. A nil map or record is a missing entry.
use smart_retry_orchestrator.Float.{Float64, IsIeee, small}
use smart_retry_orchestrator.Domain.Enums.{FailureReasonCode, ProcessorName}
use smart_retry_orchestrator.Orchestrator.State.{AdaptiveRecord, AdaptiveData}
use smart_retry_orchestrator.Common.{
  List, Bool, [], map, str_eq, ◌∷◌, ◌≡◌, if◌then◌else◌, ◌&&◌, ◌+◌, ltb, Bool-cases, none, keep,
  length, some, inr, arith, inl, eq_iff, ◌≤◌, ◌==◌, ◌<◌, true, Option-cases, refl,
}
use smart_retry_orchestrator.Domain.Models.{AdaptiveWeight}
use smart_retry_orchestrator.Common.Dict.{lookup, get_or, Dict, insert, lookup-insert}

abbrev zero_record : AdaptiveRecord
zero_record = record { successes = 0; total = 0 }

abbrev pub bump : AdaptiveRecord → Bool → AdaptiveRecord
bump rec success = record {
  total = rec.total + 1;
  successes = if success then rec.successes + 1 else rec.successes;
}

unfoldable pub record_adaptive :
    FailureReasonCode → ProcessorName → Bool → AdaptiveData → AdaptiveData
record_adaptive code processor success adaptive =
    let processors = get_or [] (lookup code adaptive) in
    let rec = get_or zero_record (lookup processor processors) in
    insert code (insert processor (bump rec success) processors) adaptive

-- What is known of a failure code on a processor.
abbrev pub record_of : FailureReasonCode → ProcessorName → AdaptiveData → AdaptiveRecord
record_of code processor adaptive =
    get_or zero_record (lookup processor (get_or [] (lookup code adaptive)))

module _ {F : Type 0} ⦃fl : Float64 F⦄ where
  unfoldable pub get_adaptive_rate : FailureReasonCode → ProcessorName → AdaptiveData → F
  get_adaptive_rate code processor adaptive = elim (lookup code adaptive) [
    | none ↦ fl.lit 50 100
    | some processors ↦ elim (lookup processor processors) [
      | none ↦ fl.lit 50 100
      | some rec ↦
          if rec.total == 0
          then fl.lit 50 100
          else fl.div (fl.of_int rec.successes) (fl.of_int rec.total)
    ]
  ]

  -- the inner loop of GetAdaptiveWeights
  fill_weights : AdaptiveWeight F → Dict AdaptiveRecord → AdaptiveWeight F
  fill_weights w [] = w
  fill_weights w ((p, rec) ∷ rest) =
      fill_weights
        (if ltb 0 rec.total
          then record w {
            weights = insert p (fl.div (fl.of_int rec.successes) (fl.of_int rec.total)) w.weights;
            sample_count = insert p rec.total w.sample_count;
          }
          else w)
        rest

  -- Go visits the codes in an order of its own; here it is that of the dictionary.
  unfoldable pub get_adaptive_weights : AdaptiveData → List (AdaptiveWeight F)
  unfolding fill_weights
  get_adaptive_weights = map λ (code, processors).
      fill_weights (record { failure_code = code; weights = []; sample_count = [] }) processors

-- One report of a retry outcome.
pub record AdaptiveReport : Type 0 where
  pub code : FailureReasonCode
  pub processor : ProcessorName
  pub success : Bool

unfoldable pub learn : AdaptiveData → List AdaptiveReport → AdaptiveData
learn adaptive [] = adaptive
learn adaptive (r ∷ rest) = learn (record_adaptive r.code r.processor r.success adaptive) rest

abbrev pub is_about : FailureReasonCode → ProcessorName → AdaptiveReport → Bool
is_about code processor r = str_eq r.code code && str_eq r.processor processor

pub record_of-record_adaptive :
    (c code : FailureReasonCode) (p processor : ProcessorName) (s : Bool) (adaptive : AdaptiveData)
    → record_of code processor (record_adaptive c p s adaptive) ≡ (
        if str_eq c code && str_eq p processor
        then bump (record_of code processor adaptive) s
        else record_of code processor adaptive)
unfolding record_adaptive
record_of-record_adaptive c code p processor s adaptive =
    rw (lookup-insert c code) (elim (Bool-cases (str_eq c code)) [
      | inr other ↦ rw other refl
      | inl e ↦
          rw (e, (eq_iff c code).0 e, lookup-insert p processor)
            (elim (Bool-cases (str_eq p processor)) [
              | inr other ↦ rw other refl
              | inl f ↦ rw (f, (eq_iff p processor).0 f) refl
            ])
    ])

-- The record of a code on a processor counts the reports about them, and those of a success.
learn_lem :
    (code : FailureReasonCode) (processor : ProcessorName) (adaptive : AdaptiveData)
    (rs : List AdaptiveReport)
    → let before = record_of code processor adaptive in
      let after = record_of code processor (learn adaptive rs) in
      let about = keep (is_about code processor) rs in
      (after.total ≡ before.total + length about)
      × (after.successes ≡ before.successes + length (keep (λ r. r.success) about))
unfolding learn
learn_lem code processor adaptive [] = omega arith
learn_lem code processor adaptive (r ∷ rest) =
    let next = record_adaptive r.code r.processor r.success adaptive in
    ground (
      arith,
      learn_lem code processor next rest,
      record_of-record_adaptive r.code code r.processor processor r.success adaptive,
    )

module _ (F : Type 0) ⦃fl : Float64 F⦄ where
  pub get_adaptive_rate-eq :
      (code : FailureReasonCode) (processor : ProcessorName) (adaptive : AdaptiveData)
      → let rec = record_of code processor adaptive in
        get_adaptive_rate {F = F} code processor adaptive ≡ (
          if rec.total == 0
          then fl.lit 50 100
          else fl.div (fl.of_int rec.successes) (fl.of_int rec.total))
  unfolding get_adaptive_rate lookup
  get_adaptive_rate-eq code processor adaptive = elim (Option-cases (lookup code adaptive)) [
    | inl e ↦ rw (e, get_adaptive_rate) refl
    | inr (ps, e) ↦
        rw (e, get_adaptive_rate)
          (elim (Option-cases (lookup processor ps)) [
            | inl f ↦ rw f refl
            | inr (rec, f) ↦ rw f refl
          ])
  ]

  -- After any reports the rate of a code on a processor is the number of reported successes of the
  -- two over the number of reports about them, and 0.50 while there is none; no report about another
  -- code or another processor has a part in it.
  pub get_adaptive_rate-learn :
      (code : FailureReasonCode) (processor : ProcessorName) (rs : List AdaptiveReport)
      → let about = keep (is_about code processor) rs in
        get_adaptive_rate {F = F} code processor (learn [] rs) ≡ (
          if length about == 0
          then fl.lit 50 100
          else fl.div (fl.of_int (length (keep (λ r. r.success) about))) (fl.of_int (length about)))
  unfolding lookup
  get_adaptive_rate-learn code processor rs =
      ground
        (arith, get_adaptive_rate-eq code processor (learn [] rs), learn_lem code processor [] rs)

  -- A rate that was learned from fewer than 2^25 reports is a proportion.
  pub get_adaptive_rate-le_one :
      IsIeee F
      → (code : FailureReasonCode) (processor : ProcessorName) (adaptive : AdaptiveData)
      → let rec = record_of code processor adaptive in
        rec.successes ≤ rec.total
        → rec.total < small
        → fl.le (get_adaptive_rate {F = F} code processor adaptive) (fl.lit 1 1) ≡ true
  get_adaptive_rate-le_one ieee code processor adaptive hs ht =
      let rec = record_of code processor adaptive in
      ground (
        arith,
        get_adaptive_rate-eq code processor adaptive,
        ieee.div-of_int rec.successes rec.total,
        ieee.le-lit rec.successes rec.total 1 1,
        ieee.le-lit 50 100 1 1,
      )
