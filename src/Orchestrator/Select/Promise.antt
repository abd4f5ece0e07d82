-- ===== src/Orchestrator/Select/Promise.antt =====
-- What selectBestAlternative (internal/orchestrator/orchestrator.go) promises of the processor that
-- it returns.
use smart_retry_orchestrator.Float.{Float64, IsIeee, small}
use smart_retry_orchestrator.Orchestrator.Select.{
  cheapest, less, Candidate, choose, select_best_alternative, candidate,
}
use smart_retry_orchestrator.Domain.Models.{processor_cost}
use smart_retry_orchestrator.Common.{
  ◌≡◌, false, true, arith, some, if◌then◌else◌, ◌⊎◌, str_eq, Bool-cases, inl, sym, eq_iff, inr, ℕ,
  List, All, [], ◌∷◌, ◌<◌, ltb, refl, ◌*◌, ◌≤◌, ◌+◌, All-mono, All-both, ◌∙◌,
}
use smart_retry_orchestrator.Common.Dict.{lookup}
use smart_retry_orchestrator.Orchestrator.Select.Best.{IsRanked, eq_of_lt, less_asymm, less_trans}
use smart_retry_orchestrator.Domain.Enums.{
  ProcessorName, processor_c, processor_b, processor_a, FailureReasonCode, all_processors, is_down,
}
use smart_retry_orchestrator.Orchestrator.State.{Env, System}
use smart_retry_orchestrator.Orchestrator.Select.Choice.{
  IsSeen, collected, IsProcessor, health_at, IsCovered, candidate_at, collected-IsSeen,
  collected-IsCovered,
}
use smart_retry_orchestrator.Orchestrator.Select.Sorting.{sort_slice-IsLeast, sort_slice}
use smart_retry_orchestrator.Orchestrator.Select.Small.{
  IsModerate, IsSmall-rate, IsSmall-cost, IsSmall-failure_rate,
}
use mathlib.Core.Path.{subst}

module _ {F : Type 0} ⦃fl : Float64 F⦄ where
  -- The first candidate has the greater adaptive rate; or the same and the lower cost; or both the
  -- same and a failure rate that is not higher.
  abbrev pub IsPreferred : Candidate F → Candidate F → Type 0
  IsPreferred c d =
      (fl.lt d.adaptive_rate c.adaptive_rate ≡ true)
      ⊎ (fl.eq d.adaptive_rate c.adaptive_rate ≡ true)
        × ((fl.lt c.cost d.cost ≡ true)
            ⊎ (fl.eq d.cost c.cost ≡ true) × (fl.lt d.failure_rate c.failure_rate ≡ false))

  module _ (ieee : IsIeee F) where
    open ieee use {lt-lit}

    IsPreferred-less :
        (c : Candidate F)
        → IsRanked ieee c
        → (d : Candidate F) → IsRanked ieee d × (less d c ≡ false)
        → IsPreferred c d
    unfolding less
    IsPreferred-less c u d (v, h) = ground (
      arith,
      eq_of_lt ieee d.adaptive_rate c.adaptive_rate v.rate u.rate,
      eq_of_lt ieee d.cost c.cost v.cost u.cost,
    )

    cents-lt :
        (a b : ℕ)
        → a < small
        → b < small
        → fl.lt (fl.lit a 100) (fl.lit b 100) ≡ ltb (a * 100) (b * 100)
    cents-lt a b ha hb =
        lt-lit a 100 b 100 ha (omega arith) (omega arith) hb (omega arith) (omega arith)

    cents-lt_start : (a : ℕ) → a < 99900 → fl.lt (fl.lit a 100) (fl.lit 999 1) ≡ true
    cents-lt_start a h = ground (arith, lt-lit a 100 999 1)

    -- The fallback takes the cheapest processor that is left.
    cheapest_lem :
        (exclude : ProcessorName)
        → cheapest F exclude
          ≡ some (if str_eq processor_c exclude then processor_b else processor_c)
    unfolding cheapest processor_cost lookup
    cheapest_lem exclude =
        let a = cents-lt_start 30 (omega arith) in
        let b = cents-lt_start 25 (omega arith) in
        let c = cents-lt_start 20 (omega arith) in
        let ba = cents-lt 25 30 (omega arith) (omega arith) in
        let cb = cents-lt 20 25 (omega arith) (omega arith) in
        let ca = cents-lt 20 30 (omega arith) (omega arith) in
        elim (Bool-cases (str_eq processor_c exclude)) [
          | inl e ↦ rw (sym ((eq_iff processor_c exclude).0 e), a, ba) refl
          | inr e ↦ elim (Bool-cases (str_eq processor_b exclude)) [
            | inl eb ↦ rw (sym ((eq_iff processor_b exclude).0 eb), a, ca) refl
            | inr eb ↦ elim (Bool-cases (str_eq processor_a exclude)) [
              | inl ea ↦ rw (sym ((eq_iff processor_a exclude).0 ea), b, cb) refl
              | inr ea ↦ rw (e, eb, ea, a, ba, cb) refl
            ]
          ]
        ]

  module _ ⦃env : Env F⦄ (ieee : IsIeee F) (exclude : ProcessorName) (code : FailureReasonCode)
      (s : System F) where
    -- A processor that is not the excluded one, was not down when it was looked at, and is preferred
    -- to every other that was not down.
    pub record IsBest (p : ProcessorName) : Type 0 where
      pub known : IsProcessor p
      pub other : str_eq p exclude ≡ false
      pub reading : ℕ
      pub from : s.clock_reads ≤ reading
      pub until : reading < s.clock_reads + 3
      pub up : is_down (health_at exclude code s reading p).state ≡ false
      pub best :
          All
            (IsCovered exclude code s s.clock_reads 3
              (IsPreferred (candidate_at exclude code s reading p)))
            all_processors

    abbrev IsGood : Candidate F → Type 0
    IsGood c = IsRanked ieee c × IsSeen exclude code s s.clock_reads 3 c

    abbrev candidates : List (Candidate F)
    candidates = collected exclude code s all_processors s.clock_reads

    -- No candidates, or one of them comes first.
    choose_lem :
        (cs : List (Candidate F))
        → All IsGood cs
        → ((cs ≡ []) × (choose exclude cs ≡ cheapest F exclude))
          ⊎ (c : Candidate F) × ((choose exclude cs ≡ some c.name)
              × IsGood c
              × All (IsPreferred c) cs)
    unfolding choose sort_slice
    choose_lem [] good = inl (refl, refl)
    choose_lem (x ∷ xs) good =
        let (m, rest, (shape, cm, least)) =
          sort_slice-IsLeast less IsGood (λ c d u v. less_asymm ieee c d u.0 v.0)
            (λ c d e u v w. less_trans ieee c d e u.0 v.0 w.0) x xs good in
        let preferred =
          All-mono (λ d h. IsPreferred-less ieee m cm.0 d (h.0.0, h.1)) (x ∷ xs)
            (All-both IsGood (λ d. less d m ≡ false) (x ∷ xs) good least) in
        inr (m, (rw (shape, choose) refl, cm, preferred))

    module _ (moderate : IsModerate s) where
      IsGood-seen : (c : Candidate F) → IsSeen exclude code s s.clock_reads 3 c → IsGood c
      unfolding candidate
      IsGood-seen c seen =
          let at_reading : IsRanked ieee (candidate_at exclude code s seen.reading c.name) =
            record {
              rate = IsSmall-rate ieee s moderate code c.name;
              cost = IsSmall-cost c.name;
              failure = IsSmall-failure_rate ieee s moderate (env.now seen.reading) c.name;
            } in
          (subst (IsRanked ieee) (sym seen.shape) at_reading, seen)

      IsBest-preferred :
          (c : Candidate F) → IsGood c → All (IsPreferred c) candidates → IsBest c.name
      IsBest-preferred c (ranked, seen) preferred = record {
        known = seen.known;
        other = seen.other;
        reading = seen.reading;
        from = seen.from;
        until = seen.until;
        up = seen.up;
        best =
            subst
              (λ d. All (IsCovered exclude code s s.clock_reads 3 (IsPreferred d)) all_processors)
              seen.shape
              (collected-IsCovered exclude code s (IsPreferred c) all_processors s.clock_reads
                preferred);
      }

      -- While all counters are below 2^25, the selection returns a processor. Either it is the best:
      -- one of the three, not the excluded one, not down when it was looked at, and preferred by
      -- adaptive rate, then cost, then failure rate to every other that was not down. Or each of the
      -- others was down when it was looked at, and it is C, or B where C is excluded.
      pub select_best_alternative_lem :
          ((p : ProcessorName) × ((select_best_alternative exclude code s).0 ≡ some p) × IsBest p)
          ⊎ ((select_best_alternative exclude code s).0
              ≡ some (if str_eq processor_c exclude then processor_b else processor_c))
            × All (IsCovered exclude code s s.clock_reads 3 (λ c. ⊥)) all_processors
      unfolding select_best_alternative
      select_best_alternative_lem =
          let known : All IsProcessor all_processors =
            (inl refl, (inr (inl refl), (inr (inr refl), tt))) in
          let good =
            All-mono IsGood-seen candidates
              (collected-IsSeen exclude code s all_processors s.clock_reads known) in
          elim (choose_lem candidates good) [
            | inl (none_left, chosen) ↦ inr (
              chosen ∙ cheapest_lem ieee exclude,
              collected-IsCovered exclude code s (λ c. ⊥) all_processors s.clock_reads
                  (rw none_left tt),
            )
            | inr (c, (chosen, g, preferred)) ↦ inl (c.name, chosen, IsBest-preferred c g preferred)
          ]
