-- ===== src/Orchestrator/Select/Choice.antt =====
-- What selectBestAlternative (internal/orchestrator/orchestrator.go) returns.
use smart_retry_orchestrator.Domain.Enums.{
  ProcessorName, processor_a, FailureReasonCode, processor_b, processor_c, is_down,
}
use smart_retry_orchestrator.Float.{Float64}
use smart_retry_orchestrator.Common.{
  ◌≡◌, ℕ, ◌⊎◌, str_eq, suc, List, All, arith, false, true, length, ◌∷◌, Bool-cases, inl, All-mono,
  inr, ◌+◌, ◌≤◌, ◌<◌, [], if◌then◌else◌, refl,
}
use smart_retry_orchestrator.Orchestrator.State.{Env, System, health_of, time_now}
use smart_retry_orchestrator.Orchestrator.Select.{collect_candidates, Candidate, candidate}
use smart_retry_orchestrator.Domain.Models.{ProcessorHealthSnapshot}
use smart_retry_orchestrator.Health.{get_health}

abbrev pub IsProcessor : ProcessorName → Type 0
IsProcessor p = (p ≡ processor_a) ⊎ (p ≡ processor_b) ⊎ (p ≡ processor_c)

module _ {F : Type 0} ⦃fl : Float64 F⦄ ⦃env : Env F⦄ (exclude : ProcessorName)
    (code : FailureReasonCode) (s : System F) where
  -- The system when the clock has been read `m` times.
  abbrev at : ℕ → System F
  at m = record s { clock_reads = m }

  -- What the n-th reading of the clock shows of a processor.
  abbrev pub health_at : ℕ → ProcessorName → ProcessorHealthSnapshot F
  health_at n p = get_health (env.now n) s.health_tracker p

  abbrev pub candidate_at : ℕ → ProcessorName → Candidate F
  candidate_at n p = candidate code p (health_at n p) s.adaptive_data

  -- Where the candidates come from: processors that were not down when they were looked at, at one
  -- of `k` readings of the clock.
  pub record IsSeen (lo k : ℕ) (c : Candidate F) : Type 0 where
    pub known : IsProcessor c.name
    pub other : str_eq c.name exclude ≡ false
    pub reading : ℕ
    pub from : lo ≤ reading
    pub until : reading < lo + k
    pub up : is_down (health_at reading c.name).state ≡ false
    pub shape : c ≡ candidate_at reading c.name

  IsSeen-wider :
      (lo k lo' k' : ℕ)
      → lo' ≤ lo
      → lo + k ≤ lo' + k'
      → (c : Candidate F) → IsSeen lo k c
      → IsSeen lo' k' c
  IsSeen-wider lo k lo' k' h j c seen = record {
    known = seen.known;
    other = seen.other;
    reading = seen.reading;
    from = omega (arith, h, seen.from);
    until = omega (arith, j, seen.until);
    up = seen.up;
    shape = seen.shape;
  }

  abbrev pub collected : List ProcessorName → ℕ → List (Candidate F)
  collected ps m = (collect_candidates exclude code ps (at m)).0

  collected-skip :
      (p : ProcessorName) (ps : List ProcessorName) (m : ℕ)
      → str_eq p exclude ≡ true
      → collected (p ∷ ps) m ≡ collected ps m
  unfolding collect_candidates
  collected-skip p ps m e = rw (e, collected) refl

  collected-take :
      (p : ProcessorName) (ps : List ProcessorName) (m : ℕ)
      → str_eq p exclude ≡ false
      → collected (p ∷ ps) m ≡ (
          if is_down (health_at m p).state
          then collected ps (m + 1)
          else candidate_at m p ∷ collected ps (m + 1))
  unfolding collect_candidates health_of time_now
  collected-take p ps m e = rw (e, collected) refl

  -- A processor was passed over, or looked at and found down, or it is a candidate.
  abbrev pub IsCovered : (lo k : ℕ) → (Candidate F → Type 0) → ProcessorName → Type 0
  IsCovered lo k Holds q =
      (str_eq q exclude ≡ true)
      ⊎ (n : ℕ) × (lo ≤ n)
        × (n < lo + k)
        × ((is_down (health_at n q).state ≡ true) ⊎ Holds (candidate_at n q))

  pub collected-IsSeen :
      (ps : List ProcessorName) (m : ℕ)
      → All IsProcessor ps
      → All (IsSeen m (length ps)) (collected ps m)
  unfolding collect_candidates candidate
  collected-IsSeen [] m known = tt
  collected-IsSeen (p ∷ ps) m (k, known) =
      let more =
        All-mono (IsSeen-wider m (length ps) m (suc (length ps)) (omega arith) (omega arith)) _
          (collected-IsSeen ps m known) in
      let later =
        All-mono (IsSeen-wider (m + 1) (length ps) m (suc (length ps)) (omega arith) (omega arith))
          _ (collected-IsSeen ps (m + 1) known) in
      elim (Bool-cases (str_eq p exclude)) [
        | inl e ↦ rw (collected-skip p ps m e) more
        | inr e ↦ rw (collected-take p ps m e) (elim (Bool-cases (is_down (health_at m p).state)) [
          | inl d ↦ rw d later
          | inr u ↦ rw u (
            record {
              known = k;
              other = e;
              reading = m;
              from = omega arith;
              until = omega arith;
              up = u;
              shape = refl;
            },
            later,
          )
        ])
      ]

  IsCovered-wider :
      (lo k lo' k' : ℕ) (Holds : Candidate F → Type 0)
      → lo' ≤ lo
      → lo + k ≤ lo' + k'
      → (q : ProcessorName) → IsCovered lo k Holds q
      → IsCovered lo' k' Holds q
  IsCovered-wider lo k lo' k' Holds h j q (inl e) = inl e
  IsCovered-wider lo k lo' k' Holds h j q (inr (n, from, until, rest)) =
      inr (n, omega (arith, h, from), omega (arith, j, until), rest)

  pub collected-IsCovered :
      (Holds : Candidate F → Type 0) (ps : List ProcessorName) (m : ℕ)
      → All Holds (collected ps m)
      → All (IsCovered m (length ps) Holds) ps
  collected-IsCovered Holds [] m = λ all. tt
  collected-IsCovered Holds (p ∷ ps) m =
      let more =
        All-mono
          (IsCovered-wider m (length ps) m (suc (length ps)) Holds (omega arith) (omega arith))
          ps in
      let later =
        All-mono
          (IsCovered-wider (m + 1) (length ps) m (suc (length ps)) Holds (omega arith)
            (omega arith))
          ps in
      elim (Bool-cases (str_eq p exclude)) [
        | inl e ↦
            rw (collected-skip p ps m e) λ all. (inl e, more (collected-IsCovered Holds ps m all))
        | inr e ↦ rw (collected-take p ps m e) (elim (Bool-cases (is_down (health_at m p).state)) [
          | inl d ↦ rw d λ all. (
            inr (m, omega arith, omega arith, inl d),
            later (collected-IsCovered Holds ps (m + 1) all),
          )
          | inr u ↦ rw u λ all. (
            inr (m, omega arith, omega arith, inr all.0),
            later (collected-IsCovered Holds ps (m + 1) all.1),
          )
        ])
      ]
