-- ===== src/Orchestrator/State.antt =====
-- What the orchestrator (internal/orchestrator/orchestrator.go) works on: its fields and those of
-- its parts, and the clock and the random source, which answer one value to each call.
use smart_retry_orchestrator.Domain.Models.{
  Transaction, Time, RetryDecision, ProcessorHealthSnapshot,
}
use smart_retry_orchestrator.Float.{Float64}
use smart_retry_orchestrator.Common.{◌+◌, ℕ, Bool, []}
use smart_retry_orchestrator.Common.Dict.{Dict}
use smart_retry_orchestrator.Health.{RollingHealthTracker, record_outcome, get_health}
use smart_retry_orchestrator.Domain.Enums.{ProcessorName}
use smart_retry_orchestrator.Store.{
  save_decision_log, MemoryStore, save_transaction, update_transaction,
}
use smart_retry_orchestrator.Domain.Errors.{Result}

-- The answers of the environment: `now n` is what the n-th call of time.Now returns, `float64 n`
-- what the n-th call of rng.Float64 returns.
pub record Env (F : Type 0) : Type 0 where
  pub now : ℕ → Time
  pub float64 : ℕ → F

pub record AdaptiveRecord : Type 0 where
  pub successes : ℕ
  pub total : ℕ

abbrev pub AdaptiveData : Type 0
AdaptiveData = Dict (Dict AdaptiveRecord)

pub record System (F : Type 0) : Type 0 where
  pub health_tracker : RollingHealthTracker
  pub store : MemoryStore F
  pub adaptive_data : AdaptiveData
  pub clock_reads : ℕ
  pub draws : ℕ

-- A method acts on the system and returns a value.
abbrev pub Action : Type 0 → Type 0 → Type 0
Action F A = System F → A × System F

module _ {F : Type 0} {A : Type 0} where
  unfoldable pub pure : A → Action F A
  pure a s = (a, s)

  unfoldable pub gets : (System F → A) → Action F A
  gets f s = (f s, s)

module _ {F : Type 0} {A B : Type 0} where
  infixl 10 ◌>>=◌ ◌>>◌
  abbrev pub ◌>>=◌ : Action F A → (A → Action F B) → Action F B
  ◌>>=◌ m f s = let (a, s') = m s in f a s'

  abbrev pub ◌>>◌ : Action F A → Action F B → Action F B
  m >> n = m >>= λ _. n

module _ {F : Type 0} where
  -- the state before New has been used, with the given tracker and store
  unfoldable pub new_system : RollingHealthTracker → MemoryStore F → System F
  new_system h s = record {
    health_tracker = h;
    store = s;
    adaptive_data = [];
    clock_reads = 0;
    draws = 0;
  }

  module _ ⦃env : Env F⦄ where
    unfoldable pub time_now : Action F Time
    time_now s = (env.now s.clock_reads, record s { clock_reads = s.clock_reads + 1 })

    unfoldable pub draw_float64 : Action F F
    draw_float64 s = (env.float64 s.draws, record s { draws = s.draws + 1 })

    -- o.healthTracker.RecordOutcome, which reads the clock
    unfoldable pub record_health : ProcessorName → Bool → Time → Action F (Unit {0})
    unfolding time_now
    record_health processor success ts = do
      now ← time_now
      λ s. (
        tt,
        record s { health_tracker = record_outcome now s.health_tracker processor success ts },
      )

    -- o.healthTracker.GetHealth, which reads the clock
    unfoldable pub health_of :
        ⦃fl : Float64 F⦄ → ProcessorName → Action F (ProcessorHealthSnapshot F)
    unfolding time_now gets
    health_of processor = do now ← time_now; gets (λ s. get_health now s.health_tracker processor)

  unfoldable pub save : Transaction F → Action F (Result (Unit {0}))
  save tx s = let (r, store') = save_transaction s.store tx in (r, record s { store = store' })

  unfoldable pub update : Transaction F → Action F (Result (Unit {0}))
  update tx s = let (r, store') = update_transaction s.store tx in (r, record s { store = store' })

  unfoldable pub log_decision : RetryDecision F → Action F (Unit {0})
  log_decision d s = (tt, record s { store = save_decision_log s.store d })
