-- ===== src/Datagen/Generator.antt =====
-- datagen/generator.go: the events of the test data.
use smart_retry_orchestrator.Datagen.Random.{pure, ◌>>=◌, Draw, Rng, float64, choose_from, intn}
use smart_retry_orchestrator.Common.{
  ℕ, List, String, ◌∷◌, [], ◌/◌, ◌+◌, ◌*◌, if◌then◌else◌, ◌-◌, Option, ltb, suc, str_eq, zero, ◌++◌,
}
use smart_retry_orchestrator.Float.{Float64}
use smart_retry_orchestrator.Domain.Enums.{
  ProcessorName, FailureReasonCode, processor_a, code_insufficient_funds, code_processor_timeout,
  processor_b, processor_c, code_card_expired, code_network_error, code_issuer_unavailable,
  code_invalid_card, code_do_not_honor, code_fraud_suspected, code_rate_limit_exceeded,
}
use smart_retry_orchestrator.Common.Text.{padded, concat}
use smart_retry_orchestrator.Domain.Models.{FailureEvent, Time, minute, second}
use smart_retry_orchestrator.Datagen.Shuffle.{shuffle}
use mathlib.Core.Option

abbrev pub total_count : ℕ
total_count = 210

-- int(float64(totalCount) * hardPct), which Go computes at build time to 84
abbrev pub hard_count : ℕ
hard_count = total_count * 40 / 100

abbrev pub soft_count : ℕ
soft_count = total_count - hard_count

abbrev pub hard_codes : List FailureReasonCode
hard_codes =
    code_insufficient_funds ∷ code_card_expired ∷ code_invalid_card ∷ code_fraud_suspected ∷ []

abbrev pub soft_codes : List FailureReasonCode
soft_codes =
    code_processor_timeout ∷ code_network_error ∷ code_issuer_unavailable ∷ code_do_not_honor
    ∷ code_rate_limit_exceeded ∷ []

abbrev pub currencies : List String
currencies = "IDR" ∷ "MYR" ∷ "PHP" ∷ []

pub record CardProfile : Type 0 where
  pub card_type : String
  pub bins : List String

abbrev pub card_profiles : List CardProfile
card_profiles =
    record { card_type = "VISA"; bins = "411111" ∷ "421234" ∷ "456789" ∷ "400000" ∷ "413456" ∷ [] }
    ∷ record {
      card_type = "MASTERCARD";
      bins = "520000" ∷ "540123" ∷ "555555" ∷ "510567" ∷ "523456" ∷ [];
    }
    ∷ record { card_type = "AMEX"; bins = "340000" ∷ "370012" ∷ "341234" ∷ "379999" ∷ [] }
    ∷ []

abbrev pub countries : List String
countries = "ID" ∷ "ID" ∷ "ID" ∷ "MY" ∷ "MY" ∷ "PH" ∷ "PH" ∷ "SG" ∷ "US" ∷ []

pub record ProcessorWeight : Type 0 where
  pub processor : ProcessorName
  pub weight : ℕ

abbrev weigh : ProcessorName → ℕ → ProcessorWeight
weigh p n = record { processor = p; weight = n }

abbrev pub weighted_processors : List ProcessorWeight
weighted_processors = weigh processor_a 45 ∷ weigh processor_b 30 ∷ weigh processor_c 25 ∷ []

abbrev pub soft_processor_weights : List ProcessorWeight
soft_processor_weights = weigh processor_a 40 ∷ weigh processor_b 35 ∷ weigh processor_c 25 ∷ []

abbrev pub total_weight : List ProcessorWeight → ℕ
total_weight [] = 0
total_weight (pw ∷ rest) = pw.weight + total_weight rest

-- the second loop of pickWeightedProcessor
unfoldable pub pick_loop : List ProcessorWeight → (r cumulative : ℕ) → ProcessorName
pick_loop [] r cumulative = processor_a
pick_loop (pw ∷ rest) r cumulative =
    if ltb r (cumulative + pw.weight)
    then pw.processor
    else pick_loop rest r (cumulative + pw.weight)

-- the event that both loops append
module _ {F : Type 0} ⦃fl : Float64 F⦄ where
  unfoldable pub event_of :
      ℕ
      → F
      → String
      → FailureReasonCode
      → ProcessorName
      → String × String
      → String
      → Time
      → FailureEvent F
  unfolding padded concat
  event_of idx amount currency code proc card country ts = record {
    transaction_id = concat ("txn-" ∷ padded 6 idx ∷ []);
    amount = fl.div (fl.of_int (fl.trunc (fl.mul amount (fl.lit 100 1)))) (fl.lit 100 1);
    currency = currency;
    failure_code = code;
    processor = proc;
    card_type = card.0;
    bin = card.1;
    country = country;
    timestamp = ts;
    metadata = [];
  }

module _ {F : Type 0} ⦃fl : Float64 F⦄ (rng : Rng F) where
  -- pickWeightedProcessor, and pickSoftProcessor with its own weights
  unfoldable pub pick_processor : List ProcessorWeight → Draw ProcessorName
  pick_processor weights = do r ← intn rng (total_weight weights); pure (pick_loop weights r 0)

  unfoldable pub pick_card : Draw (String × String)
  pick_card = do
    profile ← choose_from rng card_profiles
    bin ← choose_from rng profile.bins
    pure (profile.card_type, bin)

  -- 5.0 + rng.Float64()*495.0
  unfoldable pub draw_amount : Draw F
  draw_amount = do x ← float64 rng; pure (fl.add (fl.lit 5 1) (fl.mul x (fl.lit 495 1)))

  -- time.Duration(rng.Intn(7200)) * time.Second from the base
  unfoldable pub draw_jitter : (base : Time) → Draw Time
  draw_jitter base = do jitter ← intn rng 7200; pure (base + jitter * second)

  -- a round of the first loop
  unfoldable pub hard_event : (base : Time) → ℕ → Draw (FailureEvent F)
  hard_event base idx = do
    proc ← pick_processor weighted_processors
    code ← choose_from rng hard_codes
    amount ← draw_amount
    currency ← choose_from rng currencies
    ts ← draw_jitter base
    card ← pick_card
    country ← choose_from rng countries
    pure (event_of idx amount currency code proc card country ts)

  -- the time of a soft decline: most of Processor C's lie in the ten minutes of its degradation
  unfoldable pub soft_time : (base : Time) → ProcessorName → Draw Time
  soft_time base proc =
      let jittered = draw_jitter base in
      if str_eq proc processor_c
      then (do
        x ← float64 rng
        if fl.lt x (fl.lit 80 100)
            then (do d ← intn rng (10 * minute); pure (base + 30 * minute + d))
            else jittered)
      else jittered

  -- a round of the second loop
  unfoldable pub soft_event : (base : Time) → ℕ → Draw (FailureEvent F)
  soft_event base idx = do
    proc ← pick_processor soft_processor_weights
    code ← choose_from rng soft_codes
    amount ← draw_amount
    currency ← choose_from rng currencies
    card ← pick_card
    country ← choose_from rng countries
    ts ← soft_time base proc
    pure (event_of idx amount currency code proc card country ts)

  -- `n` rounds of a loop, from the given idx; what `append` adds comes in order
  unfoldable pub events_from : (ℕ → Draw (FailureEvent F)) → ℕ → ℕ → Draw (List (FailureEvent F))
  events_from round zero idx = pure []
  events_from round (suc n) idx = do
    event ← round idx
    rest ← events_from round n (idx + 1)
    pure (event ∷ rest)

  unfoldable pub generate : (now : Time) → Draw (List (FailureEvent F))
  generate now = do
    let base = now - 120 * minute
    hard ← events_from (hard_event base) hard_count 0
    soft ← events_from (soft_event base) soft_count hard_count
    shuffle rng (hard ++ soft)

  -- GenerateEvents: a source of its own, from its first number
  unfoldable pub generate_events : (now : Time) → Option (List (FailureEvent F))
  unfolding generate
  generate_events now = Option.map (λ r. r.0) (generate now 0)
