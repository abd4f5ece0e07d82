-- ===== src/Datagen/Generated.antt =====
-- What GenerateEvents (datagen/generator.go) returns, whatever the numbers of its source are.
use smart_retry_orchestrator.Domain.Models.{FailureEvent, Time, minute}
use smart_retry_orchestrator.Common.{
  ℕ, List, All, String, [], suc, ◌≡◌, true, ◌≤◌, ◌∷◌, ◌<◌, refl, Bool-cases, str_eq, inr, arith,
  inl, ◌*◌, ◌+◌, zero, ltb, length, ◌-◌, some, ◌++◌,
}
use smart_retry_orchestrator.Common.Dict.{lookup}
use smart_retry_orchestrator.Domain.Enums.{
  ProcessorName, DeclineType, FailureReasonCode, soft_decline, hard_decline, all_processors,
  processor_c,
}
use smart_retry_orchestrator.Float.{Float64}
use smart_retry_orchestrator.Datagen.Generator.{
  hard_codes, soft_codes, draw_jitter, draw_amount, soft_time, pick_card, pick_processor,
  ProcessorWeight, pick_loop, total_weight, card_profiles, hard_event, events_from, soft_event,
  weighted_processors, soft_processor_weights, currencies, countries, event_of, generate_events,
  hard_count, generate, soft_count,
}
use smart_retry_orchestrator.Common.Text.{concat, padded}
use smart_retry_orchestrator.Classifier.{classify, rule_or_unknown, rules}
use smart_retry_orchestrator.Api.Requests.{is_one_of}
use smart_retry_orchestrator.Datagen.Random.{Rng, IsRng, float64, choose_from, intn, Draw}
use smart_retry_orchestrator.Datagen.Drawn.{
  Yields, Yields-bind, Yields-pure, Yields-intn, Yields-choose_from, Yields-mono, Yields-shuffle,
}
use smart_retry_orchestrator.Datagen.Shuffle.{shuffle}
use smart_retry_orchestrator.Datagen.Made.{IsMade, IsTestData, IsMadeFrom, IsMadeFrom-IsTestData}

abbrev IsCodeOf : DeclineType → FailureReasonCode → Type 0
IsCodeOf type code = (rule_or_unknown (lookup code rules)).decline_type ≡ type

hard_codes-IsCodeOf : All (IsCodeOf hard_decline) hard_codes
unfolding lookup
hard_codes-IsCodeOf = (refl, (refl, (refl, (refl, tt))))

soft_codes-IsCodeOf : All (IsCodeOf soft_decline) soft_codes
unfolding lookup
soft_codes-IsCodeOf = (refl, (refl, (refl, (refl, (refl, tt)))))

All-Unit : {A : Type 0} (xs : List A) → All (λ _. Unit {0}) xs
All-Unit [] = tt
All-Unit (x ∷ xs) = (tt, All-Unit xs)

abbrev IsKnown : ProcessorName → Type 0
IsKnown p = is_one_of all_processors p ≡ true

pick_loop-IsKnown :
    (weights : List ProcessorWeight) (r cumulative : ℕ)
    → All (λ pw. IsKnown pw.processor) weights
    → IsKnown (pick_loop weights r cumulative)
unfolding pick_loop
pick_loop-IsKnown [] r cumulative all = refl
pick_loop-IsKnown (pw ∷ rest) r cumulative (first, others) =
    elim (Bool-cases (ltb r (cumulative + pw.weight))) [
      | inl e ↦ rw e first
      | inr e ↦ rw e (pick_loop-IsKnown rest r (cumulative + pw.weight) others)
    ]

module _ {F : Type 0} ⦃fl : Float64 F⦄ (rng : Rng F) (is_rng : IsRng rng) where
  Yields-float64 : Yields (float64 rng) (λ _. Unit)
  unfolding float64
  Yields-float64 = record { at = λ k. (rng.float64 k, suc k, refl, tt) }

  Yields-draw_amount : Yields (draw_amount rng) (λ _. Unit)
  unfolding draw_amount
  Yields-draw_amount = Yields-bind (float64 rng) _ _ _ Yields-float64 λ x _. Yields-pure _ _ tt

  Yields-pick_processor :
      (weights : List ProcessorWeight)
      → 0 < total_weight weights
      → All (λ pw. IsKnown pw.processor) weights
      → Yields (pick_processor rng weights) IsKnown
  unfolding pick_processor
  Yields-pick_processor weights lt all =
      Yields-bind (intn rng (total_weight weights)) _ _ _ (Yields-intn rng is_rng _ lt)
        λ r _. Yields-pure _ _ (pick_loop-IsKnown weights r 0 all)

  Yields-any :
      {A : Type 0} (xs : List A) → 0 < length xs → Yields (choose_from rng xs) (λ _. Unit {0})
  Yields-any xs lt = Yields-choose_from rng is_rng (λ _. Unit) xs lt (All-Unit xs)

  Yields-pick_card : Yields (pick_card rng) (λ _. Unit)
  unfolding pick_card
  Yields-pick_card =
      Yields-bind (choose_from rng card_profiles) _ _ _
        (Yields-choose_from rng is_rng (λ p. 0 < length p.bins) card_profiles (omega arith)
          (omega arith, (omega arith, (omega arith, tt))))
        λ p lt.
          Yields-bind (choose_from rng p.bins) _ _ _ (Yields-any p.bins lt)
            λ b _. Yields-pure _ _ tt

  abbrev IsWithin : (base : Time) → Time → Type 0
  IsWithin base t = (base ≤ t) × (t < base + 120 * minute)

  Yields-draw_jitter : (base : Time) → Yields (draw_jitter rng base) (IsWithin base)
  unfolding draw_jitter
  Yields-draw_jitter base =
      Yields-bind (intn rng 7200) _ _ _ (Yields-intn rng is_rng 7200 (omega arith))
        λ j lt. Yields-pure _ _ (omega arith)

  Yields-soft_time :
      (base : Time) (p : ProcessorName) → Yields (soft_time rng base p) (IsWithin base)
  unfolding soft_time
  Yields-soft_time base p = elim (Bool-cases (str_eq p processor_c)) [
    | inr e ↦ rw e (Yields-draw_jitter base)
    | inl e ↦ rw e (
        Yields-bind (float64 rng) _ _ _ Yields-float64 λ x _.
          elim (Bool-cases (fl.lt x (fl.lit 80 100))) [
            | inr e' ↦ rw e' (Yields-draw_jitter base)
            | inl e' ↦ rw e' (
                Yields-bind (intn rng (10 * minute)) _ _ _ (Yields-intn rng is_rng _ (omega arith))
                  λ d lt. Yields-pure _ _ (omega arith))
          ])
  ]

  -- an event with the given number
  abbrev IsEvent : DeclineType → (now : Time) → ℕ → FailureEvent F → Type 0
  IsEvent type now idx e =
      (e.transaction_id ≡ concat ("txn-" ∷ padded 6 idx ∷ [])) × IsMade type now e

  event_of-IsEvent :
      (type : DeclineType) (now : Time) (idx : ℕ) (amount : F) (currency : String)
      (code : FailureReasonCode) (p : ProcessorName) (card : String × String) (country : String)
      (ts : Time)
      → 120 * minute ≤ now
      → IsKnown p
      → IsCodeOf type code
      → IsWithin (now - 120 * minute) ts
      → IsEvent type now idx (event_of idx amount currency code p card country ts)
  unfolding event_of classify
  event_of-IsEvent type now idx amount currency code p card country ts le known typed (low, high) =
      (refl, (typed, rw known (ground arith)))

  Yields-hard_event :
      (now : Time) (idx : ℕ)
      → 120 * minute ≤ now
      → Yields (hard_event rng (now - 120 * minute) idx) (IsEvent hard_decline now idx)
  unfolding hard_event
  Yields-hard_event now idx le =
      Yields-bind _ _ _ _
        (Yields-pick_processor weighted_processors (omega arith) (refl, (refl, (refl, tt))))
        λ p known.
          Yields-bind _ _ _ _
            (Yields-choose_from rng is_rng _ hard_codes (omega arith) hard_codes-IsCodeOf)
            λ c typed. Yields-bind _ _ _ _ Yields-draw_amount λ amount _.
              Yields-bind _ _ _ _ (Yields-any currencies (omega arith)) λ currency _.
                Yields-bind _ _ _ _ (Yields-draw_jitter _) λ ts within.
                  Yields-bind _ _ _ _ Yields-pick_card λ card _.
                    Yields-bind _ _ _ _ (Yields-any countries (omega arith)) λ country _.
                      Yields-pure _ _ (
                        event_of-IsEvent hard_decline now idx amount currency c p card country ts le
                          known typed within)

  Yields-soft_event :
      (now : Time) (idx : ℕ)
      → 120 * minute ≤ now
      → Yields (soft_event rng (now - 120 * minute) idx) (IsEvent soft_decline now idx)
  unfolding soft_event
  Yields-soft_event now idx le =
      Yields-bind _ _ _ _
        (Yields-pick_processor soft_processor_weights (omega arith) (refl, (refl, (refl, tt))))
        λ p known.
          Yields-bind _ _ _ _
            (Yields-choose_from rng is_rng _ soft_codes (omega arith) soft_codes-IsCodeOf)
            λ c typed. Yields-bind _ _ _ _ Yields-draw_amount λ amount _.
              Yields-bind _ _ _ _ (Yields-any currencies (omega arith)) λ currency _.
                Yields-bind _ _ _ _ Yields-pick_card λ card _.
                  Yields-bind _ _ _ _ (Yields-any countries (omega arith)) λ country _.
                    Yields-bind _ _ _ _ (Yields-soft_time _ p) λ ts within. Yields-pure _ _ (
                      event_of-IsEvent soft_decline now idx amount currency c p card country ts le
                        known typed within)

  Yields-events_from :
      (type : DeclineType) (now : Time) (round : ℕ → Draw (FailureEvent F)) (n idx : ℕ)
      → ((i : ℕ) → Yields (round i) (IsEvent type now i))
      → Yields (events_from rng round n idx) (IsMadeFrom type now n idx)
  unfolding events_from
  Yields-events_from type now round zero idx h = Yields-pure _ _ (refl, tt)
  Yields-events_from type now round (suc n) idx h = Yields-bind _ _ _ _ (h idx) λ e (named, made).
      Yields-bind _ _ _ _ (Yields-events_from type now round n (idx + 1) h)
        λ es (all_named, all_made). Yields-pure _ _ (rw (named, all_named) refl, (made, all_made))

  Yields-generate : (now : Time) → 120 * minute ≤ now → Yields (generate rng now) (IsTestData now)
  unfolding generate
  Yields-generate now le =
      Yields-bind _ _ _ _
        (Yields-events_from hard_decline now _ hard_count 0 λ i. Yields-hard_event now i le)
        λ hard h.
          Yields-bind _ _ _ _
            (Yields-events_from soft_decline now _ soft_count hard_count
              λ i. Yields-soft_event now i le)
            λ soft s.
              Yields-mono (shuffle rng (hard ++ soft)) _ _
                (λ events same. IsMadeFrom-IsTestData now hard soft events h s same)
                (Yields-shuffle rng is_rng (hard ++ soft))

  -- Whatever numbers the random source gives within the ranges that it is asked for, and whatever
  -- instant the clock shows, two hours after the fixed one or later: GenerateEvents never indexes out
  -- of range. It returns events whose ids are txn-000000 to txn-000209, each once; 84 of them are hard
  -- declines; and each is at a known processor and from the two hours before the clock's instant.
  pub generate_events_lem :
      (now : Time)
      → 120 * minute ≤ now
      → (events : List (FailureEvent F)) × (generate_events rng now ≡ some events)
        × IsTestData now events
  unfolding generate_events
  generate_events_lem now le =
      let (events, k, e, made) = (Yields-generate now le).at 0 in (events, rw e refl, made)
