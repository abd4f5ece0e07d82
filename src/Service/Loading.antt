-- ===== src/Service/Loading.antt =====
-- The generator of test data (cmd/server/main.go): the events of datagen/generator.go through the
-- orchestrator, into a store that was emptied before.
use smart_retry_orchestrator.Common.{
  List, ℕ, length, keep, ◌∷◌, str_eq, ◌≡◌, refl, ◌≤◌, arith, [], map, All, ap, ◌∙◌, sym, ◌*◌,
}
use smart_retry_orchestrator.Float.{Float64}
use smart_retry_orchestrator.Datagen.Made.{txn_ids, IsTestData, is_hard_event}
use smart_retry_orchestrator.Domain.Models.{
  FailureEvent, Transaction, Time, ClassificationResult, minute,
}
use smart_retry_orchestrator.Orchestrator.State.{Env, System, time_now}
use smart_retry_orchestrator.Classifier.{classify}
use smart_retry_orchestrator.Server.{generator}
use smart_retry_orchestrator.Store.Refinement.{Represents, new_memory_store-Represents}
use mathlib.Core.Path.{subst}
use smart_retry_orchestrator.Domain.Errors.{Result, ok}
use smart_retry_orchestrator.Datagen.Random.{Rng, IsRng}
use smart_retry_orchestrator.Api.Handlers.{reset_stores}
use smart_retry_orchestrator.Common.Dict.{get_or}
use smart_retry_orchestrator.Datagen.Generator.{generate_events}
use smart_retry_orchestrator.Metrics.Counts.{is_hard}
use smart_retry_orchestrator.Classifier.Policy.{default_classifier}
use smart_retry_orchestrator.Service.Taking.{
  process_events_takes, AreNew, occurrences-all_new, txn_ids-all_new, IsRecordOf,
}
use smart_retry_orchestrator.Datagen.Generated.{generate_events_lem}
use smart_retry_orchestrator.Store

module _ {F : Type 0} ⦃fl : Float64 F⦄ ⦃env : Env F⦄ where
  -- The ids of the test data are new to an empty store.
  IsTestData-AreNew :
      (now : Time) (events : List (FailureEvent F)) → IsTestData now events → AreNew events []
  IsTestData-AreNew now events made id =
      omega (
        arith,
        made.named (λ x. str_eq x id),
        occurrences-all_new id (txn_ids 210 0) txn_ids-all_new,
      )

  length-is_hard_event :
      (txs : List (Transaction F))
      → All (λ tx. tx.classification ≡ classify tx.original_event) txs
      → length (keep is_hard txs) ≡ length (keep is_hard_event (map (λ tx. tx.original_event) txs))
  length-is_hard_event [] all = refl
  length-is_hard_event (tx ∷ txs) (same, rest) =
      ground (
        arith,
        ap (λ (c : ClassificationResult). c.decline_type) same,
        length-is_hard_event txs rest,
      )

  abbrev pub test_data : Rng F → Time → List (FailureEvent F)
  test_data rng now = get_or [] (generate_events rng now)

  -- The generator, after it emptied the stores, has taken 210 events.
  pub record IsLoaded (made : List (FailureEvent F)) (r : Result ℕ × System F)
      (txs : List (Transaction F)) : Type 0 where
    pub result : r.0 ≡ ok 210
    pub stored : Represents r.1.store txs
    pub from_events : IsRecordOf made txs
    pub hard : length (keep is_hard txs) ≡ 84

  -- Whatever numbers the random source gives and whatever the stores held, the generator answers 210
  -- and no error, as long as the clock shows an instant that is two hours after the fixed one or later:
  -- no event is refused. Afterwards the store has exactly one finished transaction for each event of
  -- the test data, in their order, classified by the classifier's rules; 84 of them are hard declines.
  pub generator_lem :
      (rng : Rng F) (s : System F)
      → IsRng rng
      → 120 * minute ≤ (time_now s).0
      → (txs : List (Transaction F)) × IsLoaded
          (test_data rng (time_now s).0)
          (generator (test_data rng) s)
          txs
  unfolding generator reset_stores time_now Store.reset
  generator_lem rng s is_rng late =
      let now = env.now s.clock_reads in
      let (events, e, made) = generate_events_lem rng is_rng now late in
      let given : test_data rng now ≡ events = ap (get_or []) e in
      let (txs, count, stored, from_events) =
        process_events_takes (test_data rng now) 0 _ [] new_memory_store-Represents
          (subst (λ es. AreNew es []) (sym given) (IsTestData-AreNew now events made)) in
      (
        txs,
        record {
          result = ap ok (count ∙ omega (arith, ap length given, made.total));
          stored = stored;
          from_events = from_events;
          hard =
              length-is_hard_event txs from_events.classified
              ∙ ap (λ es. length (keep is_hard_event es)) (from_events.events_kept ∙ given)
              ∙ made.hard;
        },
      )
