-- ===== src/Datagen/Made.antt =====
-- What the test data of datagen/generator.go are, and how that follows from their two halves.
use smart_retry_orchestrator.Domain.Models.{FailureEvent, Time, minute}
use smart_retry_orchestrator.Common.{
  ℕ, List, All, Bool, String, map, [], suc, ◌≡◌, true, ◌∷◌, refl, arith, ◌*◌, ◌+◌, zero, ltb,
  length, ap, keep, if◌then◌else◌, ◌&&◌, leb, ◌++◌, sym, ◌∙◌, keep-append, length-append,
}
use smart_retry_orchestrator.Domain.Enums.{DeclineType, soft_decline, hard_decline, all_processors}
use smart_retry_orchestrator.Orchestrator.Process.{is_hard}
use smart_retry_orchestrator.Datagen.Generator.{hard_count, soft_count}
use smart_retry_orchestrator.Common.Text.{concat, padded}
use smart_retry_orchestrator.Classifier.{classify}
use smart_retry_orchestrator.Api.Requests.{is_one_of}
use smart_retry_orchestrator.Datagen.Permuted.{IsRearranged, length-IsRearranged}
use mathlib.Core.List.{map-append}

abbrev pub txn_ids : ℕ → ℕ → List String
txn_ids zero idx = []
txn_ids (suc n) idx = concat ("txn-" ∷ padded 6 idx ∷ []) ∷ txn_ids n (idx + 1)

length-txn_ids : (n idx : ℕ) → length (txn_ids n idx) ≡ n
length-txn_ids zero idx = refl
length-txn_ids (suc n) idx = ap suc (length-txn_ids n (idx + 1))

ids-append : txn_ids hard_count 0 ++ txn_ids soft_count hard_count ≡ txn_ids 210 0
ids-append = refl

module _ {F : Type 0} where
  abbrev pub event_ids : List (FailureEvent F) → List String
  event_ids = map (λ e. e.transaction_id)

  -- at a known processor, in the two hours before `now`
  abbrev pub is_placed : (now : Time) → FailureEvent F → Bool
  is_placed now e =
      is_one_of all_processors e.processor
      && leb now (e.timestamp + 120 * minute)
      && ltb e.timestamp now

  abbrev pub IsMade : DeclineType → (now : Time) → FailureEvent F → Type 0
  IsMade type now e = ((classify e).decline_type ≡ type) × (is_placed now e ≡ true)

  abbrev pub is_hard_event : FailureEvent F → Bool
  is_hard_event e = is_hard (classify e).decline_type

  -- The number of hard declines, the places of the events, and their ids: for every test of a text,
  -- as many of them pass as of the texts `txn-000000` to `txn-000209`.
  pub record IsTestData (now : Time) (events : List (FailureEvent F)) : Type 0 where
    pub total : length events ≡ 210
    pub hard : length (keep is_hard_event events) ≡ 84
    pub named : IsRearranged (event_ids events) (txn_ids 210 0)
    pub placed : length (keep (is_placed now) events) ≡ 210

  -- what a loop of rounds has made
  abbrev pub IsMadeFrom : DeclineType → (now : Time) → ℕ → ℕ → List (FailureEvent F) → Type 0
  IsMadeFrom type now n idx es = (event_ids es ≡ txn_ids n idx) × All (IsMade type now) es

  length-IsMade :
      (type : DeclineType) (now : Time) (es : List (FailureEvent F))
      → All (IsMade type now) es
      → length (keep is_hard_event es) ≡ (if is_hard type then length es else 0)
  length-IsMade type now [] all = ground arith
  length-IsMade type now (e ∷ es) ((typed, placed), rest) =
      ground (arith, typed, length-IsMade type now es rest)

  length-is_placed :
      (type : DeclineType) (now : Time) (es : List (FailureEvent F))
      → All (IsMade type now) es
      → length (keep (is_placed now) es) ≡ length es
  length-is_placed type now [] all = refl
  length-is_placed type now (e ∷ es) ((typed, placed), rest) =
      rw placed (ap suc (length-is_placed type now es rest))

  keep-map :
      (p : String → Bool) (es : List (FailureEvent F))
      → length (keep p (event_ids es)) ≡ length (keep (λ e. p e.transaction_id) es)
  keep-map p [] = refl
  keep-map p (e ∷ es) = ground (arith, keep-map p es)

  length-event_ids : (es : List (FailureEvent F)) → length (event_ids es) ≡ length es
  length-event_ids [] = refl
  length-event_ids (e ∷ es) = ap suc (length-event_ids es)

  length-IsMadeFrom :
      (n idx : ℕ) (es : List (FailureEvent F)) → event_ids es ≡ txn_ids n idx → length es ≡ n
  length-IsMadeFrom n idx es named =
      sym (length-event_ids es) ∙ ap length named ∙ length-txn_ids n idx

  pub IsMadeFrom-IsTestData :
      (now : Time) (hard soft events : List (FailureEvent F))
      → IsMadeFrom hard_decline now hard_count 0 hard
      → IsMadeFrom soft_decline now soft_count hard_count soft
      → IsRearranged events (hard ++ soft)
      → IsTestData now events
  IsMadeFrom-IsTestData now hard soft events (hard_named, hard_made) (soft_named, soft_made) same =
      let hards = length-IsMadeFrom hard_count 0 hard hard_named in
      let softs = length-IsMadeFrom soft_count hard_count soft soft_named in
      let split = λ (p : FailureEvent F → Bool).
        same p ∙ ap length (keep-append p hard soft) ∙ length-append (keep p hard) (keep p soft) in
      record {
        total =
            omega (arith, length-IsRearranged events _ same, length-append hard soft, hards, softs);
        hard = omega (
          arith,
          split is_hard_event,
          length-IsMade hard_decline now hard hard_made,
          length-IsMade soft_decline now soft soft_made,
          hards,
        );
        named = λ p.
            keep-map p events
            ∙ same (λ e. p e.transaction_id)
            ∙ sym (keep-map p (hard ++ soft))
            ∙ ap (λ xs. length (keep p xs))
                (map-append (λ e. e.transaction_id) hard soft
                  ∙ (λ i. hard_named i ++ soft_named i)
                  ∙ ids-append);
        placed = omega (
          arith,
          split (is_placed now),
          length-is_placed hard_decline now hard hard_made,
          length-is_placed soft_decline now soft soft_made,
          hards,
          softs,
        );
      }
