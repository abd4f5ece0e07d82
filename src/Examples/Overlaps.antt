-- ===== src/Examples/Overlaps.antt =====
-- A report that overlaps with a retry chain (internal/orchestrator/orchestrator.go) on a concrete
-- transaction.
use smart_retry_orchestrator.Examples.Samples.{ticking, sample}
use smart_retry_orchestrator.Float.{ratio_float, Ratio}
use smart_retry_orchestrator.Common.Dict.{lookup}
use smart_retry_orchestrator.Service.Races.Ends.{IsLeft, lost_updates, race_ends}
use smart_retry_orchestrator.Domain.Models.{Transaction, minute}
use smart_retry_orchestrator.Service.Races.{RaceState, Run, before}
use smart_retry_orchestrator.Store.{MemoryStore}
use smart_retry_orchestrator.Common.{◌∷◌, true, [], refl, ◌⊎◌}
use smart_retry_orchestrator.Domain.Enums.{retrying, exhausted}
use smart_retry_orchestrator.Store.Refinement.{Represents}
use smart_retry_orchestrator.Orchestrator.Process.{with_outcome}

abbrev in_chain : Transaction Ratio
in_chain = sample "txn-9" retrying

abbrev ended : Transaction Ratio
ended = record in_chain { status = exhausted; retry_count = 3 }

abbrev chain_store : MemoryStore Ratio
chain_store = record {
  transactions = ("txn-9", in_chain) ∷ [];
  decisions = [];
  tx_order = "txn-9" ∷ [];
}

chain_store-Represents : Represents chain_store (in_chain ∷ [])
unfolding lookup
chain_store-Represents = record { order = refl; found = λ id. refl; distinct = (refl, tt) }

lost_updates_example :
    ((r : RaceState Ratio) × Run minute true ended (before chain_store) r
      × IsLeft minute true ended r ended)
    × ((r : RaceState Ratio) × Run minute true ended (before chain_store) r
        × IsLeft minute true ended r (with_outcome minute true in_chain))
lost_updates_example =
    lost_updates minute true ended chain_store (in_chain ∷ []) in_chain chain_store-Represents refl

first_run :
    (r : RaceState Ratio) × Run minute true ended (before chain_store) r
    × IsLeft minute true ended r ended
first_run =
    (lost_updates minute true ended chain_store (in_chain ∷ []) in_chain chain_store-Represents
      refl).0

race_ends_example :
    IsLeft minute true ended first_run.0 ended
    ⊎ IsLeft minute true ended first_run.0 (with_outcome minute true in_chain)
    ⊎ IsLeft minute true ended first_run.0 (with_outcome minute true ended)
race_ends_example =
    race_ends minute true ended chain_store (in_chain ∷ []) in_chain chain_store-Represents refl
      first_run.1 first_run.2.0 first_run.2.1
