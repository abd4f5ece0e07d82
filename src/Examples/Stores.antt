-- ===== src/Examples/Stores.antt =====
-- The store on concrete inputs.
use smart_retry_orchestrator.Float.{ratio_float}
use smart_retry_orchestrator.Examples.Samples.{ticking, two_stored}
use smart_retry_orchestrator.Classifier.Policy.{default_classifier}
use smart_retry_orchestrator.Examples.Samples.{sample, one_store, one_store-Represents}
use smart_retry_orchestrator.Store.{
  get_all_transactions_in_range, list_transactions, save_transaction, update_transaction, matches,
}
use smart_retry_orchestrator.Domain.Models.{TransactionFilter, minute}
use smart_retry_orchestrator.Common.Dict.{lookup}
use smart_retry_orchestrator.Common.{some, ◌*◌, ◌≡◌, none, keep, leb, ◌∷◌, ◌&&◌, [], refl}
use smart_retry_orchestrator.Domain.Enums.{retrying, recovered}
use smart_retry_orchestrator.Store.Listing.{
  page, list_transactions-Represents, get_all_transactions_in_range-Represents,
}
use smart_retry_orchestrator.Store.Refinement.{
  updated, saved, Represents, update_transaction-Represents, save_transaction-Represents,
}

save_transaction-Represents_example :
    let tx = sample "txn-9" retrying in
    ((save_transaction one_store tx).0 ≡ (saved two_stored tx).0)
    × Represents (save_transaction one_store tx).1 (saved two_stored tx).1
save_transaction-Represents_example =
    save_transaction-Represents one_store two_stored (sample "txn-9" retrying) one_store-Represents

update_transaction-Represents_example :
    let tx = sample "txn-7" recovered in
    ((update_transaction one_store tx).0 ≡ (updated two_stored tx).0)
    × Represents (update_transaction one_store tx).1 (updated two_stored tx).1
update_transaction-Represents_example =
    update_transaction-Represents one_store two_stored (sample "txn-7" recovered)
      one_store-Represents

abbrev recovered_only : TransactionFilter
recovered_only = record { status = some "RECOVERED"; processor = none; limit = 50; offset = 0 }

lists_one : list_transactions one_store recovered_only ≡ some (sample "txn-8" recovered ∷ [])
unfolding list_transactions lookup
lists_one = refl

list_transactions-Represents_example :
    list_transactions one_store recovered_only
    ≡ some (page 50 0 (keep (matches recovered_only) two_stored))
list_transactions-Represents_example =
    list_transactions-Represents one_store two_stored recovered_only one_store-Represents

get_all_transactions_in_range-Represents_example :
    get_all_transactions_in_range one_store (999 * minute) (1001 * minute)
    ≡ some
        (keep (λ t. leb (999 * minute) t.created_at && leb t.created_at (1001 * minute)) two_stored)
get_all_transactions_in_range-Represents_example =
    get_all_transactions_in_range-Represents one_store two_stored (999 * minute) (1001 * minute)
      one_store-Represents
