-- ===== src/Store/Listing.antt =====
-- The listings of MemoryStore (internal/store/memory.go), by the list that the store stands for.
use smart_retry_orchestrator.Store.{
  get_all_transactions_in_range, in_range, collect, apply_offset, apply_limit, MemoryStore,
  list_transactions, matches,
}
use smart_retry_orchestrator.Common.{
  ℕ, List, Bool, String, drop, length, suc, All, take, ◌≤◌, ◌≡◌, some, ◌∷◌, arith, [], leb, ap,
  keep, ◌&&◌, refl, ◌∙◌, zero,
}
use smart_retry_orchestrator.Domain.Models.{Transaction, Time, TransactionFilter}
use smart_retry_orchestrator.Common.Dict.{Dict, lookup}
use smart_retry_orchestrator.Store.Refinement.{Represents}
use smart_retry_orchestrator.Store.Contents.{Distinct-found, find, ids}
use mathlib.Core.Path.{fun_ext}

module _ {F : Type 0} where
  collect-keep :
      (test : Transaction F → Bool) (transactions : Dict (Transaction F))
      (ts : List (Transaction F))
      → All (λ t. lookup t.id transactions ≡ some t) ts
      → collect test transactions (ids ts) ≡ some (keep test ts)
  unfolding collect
  collect-keep test transactions [] a = refl
  collect-keep test transactions (t ∷ ts) (e, a) =
      rw (e, collect, collect-keep test transactions ts a) refl

  All-lookup :
      (s : MemoryStore F) (all ts : List (Transaction F))
      → ((id : String) → lookup id s.transactions ≡ find id all)
      → All (λ t. find t.id all ≡ some t) ts
      → All (λ t. lookup t.id s.transactions ≡ some t) ts
  All-lookup s all [] f a = tt
  All-lookup s all (t ∷ ts) f (e, a) = (f t.id ∙ e, All-lookup s all ts f a)

  collect-Represents :
      (test : Transaction F → Bool) (s : MemoryStore F) (ts : List (Transaction F))
      → Represents s ts
      → collect test s.transactions s.tx_order ≡ some (keep test ts)
  collect-Represents test s ts r = rw r.order (
      collect-keep test s.transactions ts
        (All-lookup s ts ts r.found (Distinct-found ts r.distinct)))

  drop_all : (n : ℕ) (ts : List (Transaction F)) → length ts ≤ n → drop n ts ≡ []
  drop_all zero [] h = refl
  drop_all (suc n) [] h = refl
  drop_all zero (t ∷ ts) h = absurd (omega arith)
  drop_all (suc n) (t ∷ ts) h = drop_all n ts (omega arith)

  apply_offset-eq-drop :
      (offset : ℕ) (ts : List (Transaction F)) → apply_offset offset ts ≡ drop offset ts
  unfolding apply_offset
  apply_offset-eq-drop zero ts = ground arith
  apply_offset-eq-drop (suc n) ts = ground (arith, drop_all (suc n) ts)

  take_all : (n : ℕ) (ts : List (Transaction F)) → length ts ≤ n → take n ts ≡ ts
  take_all zero [] h = refl
  take_all (suc n) [] h = refl
  take_all zero (t ∷ ts) h = absurd (omega arith)
  take_all (suc n) (t ∷ ts) h = ap (t ∷◌) (take_all n ts (omega arith))

  -- No limit is the limit 0.
  abbrev pub page : (limit offset : ℕ) → List (Transaction F) → List (Transaction F)
  page zero offset ts = drop offset ts
  page (suc n) offset ts = take (suc n) (drop offset ts)

  pub page_limited :
      (limit offset : ℕ) (ts : List (Transaction F))
      → 1 ≤ limit
      → page limit offset ts ≡ take limit (drop offset ts)
  page_limited zero offset ts le = absurd (omega arith)
  page_limited (suc n) offset ts le = refl

  apply_limit-eq-page :
      (limit offset : ℕ) (ts : List (Transaction F))
      → apply_limit limit (drop offset ts) ≡ page limit offset ts
  unfolding apply_limit
  apply_limit-eq-page zero offset ts = ground arith
  apply_limit-eq-page (suc n) offset ts = ground (arith, take_all (suc n) (drop offset ts))

  -- ListTransactions never meets a nil pointer, and returns, of the stored transactions that match
  -- the filter in the order in which they were saved, those after the first `offset`, and of these
  -- at most the first `limit` unless that is 0.
  pub list_transactions-Represents :
      (s : MemoryStore F) (ts : List (Transaction F)) (filter : TransactionFilter)
      → Represents s ts
      → list_transactions s filter
        ≡ some (page filter.limit filter.offset (keep (matches filter) ts))
  unfolding list_transactions
  list_transactions-Represents s ts filter r =
      let found = keep (matches filter) ts in
      rw (collect-Represents (matches filter) s ts r, apply_offset-eq-drop)
        (ap some (apply_limit-eq-page filter.limit filter.offset found))

  in_range_lem :
      (start end : Time) (t : Transaction F)
      → in_range start end t ≡ (leb start t.created_at && leb t.created_at end)
  unfolding in_range
  in_range_lem start end t = ground arith

  -- GetAllTransactionsInRange never meets a nil pointer, and returns the stored transactions created
  -- from `start` to `end`, both included, in the order in which they were saved.
  pub get_all_transactions_in_range-Represents :
      (s : MemoryStore F) (ts : List (Transaction F)) (start end : Time)
      → Represents s ts
      → get_all_transactions_in_range s start end
        ≡ some (keep (λ t. leb start t.created_at && leb t.created_at end) ts)
  unfolding get_all_transactions_in_range
  get_all_transactions_in_range-Represents s ts start end r =
      rw (collect-Represents (in_range start end) s ts r)
        (ap (λ test. some (keep test ts)) (fun_ext (in_range_lem start end)))
