-- ===== src/Service/Listings.antt =====
-- The queries of internal/api/handler.go: listTransactions and getRecoveryMetrics over the store.
use smart_retry_orchestrator.Float.{Float64}
use smart_retry_orchestrator.Api.Web.{Web, Request, query_get, pos, ℤ}
use smart_retry_orchestrator.Domain.Models.{TransactionFilter}
use smart_retry_orchestrator.Common.{
  ◌≢◌, ◌≡◌, if◌then◌else◌, str_eq, none, some, ℕ, ◌≢◌, String, Option, ◌≤◌,
}
use smart_retry_orchestrator.Orchestrator.State.{Env}

-- `n` is the number that was read if that is at least `low`, and the default in every other case.
pub record IsNumberOf (low default : ℕ) (read : Option ℤ) (n : ℕ) : Type 0 where
  pub asked : (m : ℕ) → low ≤ m → read ≡ some (pos m) → n ≡ m
  pub unasked : ((m : ℕ) → low ≤ m → read ≢ some (pos m)) → n ≡ default

module _ {F : Type 0} ⦃fl : Float64 F⦄ ⦃env : Env F⦄ (web : Web F) where
  abbrev number_in : Request → String → Option ℤ
  number_in r key = if str_eq (query_get r key) "" then none else web.atoi (query_get r key)

  abbrev text_in : Request → String → Option String
  text_in r key = if str_eq (query_get r key) "" then none else some (query_get r key)

  pub record IsFilterOf (r : Request) (filter : TransactionFilter) : Type 0 where
    pub status : filter.status ≡ text_in r "status"
    pub processor : filter.processor ≡ text_in r "processor"
    pub limit : IsNumberOf 1 50 (number_in r "limit") filter.limit
    pub offset : IsNumberOf 0 0 (number_in r "offset") filter.offset
    pub limited : 1 ≤ filter.limit
