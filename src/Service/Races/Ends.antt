-- ===== src/Service/Races/Ends.antt =====
-- How a report by RecordRetryOutcome and the end of executeRetryChain can turn out when they overlap
-- (internal/orchestrator/orchestrator.go).
use smart_retry_orchestrator.Domain.Models.{Time, Transaction}
use smart_retry_orchestrator.Store.{MemoryStore, get_transaction, update_transaction}
use smart_retry_orchestrator.Common.{Bool, List, true, some, ◌≡◌, ◌∙◌, refl, ap, ◌⊎◌, inl, inr}
use smart_retry_orchestrator.Store.Refinement.{Represents, get_transaction-Represents, fetched}
use smart_retry_orchestrator.Orchestrator.Process.{with_outcome}
use smart_retry_orchestrator.Domain.Errors.{ok}
use smart_retry_orchestrator.Store.Contents.{find, found_id}
use smart_retry_orchestrator.Float.{Float64}
use smart_retry_orchestrator.Orchestrator.State.{Env}
use smart_retry_orchestrator.Orchestrator.Process.Reports.{id-with_outcome}
use smart_retry_orchestrator.Service.Races.{
  RaceState, Run, before, begin, then_step, fetch, report, finish,
}
use smart_retry_orchestrator.Service.Races.Stages.{IsStage-Run, at_start, Stage-ends, written}

module _ {F : Type 0} ⦃fl : Float64 F⦄ ⦃env : Env F⦄ (now : Time) (success : Bool)
    (final : Transaction F) where
  -- What the store has for the transaction in the end.
  abbrev pub IsLeft : RaceState F → Transaction F → Type 0
  IsLeft r tx =
      (r.reported ≡ true) × (r.finished ≡ true) × (get_transaction r.store final.id ≡ ok tx)

  -- However the three store calls of the report and the chain interleave: when both have ended, the
  -- store has the chain's transaction without the report, or the one that the report makes of the
  -- chain's, or the one that it makes of the transaction as it was before the chain ended.
  pub race_ends :
      (s : MemoryStore F) (ts : List (Transaction F)) (tx : Transaction F) {r : RaceState F}
      → Represents s ts
      → find final.id ts ≡ some tx
      → Run now success final (before s) r
      → r.reported ≡ true
      → r.finished ≡ true
      → IsLeft r final
        ⊎ IsLeft r (with_outcome now success tx)
        ⊎ IsLeft r (with_outcome now success final)
  race_ends s ts tx {r} rep found run told ended =
      let h =
        IsStage-Run now success final tx (before s) (at_start now success final s ts tx rep found)
          run in
      let got : get_transaction r.store final.id ≡ ok h.current =
        rw (get_transaction-Represents r.store h.transactions final.id h.stored, h.found, fetched)
          refl in
      let left : (x : Transaction F) → h.current ≡ x → IsLeft r x =
        λ x e. (told, ended, got ∙ ap ok e) in
      elim (Stage-ends now success final tx r.copy r.reported r.finished h.current told ended
        h.stage) [
          | inl e ↦ inl (left final e)
          | inr (inl e) ↦ inr (inl (left (with_outcome now success tx) e))
          | inr (inr e) ↦ inr (inr (left (with_outcome now success final) e))
        ]

  abbrev first_copy : MemoryStore F → Transaction F → RaceState F
  first_copy s tx = record (before s) { copy = some tx }

  fetch_first :
      (s : MemoryStore F) (ts : List (Transaction F)) (tx : Transaction F)
      → Represents s ts
      → find final.id ts ≡ some tx
      → Run now success final (before s) (first_copy s tx)
  fetch_first s ts tx rep found = then_step begin (
      fetch (before s) tx refl
        (rw (get_transaction-Represents s ts final.id rep, found, fetched) refl))

  got_written :
      (s : MemoryStore F) (ts : List (Transaction F)) (old new : Transaction F)
      → Represents s ts
      → find final.id ts ≡ some old
      → new.id ≡ final.id
      → get_transaction (update_transaction s new).1 final.id ≡ ok new
  got_written s ts old new rep found same =
      let (us, rep', found') = written now success final s ts old new rep found same in
      rw (get_transaction-Represents _ us final.id rep', found', fetched) refl

  -- Two runs that lose an update, of any stored transaction: after one the store has the chain's
  -- transaction, as if nothing had been reported; after the other it has what the report made of the
  -- transaction as it was before the chain ended, as if the chain had made no attempt.
  pub lost_updates :
      (s : MemoryStore F) (ts : List (Transaction F)) (tx : Transaction F)
      → Represents s ts
      → find final.id ts ≡ some tx
      → ((r : RaceState F) × Run now success final (before s) r × IsLeft r final)
        × ((r : RaceState F) × Run now success final (before s) r
            × IsLeft r (with_outcome now success tx))
  lost_updates s ts tx rep found =
      let seen = with_outcome now success tx in
      let named = id-with_outcome now success tx ∙ found_id final.id ts tx found in
      let copied = fetch_first s ts tx rep found in
      let (us, rep', found') = written now success final s ts tx seen rep found named in
      let (vs, rep'', found'') = written now success final s ts tx final rep found refl in
      (
        (
          _,
          then_step (then_step copied (report _ tx refl refl)) (finish _ refl),
          (refl, refl, got_written _ us seen final rep' found' refl),
        ),
        (
          _,
          then_step (then_step copied (finish _ refl)) (report _ tx refl refl),
          (refl, refl, got_written _ vs final seen rep'' found'' named),
        ),
      )
