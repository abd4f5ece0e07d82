-- ===== src/Service/Races/Stages.antt =====
-- The stages of a report by RecordRetryOutcome and the end of executeRetryChain that overlap
-- (internal/orchestrator/orchestrator.go).
use smart_retry_orchestrator.Domain.Models.{Time, Transaction}
use smart_retry_orchestrator.Store.{MemoryStore, get_transaction, update_transaction}
use smart_retry_orchestrator.Common.{
  Bool, Option, none, List, false, true, some, ◌≡◌, ◌∙◌, eq_refl, refl, sym, ap, ◌⊎◌, inl, inr,
}
use smart_retry_orchestrator.Store.Refinement.{
  Represents, updated, update_transaction-Represents, get_transaction-Represents,
}
use smart_retry_orchestrator.Orchestrator.Process.{with_outcome}
use smart_retry_orchestrator.Domain.Errors.{ok, err, not_found}
use smart_retry_orchestrator.Store.Contents.{find, replace, find-replace, found_id}
use smart_retry_orchestrator.Float.{Float64}
use mathlib.Core.Path.{subst}
use mathlib.Core.Option.{some-injective}
use smart_retry_orchestrator.Orchestrator.State.{Env}
use smart_retry_orchestrator.Orchestrator.Process.Reports.{id-with_outcome}
use smart_retry_orchestrator.Service.Races.{
  RaceState, Step, Run, before, begin, then_step, fetch, report, finish,
}

module _ {F : Type 0} ⦃fl : Float64 F⦄ ⦃env : Env F⦄ (now : Time) (success : Bool)
    (final : Transaction F) where
  -- What the copy and the stored transaction may be at each stage, if it was `tx` at first.
  pub data Stage (tx : Transaction F)
      : Option (Transaction F) → Bool → Bool → Transaction F → Type 0 where
    idle : Stage tx none false false tx
    chain_first : Stage tx none false true final
    copied : Stage tx (some tx) false false tx
    copied_before : Stage tx (some tx) false true final
    copied_after : Stage tx (some final) false true final
    report_first : Stage tx (some tx) true false (with_outcome now success tx)
    chain_last : Stage tx (some tx) true true final
    report_over : Stage tx (some tx) true true (with_outcome now success tx)
    report_last : Stage tx (some final) true true (with_outcome now success final)

  pub record IsStage (tx : Transaction F) (r : RaceState F) : Type 0 where
    pub current : Transaction F
    pub transactions : List (Transaction F)
    pub stored : Represents r.store transactions
    pub found : find final.id transactions ≡ some current
    pub copied_id : (seen : Transaction F) → r.copy ≡ some seen → seen.id ≡ final.id
    pub stage : Stage tx r.copy r.reported r.finished current

  -- A write of a transaction with the id is found under it.
  pub written :
      (s : MemoryStore F) (ts : List (Transaction F)) (old new : Transaction F)
      → Represents s ts
      → find final.id ts ≡ some old
      → new.id ≡ final.id
      → (us : List (Transaction F)) × Represents (update_transaction s new).1 us
        × (find final.id us ≡ some new)
  written s ts old new r e same =
      let known : find new.id ts ≡ some old = rw same e in
      (
        replace new ts,
        rw (known, updated) at (update_transaction-Represents s ts new r).1,
        find-replace final.id new ts known ∙ rw (same, eq_refl) refl,
      )

  Stage-fetch :
      (tx : Transaction F) (copy : Option (Transaction F)) (reported finished : Bool)
      (current : Transaction F)
      → copy ≡ none
      → Stage tx copy reported finished current
      → Stage tx (some current) reported finished current
  Stage-fetch tx _ _ _ _ e idle = copied
  Stage-fetch tx _ _ _ _ e chain_first = copied_after
  Stage-fetch tx _ _ _ _ e copied = cc
  Stage-fetch tx _ _ _ _ e copied_before = cc
  Stage-fetch tx _ _ _ _ e copied_after = cc
  Stage-fetch tx _ _ _ _ e report_first = cc
  Stage-fetch tx _ _ _ _ e chain_last = cc
  Stage-fetch tx _ _ _ _ e report_over = cc
  Stage-fetch tx _ _ _ _ e report_last = cc

  Stage-report :
      (tx : Transaction F) (c : Option (Transaction F)) (reported finished : Bool)
      (current seen : Transaction F)
      → c ≡ some seen
      → reported ≡ false
      → Stage tx c reported finished current
      → Stage tx (some seen) true finished (with_outcome now success seen)
  Stage-report tx _ _ _ _ seen e undone idle = cc
  Stage-report tx _ _ _ _ seen e undone chain_first = cc
  Stage-report tx _ _ _ _ seen e undone copied =
      subst (λ x. Stage tx (some x) true false (with_outcome now success x)) (some-injective _ _ e)
        report_first
  Stage-report tx _ _ _ _ seen e undone copied_before =
      subst (λ x. Stage tx (some x) true true (with_outcome now success x)) (some-injective _ _ e)
        report_over
  Stage-report tx _ _ _ _ seen e undone copied_after =
      subst (λ x. Stage tx (some x) true true (with_outcome now success x)) (some-injective _ _ e)
        report_last
  Stage-report tx _ _ _ _ seen e undone report_first = cc
  Stage-report tx _ _ _ _ seen e undone chain_last = cc
  Stage-report tx _ _ _ _ seen e undone report_over = cc
  Stage-report tx _ _ _ _ seen e undone report_last = cc

  Stage-finish :
      (tx : Transaction F) (c : Option (Transaction F)) (reported finished : Bool)
      (current : Transaction F)
      → finished ≡ false
      → Stage tx c reported finished current
      → Stage tx c reported true final
  Stage-finish tx _ _ _ _ undone idle = chain_first
  Stage-finish tx _ _ _ _ undone chain_first = cc
  Stage-finish tx _ _ _ _ undone copied = copied_before
  Stage-finish tx _ _ _ _ undone copied_before = cc
  Stage-finish tx _ _ _ _ undone copied_after = cc
  Stage-finish tx _ _ _ _ undone report_first = chain_last
  Stage-finish tx _ _ _ _ undone chain_last = cc
  Stage-finish tx _ _ _ _ undone report_over = cc
  Stage-finish tx _ _ _ _ undone report_last = cc

  get_transaction-found :
      (s : MemoryStore F) (ts : List (Transaction F)) (tx : Transaction F)
      → Represents s ts
      → get_transaction s final.id ≡ ok tx
      → find final.id ts ≡ some tx
  get_transaction-found s ts tx rep e =
      fetched_some (find final.id ts) (sym (get_transaction-Represents s ts final.id rep) ∙ e)
    where
      fetched_some :
          (found : Option (Transaction F))
          → elim found [ none ↦ err not_found | some t ↦ ok t ] ≡ ok tx
          → found ≡ some tx
      fetched_some none e = cc
      fetched_some (some t) e = cc

  IsStage-Step :
      (tx : Transaction F) (r t : RaceState F)
      → Step now success final r t
      → IsStage tx r
      → IsStage tx t
  IsStage-Step tx _ _ (fetch r seen e got) h =
      let seen_found = get_transaction-found r.store h.transactions seen h.stored got in
      let same : h.current ≡ seen = some-injective _ _ (sym h.found ∙ seen_found) in
      record {
        current = h.current;
        transactions = h.transactions;
        stored = h.stored;
        found = h.found;
        copied_id = λ x e'.
            ap (λ (y : Transaction F). y.id) (sym (some-injective _ _ e'))
            ∙ found_id final.id h.transactions seen seen_found;
        stage =
            subst (λ x. Stage tx (some x) r.reported r.finished h.current) same
              (Stage-fetch tx r.copy r.reported r.finished h.current e h.stage);
      }
  IsStage-Step tx _ _ (report r seen e undone) h =
      let new = with_outcome now success seen in
      let (us, rep, found) =
        written r.store h.transactions h.current new h.stored h.found
          (id-with_outcome now success seen ∙ h.copied_id seen e) in
      record {
        current = new;
        transactions = us;
        stored = rep;
        found = found;
        copied_id = h.copied_id;
        stage =
            subst (λ c. Stage tx c true r.finished new) (sym e)
              (Stage-report tx r.copy r.reported r.finished h.current seen e undone h.stage);
      }
  IsStage-Step tx _ _ (finish r undone) h =
      let (us, rep, found) = written r.store h.transactions h.current final h.stored h.found refl in
      record {
        current = final;
        transactions = us;
        stored = rep;
        found = found;
        copied_id = h.copied_id;
        stage = Stage-finish tx r.copy r.reported r.finished h.current undone h.stage;
      }

  pub IsStage-Run :
      (tx : Transaction F) (start : RaceState F) {r : RaceState F}
      → IsStage tx start
      → Run now success final start r
      → IsStage tx r
  IsStage-Run tx start h begin = h
  IsStage-Run tx start h (then_step {r} {t} run step) =
      IsStage-Step tx r t step (IsStage-Run tx start h run)

  pub at_start :
      (s : MemoryStore F) (ts : List (Transaction F)) (tx : Transaction F)
      → Represents s ts
      → find final.id ts ≡ some tx
      → IsStage tx (before s)
  at_start s ts tx rep found = record {
    current = tx;
    transactions = ts;
    stored = rep;
    found = found;
    copied_id = λ seen e. cc;
    stage = idle;
  }

  pub Stage-ends :
      (tx : Transaction F) (c : Option (Transaction F)) (reported finished : Bool)
      (current : Transaction F)
      → reported ≡ true
      → finished ≡ true
      → Stage tx c reported finished current
      → (current ≡ final)
        ⊎ (current ≡ with_outcome now success tx)
        ⊎ (current ≡ with_outcome now success final)
  Stage-ends tx _ _ _ _ e e' idle = cc
  Stage-ends tx _ _ _ _ e e' chain_first = cc
  Stage-ends tx _ _ _ _ e e' copied = cc
  Stage-ends tx _ _ _ _ e e' copied_before = cc
  Stage-ends tx _ _ _ _ e e' copied_after = cc
  Stage-ends tx _ _ _ _ e e' report_first = cc
  Stage-ends tx _ _ _ _ e e' chain_last = inl refl
  Stage-ends tx _ _ _ _ e e' report_over = inr (inl refl)
  Stage-ends tx _ _ _ _ e e' report_last = inr (inr refl)
