-- ===== src/Health/History.antt =====
-- Pruning under the write lock (RecordOutcome of internal/health/tracker.go) is invisible: the
-- snapshots are those of a tracker that forgets nothing.
use smart_retry_orchestrator.Health.Window.{
  window_of, window_of-record_outcome, observed, succeeded, failed, get_health_counts,
}
use smart_retry_orchestrator.Health.{
  record_outcome, RollingHealthTracker, Outcome, List, Bool, ◌∷◌, outcome, default_window,
  new_health_tracker, get_health,
}
use smart_retry_orchestrator.Health.Compact.{in_window}
use smart_retry_orchestrator.Domain.Models.{Time, ProcessorHealthSnapshot}
use smart_retry_orchestrator.Domain.Enums.{ProcessorName}
use smart_retry_orchestrator.Common.{
  if◌then◌else◌, ◌≡◌, All, ◌≤◌, true, str_eq, arith, ◌-◌, keep, ◌++◌, [], Bool-cases, inl, refl,
  inr, sym, eq_iff, keep_weaker, ◌∙◌, keep-append, ap, length,
}
use mathlib.Core.List.{append-nil, append_assoc}
use smart_retry_orchestrator.Float.{Float64}
use smart_retry_orchestrator.Common.Dict.{lookup}

-- One call of RecordOutcome: the clock, and the arguments.
pub record Report : Type 0 where
  pub now : Time
  pub processor : ProcessorName
  pub success : Bool
  pub timestamp : Time

unfoldable pub replay : RollingHealthTracker → List Report → RollingHealthTracker
replay h [] = h
replay h (r ∷ rest) = replay (record_outcome r.now h r.processor r.success r.timestamp) rest

-- Every outcome that was reported of a processor, in order, however old.
unfoldable pub reported : ProcessorName → List Report → List Outcome
reported p [] = []
reported p (r ∷ rest) =
    let later = reported p rest in
    if str_eq r.processor p then outcome r.timestamp r.success ∷ later else later

-- The clock had not passed `now` at any report.
abbrev pub IsUntil : Time → List Report → Type 0
IsUntil now = All (λ r. r.now ≤ now)

in_window_mono :
    (early late : Time) (o : Outcome)
    → early ≤ late
    → in_window late o ≡ true
    → in_window early o ≡ true
unfolding in_window
in_window_mono early late o h e = ground arith

window-replay : (h : RollingHealthTracker) (rs : List Report) → (replay h rs).window ≡ h.window
unfolding replay record_outcome
window-replay h [] = refl
window-replay h (r ∷ rest) =
    window-replay (record_outcome r.now h r.processor r.success r.timestamp) rest

-- One report, seen at a later time.
keep-record_outcome :
    (now : Time) (h : RollingHealthTracker) (r : Report) (p : ProcessorName)
    → r.now ≤ now
    → let cutoff = now - h.window in
      keep
        (in_window cutoff)
        (window_of p (record_outcome r.now h r.processor r.success r.timestamp))
      ≡ keep (in_window cutoff) (window_of p h) ++ keep (in_window cutoff) (reported p (r ∷ []))
unfolding reported
keep-record_outcome now h r p le =
    let cutoff = now - h.window in
    let old = r.now - h.window in
    let same : str_eq r.processor p ≡ true → r.processor ≡ p = (eq_iff r.processor p).0 in
    let added = outcome r.timestamp r.success ∷ [] in
    let grown = window_of p h ++ added in
    rw window_of-record_outcome (elim (Bool-cases (str_eq r.processor p)) [
      | inl e ↦
          rw (e, same e)
            (keep_weaker (in_window cutoff) (in_window old)
                (λ x. in_window_mono old cutoff x (omega arith)) grown
              ∙ keep-append (in_window cutoff) (window_of p h) added)
      | inr e ↦ rw e (sym (append-nil _))
    ])

reported-cons :
    (p : ProcessorName) (r : Report) (rest : List Report)
    → reported p (r ∷ rest) ≡ reported p (r ∷ []) ++ reported p rest
unfolding reported
reported-cons p r rest = ground arith

keep-replay :
    (now : Time) (p : ProcessorName) (h : RollingHealthTracker) (rs : List Report)
    → IsUntil now rs
    → let cutoff = now - h.window in
      keep (in_window cutoff) (window_of p (replay h rs))
      ≡ keep (in_window cutoff) (window_of p h) ++ keep (in_window cutoff) (reported p rs)
unfolding replay record_outcome
keep-replay now p h [] until = unfold reported in sym (append-nil _)
keep-replay now p h (r ∷ rest) (le, until) =
    let inside = in_window (now - h.window) in
    keep-replay now p (record_outcome r.now h r.processor r.success r.timestamp) rest until
    ∙ ap (λ xs. xs ++ keep inside (reported p rest)) (keep-record_outcome now h r p le)
    ∙ simp (reported-cons p r rest, keep-append, append_assoc)

-- The outcomes of a processor that have been reported and are not older than fifteen minutes.
abbrev pub recent : Time → ProcessorName → List Report → List Outcome
recent now p rs = keep (in_window (now - default_window)) (reported p rs)

pub observed-replay :
    (now : Time) (p : ProcessorName) (rs : List Report)
    → IsUntil now rs
    → observed now p (replay new_health_tracker rs) ≡ recent now p rs
unfolding new_health_tracker lookup
observed-replay now p rs until =
    rw (window-replay new_health_tracker rs) (keep-replay now p new_health_tracker rs until)

module _ (F : Type 0) ⦃fl : Float64 F⦄ where
  -- Of a tracker that starts empty and has only been told of outcomes, by calls at which the clock
  -- had not passed `now`, a snapshot at `now` counts exactly the reported outcomes of its processor
  -- of the last fifteen minutes: pruning loses nothing that a later snapshot could count.
  pub get_health-replay :
      (now : Time) (p : ProcessorName) (rs : List Report)
      → IsUntil now rs
      → let snap : ProcessorHealthSnapshot F = get_health now (replay new_health_tracker rs) p in
        (snap.total_events ≡ length (recent now p rs))
        × (snap.successes ≡ length (keep succeeded (recent now p rs)))
        × (snap.failures ≡ length (keep failed (recent now p rs)))
  get_health-replay now p rs until =
      let counts = get_health_counts F now (replay new_health_tracker rs) p in
      let seen = observed-replay now p rs until in
      (
        counts.0 ∙ ap length seen,
        counts.1 ∙ ap (λ xs. length (keep succeeded xs)) seen,
        counts.2 ∙ ap (λ xs. length (keep failed xs)) seen,
      )
