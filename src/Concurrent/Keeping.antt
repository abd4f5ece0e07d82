-- ===== src/Concurrent/Keeping.antt =====
-- What a request (internal/api/handler.go) writes and returns while others are served.
use smart_retry_orchestrator.Float.{Float64}
use smart_retry_orchestrator.Orchestrator.State.{System, Action, Env, gets}
use smart_retry_orchestrator.Concurrent.Calls.{
  Calls, Call, call, return, then_, step, LightCall, Rest, and_then, done, more, light, saving,
  updating, fetching, emptying, clock, simulate, tracker_read, tracker_write, tracker_reset,
  adaptive_read, adaptive_write, log_write, store_read,
}
use smart_retry_orchestrator.Store.{get_transaction}
use smart_retry_orchestrator.Domain.Errors.{Result, err, ok, not_found, duplicate_id}
use smart_retry_orchestrator.Domain.Models.{Transaction}
use smart_retry_orchestrator.Concurrent.Lasting.{
  IsLasting, IsConsistent, IsFetched, light-IsConsistent, save-IsConsistent, update-IsConsistent,
  save_answers, update_answers, IsFetched-get_transaction, reset_store-IsConsistent,
}

module _ {F : Type 0} ⦃fl : Float64 F⦄ ⦃env : Env F⦄ where
  -- What such a call answers: anything, but a reading of the store is of a consistent state.
  abbrev pub KeepsLight : {A : Type 0} {m : Action F A} → LightCall A m → (A → Type 0) → Type 0
  KeepsLight (store_read A f) Holds =
      (s : System F) → IsConsistent s → Holds (f s.store s.health_tracker)
  KeepsLight {A} k Holds = (a : A) → Holds a

  pub KeepsLight-all :
      {A : Type 0} {m : Action F A} (k : LightCall A m) (Holds : A → Type 0)
      → ((a : A) → Holds a)
      → KeepsLight k Holds
  KeepsLight-all clock Holds h = h
  KeepsLight-all (simulate p) Holds h = h
  KeepsLight-all (tracker_read p) Holds h = h
  KeepsLight-all (tracker_write p success ts) Holds h = h
  KeepsLight-all tracker_reset Holds h = h
  KeepsLight-all (adaptive_read A f) Holds h = h
  KeepsLight-all (adaptive_write code p success) Holds h = h
  KeepsLight-all (log_write d) Holds h = h
  KeepsLight-all (store_read A f) Holds h = λ s o. h _

  light_answers :
      {A : Type 0} {m : Action F A} (k : LightCall A m) (s : System F) (Holds : A → Type 0)
      → IsConsistent s
      → KeepsLight k Holds
      → Holds (m s).0
  light_answers clock s Holds o h = h _
  light_answers (simulate p) s Holds o h = h _
  light_answers (tracker_read p) s Holds o h = h _
  light_answers (tracker_write p success ts) s Holds o h = h _
  light_answers tracker_reset s Holds o h = h _
  light_answers (adaptive_read A f) s Holds o h = h _
  light_answers (adaptive_write code p success) s Holds o h = h _
  light_answers (log_write d) s Holds o h = h _
  light_answers (store_read A f) s Holds o h = unfold gets in h s o

  pub KeepsLight-mono :
      {A : Type 0} {m : Action F A} (k : LightCall A m) (P Q : A → Type 0)
      → KeepsLight k P
      → ((a : A) → P a → Q a)
      → KeepsLight k Q
  KeepsLight-mono clock P Q h f = λ a. f a (h a)
  KeepsLight-mono (simulate p) P Q h f = λ a. f a (h a)
  KeepsLight-mono (tracker_read p) P Q h f = λ a. f a (h a)
  KeepsLight-mono (tracker_write p success ts) P Q h f = λ a. f a (h a)
  KeepsLight-mono tracker_reset P Q h f = λ a. f a (h a)
  KeepsLight-mono (adaptive_read A g) P Q h f = λ a. f a (h a)
  KeepsLight-mono (adaptive_write code p success) P Q h f = λ a. f a (h a)
  KeepsLight-mono (log_write d) P Q h f = λ a. f a (h a)
  KeepsLight-mono (store_read A g) P Q h f = λ s o. f _ (h s o)

  -- Whatever the other requests do between its calls, the request writes only transactions as above,
  -- and what it returns is as `Holds` says.
  abbrev pub Keeps : {A : Type 0} {m : Action F A} → Calls Call A m → (A → Type 0) → Type 0
  Keeps (call (light A m k)) Holds = KeepsLight k Holds
  Keeps (call (saving tx)) Holds = IsLasting tx × Holds (ok tt) × Holds (err duplicate_id)
  Keeps (call (updating tx)) Holds = IsLasting tx × Holds (ok tt) × Holds (err not_found)
  Keeps (call (fetching id)) Holds = (r : Result (Transaction F)) → IsFetched r → Holds r
  Keeps (call emptying) Holds = Holds tt
  Keeps (return a) Holds = Holds a
  Keeps (then_ c k) Holds = Keeps c (λ a. Keeps (k a) Holds)

  abbrev pub KeepsOn : {A : Type 0} → Rest F A → (A → Type 0) → Type 0
  KeepsOn (done a) Holds = Holds a
  KeepsOn (more c) Holds = Keeps c Holds

  KeepsOn-and_then :
      {A B : Type 0} (f : A → Action F B) (r : Rest F A) (k : (a : A) → Calls Call B (f a))
      (Holds : B → Type 0)
      → KeepsOn r (λ a. Keeps (k a) Holds)
      → KeepsOn (and_then f r k) Holds
  KeepsOn-and_then f (done a) k Holds h = h
  KeepsOn-and_then f (more c) k Holds h = h

  pub step-KeepsOn :
      {A : Type 0} {m : Action F A} (c : Calls Call A m) (s : System F) (Holds : A → Type 0)
      → IsConsistent s
      → Keeps c Holds
      → IsConsistent (step c s).1 × KeepsOn (step c s).0 Holds
  unfolding step
  step-KeepsOn (call (light A m k)) s Holds o h =
      (light-IsConsistent k s o, light_answers k s Holds o h)
  step-KeepsOn (call (saving tx)) s Holds o h =
      (save-IsConsistent tx s h.0 o, save_answers tx s Holds o h.1 h.2)
  step-KeepsOn (call (updating tx)) s Holds o h =
      (update-IsConsistent tx s h.0 o, update_answers tx s Holds o h.1 h.2)
  step-KeepsOn (call (fetching id)) s Holds o h =
      unfold gets in (o, h (get_transaction s.store id) (IsFetched-get_transaction id s o))
  step-KeepsOn (call emptying) s Holds o h = (reset_store-IsConsistent s o, h)
  step-KeepsOn (return a) s Holds o h = (o, h)
  step-KeepsOn (then_ {f} c k) s Holds o h =
      let (p, q) = step-KeepsOn c s (λ a. Keeps (k a) Holds) o h in
      (p, KeepsOn-and_then f (step c s).0 k Holds q)
