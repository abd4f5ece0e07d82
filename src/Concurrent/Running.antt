-- ===== src/Concurrent/Running.antt =====
-- The server of cmd/server/main.go with any number of requests in flight: net/http serves each in a
-- goroutine of its own, and the goroutines interleave between the calls.
use smart_retry_orchestrator.Float.{Float64}
use smart_retry_orchestrator.Orchestrator.State.{System, Action, Env}
use smart_retry_orchestrator.Concurrent.Replies.{Replies-serve}
use smart_retry_orchestrator.Concurrent.Calls.{done, Calls, Call, Rest, more, step}
use smart_retry_orchestrator.Concurrent.Lasting.{IsConsistent, IsConsistent-initial_system}
use smart_retry_orchestrator.Concurrent.Keeping.{KeepsOn, step-KeepsOn}
use smart_retry_orchestrator.Classifier.{Classifier}
use smart_retry_orchestrator.Server.{new_handler, initial_system}
use smart_retry_orchestrator.Api.Web.{Web, Request}
use smart_retry_orchestrator.Domain.Models.{Time, FailureEvent}
use smart_retry_orchestrator.Common.{List, Bool, String, All, [], ◌++◌, ◌∷◌}
use smart_retry_orchestrator.Api.Responses.{ResponseWriter}
use smart_retry_orchestrator.Api.Routes.{Endpoint, serve}
use smart_retry_orchestrator.Concurrent.Handled.{serve_calls, generator_calls}
use smart_retry_orchestrator.Concurrent.Kept.{Keeps-generator}
use smart_retry_orchestrator.Service.Answers.{IsAnswered, expected}

-- A request to an endpoint, and what is left of it.
abbrev pub InFlight : (F : Type 0) → ⦃fl : Float64 F⦄ → ⦃env : Env F⦄ → Type 1
InFlight F = Endpoint × Request × Rest F (ResponseWriter F)

module _ {F : Type 0} ⦃fl : Float64 F⦄ ⦃env : Env F⦄ where
  module _ (web : Web F) where
    abbrev Answers : Endpoint → Request → ResponseWriter F → Type 0
    Answers e r w = IsAnswered (expected e) (web.encodes r) w

    abbrev RepliesOn : InFlight F → Type 0
    RepliesOn (e, r, rest) = KeepsOn rest (Answers e r)

    All-at :
        (before : List (InFlight F)) (q : InFlight F) (after : List (InFlight F))
        → All RepliesOn (before ++ q ∷ after)
        → RepliesOn q
    All-at [] q after (h, rest) = h
    All-at (b ∷ before) q after (first, rest) = All-at before q after rest

    All-moved :
        (before : List (InFlight F)) (q : InFlight F) (after : List (InFlight F)) (old : InFlight F)
        → All RepliesOn (before ++ old ∷ after)
        → RepliesOn q
        → All RepliesOn (before ++ q ∷ after)
    All-moved [] q after old (_, rest) h = (h, rest)
    All-moved (b ∷ before) q after old (first, rest) h =
        (first, All-moved before q after old rest h)

    -- A request that has returned has been answered as its endpoint answers.
    abbrev pub IsAnsweredIfDone : InFlight F → Type 0
    IsAnsweredIfDone (e, r, done w) = IsAnswered (expected e) (web.encodes r) w
    IsAnsweredIfDone (e, r, more c) = Unit

    RepliesOn-IsAnsweredIfDone :
        (requests : List (InFlight F)) → All RepliesOn requests → All IsAnsweredIfDone requests
    RepliesOn-IsAnsweredIfDone [] all = tt
    RepliesOn-IsAnsweredIfDone ((e, r, done w) ∷ rest) (h, all) =
        (h, RepliesOn-IsAnsweredIfDone rest all)
    RepliesOn-IsAnsweredIfDone ((e, r, more c) ∷ rest) (h, all) =
        (tt, RepliesOn-IsAnsweredIfDone rest all)

module _ {F : Type 0} ⦃fl : Float64 F⦄ ⦃env : Env F⦄ ⦃cl : Classifier F⦄ (web : Web F)
    (generate_events : Time → List (FailureEvent F)) (docs_found : Bool) (root html : String) where
  -- the calls of one request to the handler that main makes
  unfoldable pub request_calls :
      (e : Endpoint) (r : Request)
      → Calls {F = F} Call
          (ResponseWriter F)
          (serve web (new_handler generate_events docs_found root) html e r)
  unfolding new_handler
  request_calls e r =
      serve_calls web (new_handler generate_events docs_found root) html
        (generator_calls generate_events) e r

  -- The requests so far, each with what is left of it, and the state they share. It is the documented
  -- behaviour of net/http that a request is served in a goroutine of its own.
  pub data Running : List (InFlight F) → System F → Type 1 where
    listening : Running [] initial_system
    arrived :
        {requests : List (InFlight F)} {s : System F}
        → Running requests s
        → (e : Endpoint) (r : Request) → Running ((e, r, more (request_calls e r)) ∷ requests) s
    moved :
        {m : Action F (ResponseWriter F)} {s : System F} (before after : List (InFlight F))
        (e : Endpoint) (r : Request) (c : Calls Call (ResponseWriter F) m)
        → Running (before ++ (e, r, more c) ∷ after) s
        → Running (before ++ (e, r, (step c s).0) ∷ after) (step c s).1

  Running-keeping :
      {requests : List (InFlight F)} {s : System F}
      → Running requests s
      → IsConsistent s × All (RepliesOn web) requests
  unfolding request_calls new_handler
  Running-keeping listening = (IsConsistent-initial_system, tt)
  Running-keeping (arrived run e r) =
      let (o, all) = Running-keeping run in
      let h =
        Replies-serve web (new_handler generate_events docs_found root) html
          (generator_calls generate_events) (Keeps-generator generate_events) e r in
      (o, (h, all))
  Running-keeping (moved {s} before after e r c run) =
      let (o, all) = Running-keeping run in
      let (o', h) =
        step-KeepsOn c s (Answers web e r) o (All-at web before (e, r, more c) after all) in
      (o', All-moved web before (e, r, (step c s).0) after (e, r, more c) all h)

  -- However many requests are served at the same time, at whatever endpoints, and however their calls
  -- interleave: between any two calls the store is consistent; each hard decline in it is
  -- HARD_DECLINED and was never retried; each soft decline in it has at most three attempts, numbered
  -- from 1, which its count and its cost sum up, and is RECOVERED, or EXHAUSTED after attempts that
  -- have all failed, or RETRYING with no attempt; and no adaptive record counts more successes than
  -- outcomes.
  pub Running-IsConsistent :
      {requests : List (InFlight F)} {s : System F} → Running requests s → IsConsistent s
  Running-IsConsistent run = (Running-keeping run).0

  -- However many requests are served at the same time, at whatever endpoints, and however their calls
  -- interleave: each that has returned has been answered exactly once, with a status that `expected`
  -- lists for its endpoint, which is never 500, and with one body after it, or with none if the body is a
  -- value that Encode fails for.
  pub Running-IsAnswered :
      {requests : List (InFlight F)} {s : System F}
      → Running requests s
      → All (IsAnsweredIfDone web) requests
  Running-IsAnswered {requests} run =
      RepliesOn-IsAnsweredIfDone web requests (Running-keeping run).1
