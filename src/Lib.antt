-- ===== src/Lib.antt =====
-- Smart Retry Orchestrator: a service that takes payment failures, decides which are worth a retry,
-- retries them over three processors, and keeps the outcome.
--
-- The parts and their files:
-- - Domain (internal/domain): codes, states, records and errors.
-- - Classifier (internal/classifier/classifier.go): `classify` is DefaultClassifier.Classify; the
--   record `Classifier` is the interface that the orchestrator takes, Classifier/Policy fills it.
-- - Health (internal/health/tracker.go): `record_outcome`, `get_health`, `get_all_health`, `reset`.
--   Health/Compact has the in-place pruning loop, Window and Thresholds the snapshots, History the
--   tracker against everything that was ever reported.
-- - Store (internal/store/memory.go): the methods of MemoryStore under their names; Store/Contents is
--   the abstract store, Refinement and Listing relate the two.
-- - Orchestrator (internal/orchestrator/orchestrator.go): State has the fields of the orchestrator
--   with its parts, and the actions on them; Adaptive, Select, Reasoning, Plan, Retry and Process
--   follow the methods, with the proofs in their children and in Quiet.
-- - Metrics (internal/metrics/calculator.go): `get_recovery_metrics`, and `metrics_over` for
--   GetProcessorMetrics once it has read the store and the tracker (`metrics_of` of Api/Queries); Counts, Attempts and Entries relate them to the stored transactions.
-- - Api (internal/api): Requests, Responses, Handlers, Batch, Queries and Middleware have the bodies,
--   the validation and the handlers of request.go, response.go, handler.go and middleware.go under
--   their names; Routes has RegisterRoutes, Web what the handlers take from outside.
-- - Datagen (datagen/generator.go): Random, Shuffle and Generator follow GenerateEvents; Permuted,
--   Drawn, Made and Generated are the proofs.
-- - Server (cmd/server/main.go): the parts put together, and the generator closure.
-- - Service: what holds of all parts together, for single requests and for any sequence of them;
--   Races has the steps of a report that overlaps with the end of a retry chain.
-- - Concurrent: requests that are served at the same time (internal/api/handler.go). Calls has the
--   calls of which an action is made, Orchestrated and Handled those of each method and handler in
--   their order, Running the server whose requests interleave. Lasting, Keeping, Retried, Told, Kept
--   and Replies are what each request keeps and answers whatever the others do, Bounded, Planned,
--   Rounds and Answered how many calls a failure takes, and Accepted is about failures with one id.
-- - Common, Float: shared helpers, Go's maps, texts, and float64.
-- - Examples: tests, and each result at a concrete input.
--
-- How the code is read. A method that changes state is a function of the state, or an action on the
-- whole system, in the order of the source's statements; the mutexes make each method of the tracker
-- and of the store one step. A failing method returns a `Result`. time.Now and rng.Float64 are
-- parameters (`Env`): the n-th call has the n-th answer, whatever that is. float64 is an abstract type
-- (`Float64`); results that compare quotients name the laws of IEEE 754 that they need (`IsIeee`),
-- which hold for counts below 2^25. Times are distances from a fixed instant, more than a day
-- before the clock's first time, so that no subtraction from the clock's time (the window, the
-- default range of a query, the two hours of the test data) goes below zero. Counters do not
-- overflow. Texts are built as fmt.Sprintf builds them, with the digits of a float64 left to the
-- parameter `fixed`. sort.Slice is the insertion sort that it is on short slices.
-- The loop of executeRetryChain recurs on the rounds that RetryCount leaves, and needs no fuel; the
-- loops over slices recur on the slice.
--
-- A handler takes a request that the router has matched to it, and turns the response writer and the
-- system into those it leaves. Decoding a body, parsing a time or a number, and reading a file are
-- parameters (`Web`) that may answer anything. math/rand is a parameter (`Rng`) of which only the
-- range of its numbers is known (`IsRng`); an index out of range is a panic, `none`.
-- Whether json.NewEncoder(w).Encode succeeds for the value that answers a request is a parameter too
-- (`encodes`): it fails for a float64 that is +Inf, and respondJSON drops the error, so that the status
-- stands and no body follows. A result that names what an answer contains names the value that Encode
-- is given.
-- In Service requests are served one after the other, but in Service/Races, where the store calls of
-- two requests interleave. In Concurrent any number of them interleave, and each call of the tracker,
-- of the store, of the adaptive data, of the clock and of the random source is one step. simulateOutcome
-- is one step too: it holds its mutex until it has drawn, and what others do between its two readings
-- touches no draw. That net/http serves each request in a goroutine of its own is its documented
-- behaviour.
-- A return, which reads nothing that is shared, is counted as a step too.
--
-- Not modelled: the matching of paths by chi, the text that JSON encodes values to, logging, listening
-- and shutting down in cmd/server, which are input and output or third-party code; and what Go's memory
-- model says of memory that no mutex guards.
pub mod Common
pub mod Float
pub mod Domain
pub mod Classifier
pub mod Health
pub mod Store
pub mod Metrics
pub mod Orchestrator
pub mod Datagen
pub mod Api
pub mod Server
pub mod Service
pub mod Concurrent
pub mod Examples
