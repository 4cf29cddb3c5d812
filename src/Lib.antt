-- ===== src/Lib.antt =====
-- Verification of the LLM gateway: the provider manager with its circuit breakers, rate
-- limiters and concurrency limits, error taxonomy and retries, response cache and request
-- coalescer, affinity ring and router, routing, costs, tenants and audit log, the monitor of
-- the error budget, prefix statistics and warm-up, and the canary rollout of configurations.
--
-- The program is an HTTP gateway (server/) in front of several providers (provider/). A
-- request is authenticated and rate-limited, looked up in the response cache (cache/), routed
-- to a provider by the rules, by affinity or by weighted choice (server/routing.go,
-- prefix/affinity.go), and sent by the provider manager, which asks the provider's limiter and
-- circuit breaker first and retries. What it used goes to the cost tracker, its outcome to
-- the monitor of the error budget, and its prefix to the profiler, whose hot prefixes the
-- warm-up keeps in the providers' caches. The modules below are the parts that keep the state
-- such a request meets:
--
--   Circuit    provider/circuit.go. A record for CircuitBreaker; Record is record_call, Allow allow,
--              State read_state, evaluate evaluate, transitionTo transition_to, AdvanceBucket
--              advance_bucket.
--   RateLimit  token buckets: RateLimit/Multi for provider/rate_limit_multi.go (MultiRateLimiter),
--              RateLimit/Provider for ProviderRateLimiter of provider/concurrency.go, RateLimit/Retry
--              for RetryBudget of provider/errors.go.
--   Cache      cache/cache.go (New, Get, Set, SetWithTTL, evictExpired, Size), and Cache/Coalescer for
--              cache/coalescer.go: Do as the steps of goroutines between its locked sections.
--   Affinity   prefix/affinity.go: Affinity/Ring for the consistent-hash ring (NewRing, Lookup),
--              Affinity/Router for AffinityRouter (Decide, RecordOverflow, Inc, Dec, SetRing), with
--              affinityPick of server/routing.go as affinity_pick.
--   Errors     provider/errors.go: the kinds of error and their codes, Errors/Classify for ClassifyError
--              and ClassifyErrorWithMessage, Errors/Retry for Retry and its delays.
--   Routing    server/routing.go and server/routing_pool.go: Routing/Pool for the candidates, the
--              weighted choice (selectFromPool, weightedPick), the fallback chain
--              (routingCandidates) and toggleRoutingPool, Routing/Rules for matchRule, matchList and
--              applyRule, Routing/Request for routeRequest and the ring it rebuilds.
--   Canary     config/canary.go: CanaryRollout (Start, TrafficPercent, Advance, RecordError, Rollback,
--              Resume).
--   Quota      prefix/quota.go: QuotaCoordinator (RealRequest, WarmAllowed).
--   Prefix     Prefix/Fingerprint for FingerprintRequest and sortStrings of prefix/fingerprint.go,
--              Prefix/Profiler for Profiler of prefix/profiler.go (ObserveFull, truncateMessages,
--              evictIfNeededLocked, IsHot, Top, HitBlockLayer), Prefix/Warmup for WarmScheduler of
--              prefix/warmup.go (Tick, hotEnough, withinGlobalCap, warmOne).
--   Streaming  provider/openai.go: mergeToolCalls, which joins the pieces of streamed tool calls.
--   Server     server/auth.go: AuthMiddleware and extractBearer.
--   Concurrency
--              Concurrency/Shedder for LoadShedder of server/shedding.go, Concurrency/Adaptive for
--              AdaptiveSemaphore of provider/concurrency_adaptive.go, Concurrency/Semaphore for
--              Semaphore of provider/concurrency.go.
--   Manager    provider/manager.go: the registry (Register, Bootstrap, Unregister, Get, List), which
--              gives Routing its snapshots, and in Manager/Guards the method Generate, which joins
--              Concurrency/Semaphore, RateLimit/Provider and Circuit.
--   Costs      provider/cost.go: CostTracker with its log (Record, replayLog, DailyTokens) and
--              ModelWhitelist; TokenPricing of provider/models.go.
--   Tenants    provider/tenant.go: TenantManager (Register, Revoke, Check, Record, tryMonthlyReset),
--              Tenants/Validator for CostValidator and Tenants/Audit for AuditLog.
--   Slo        observability/slo.go: SLOMonitor (record, advance, evaluate, aggregate).
--   Prelude    helpers: Boolean tests on numbers, lists, dictionaries for Go's maps (Prelude/Dict),
--              sort.Search (Prelude/Search), sort.SliceStable (Prelude/Sort), integers (Prelude/Int)
--              and texts as bytes (Prelude/Bytes).
--
-- How state is modelled. A struct is a record and a method a function that returns the new
-- record and the result. Most methods hold their mutex from start to end, so that a sequence of
-- calls is a list of steps. Some that do not are one step in the model all the same: Inc and Dec
-- of AffinityRouter, which look the counter up under the mutex and then change it atomically,
-- Dec by a subtraction and, where that went below zero, a store; and Check of TenantManager,
-- which looks the key up under the read lock, resets the month under the write lock and reads
-- the usage under none. What is proved of them is about calls that do not overlap. Coalescer.Do
-- releases its mutex in between, so that Cache/Coalescer has a step relation, in which the
-- goroutines interleave at will, fn may return anything or panic, and a waiter may time out at
-- any moment. So has Concurrency/Shedder, whose counters are atomic and under no lock, and
-- Manager/Guards, for Generate, with the registry's calls in between: the objects of a
-- registration stand in a store, by a number that the maps and the calls under way hold, so that
-- a call keeps those it has read. A map is an association list that holds a key once, in the
-- order of one range over it; a theorem about every dictionary covers every order.
--
-- Numbers. An int or int64 that only counts is a number in ℕ: the counters are of 64 bits, and
-- would need centuries to overflow. The count of tokens of a request, which TokenEstimate adds
-- up from a number that the client names, is an integer with the wrap-around of 64 bits
-- (RateLimit/Estimate), and so is MaxRetries of Retry an integer (Prelude/Int). Other configured
-- values are taken not to be negative: where the code tests them by <= 0 or > 0, as it does for
-- most, a negative one is like 0, and a priority, a time to live of the cache or a soft limit of
-- a tenant below 0 is not modelled. Time is nanoseconds in ℕ, and an argument of each call,
-- which reads the clock once; no theorem needs the clock to go forward unless it says so. A
-- float64 threshold is a ratio of two numbers, compared by cross products; for the burn rate of
-- the error budget a threshold says, too, what the rounding makes of a rate that is exactly at
-- it, which is all that it can change below 2 ^ 46 calls in a window. A level of a token bucket
-- is counted in units of one token per minute times one nanosecond, in which the arithmetic of
-- the code is exact; the rounding of float64 is not modelled there. A weight for the random
-- choice is a number in a unit that makes the scores whole, and so is a cost, whose sums are
-- exact. A random number is an argument.
--
-- Bounds and fuel. Loops are structural, but for sort.Search, whose number of rounds is
-- bounded by the length of the interval, which is enough since each round at least removes one
-- index (Prelude/Search). Retry's loop recurses on the attempts that are left. The walk around
-- the ring takes as many steps as there are virtual nodes, as the loop of Decide does.
--
-- Not modelled. HTTP handlers and JSON (server/api.go, server/admin*.go, the rest of server/ but
-- for the parts above), the providers' wire formats (the rest of provider/openai.go, and
-- others), the commands (cmd/), persistence, metrics and tracing (the rest of observability/),
-- the configuration's parser and file watcher (config/): they are input, output and glue. Of
-- provider/tenant.go the price list, which is fetched, and the background prober are left out.
-- The score of a provider (effectiveWeight) is a parameter, and so are the providers, their
-- factories and sha256 (hash_key, vnode_hash, hash).
pub mod Prelude
pub mod Circuit
pub mod RateLimit
pub mod Cache
pub mod Affinity
pub mod Routing
pub mod Errors
pub mod Canary
pub mod Concurrency
pub mod Quota
pub mod Manager
pub mod Costs
pub mod Tenants
pub mod Slo
pub mod Prefix
pub mod Streaming
pub mod Server
