-- ===== src/RateLimit.antt =====
-- provider/rate_limit_multi.go, the limiter of provider/concurrency.go and the retry budget of
-- provider/errors.go: token buckets. A float64 level is counted exactly, in units of one token per
-- minute times one nanosecond: a token is `minute` units, and a bucket of rate r gains r units in
-- each nanosecond. Time is nanoseconds in ℕ, an argument of each call. A negative rate disables a
-- limit as 0 does, and is read as 0.
pub mod Level
pub mod Estimate
pub mod Retry
pub mod Provider
pub mod Multi
mod Tests
