-- ===== src/Concurrency.antt =====
-- What limits the requests under way: Semaphore of provider/concurrency.go, AdaptiveSemaphore of
-- provider/concurrency_adaptive.go and LoadShedder of server/shedding.go.
pub mod Shedder
pub mod Adaptive
pub mod Semaphore
mod Tests
