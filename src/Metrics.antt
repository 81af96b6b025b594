-- ===== src/Metrics.antt =====
-- pkg/statemetrics and metrics/: the state of Runners and RunnerSets as Prometheus metrics.
pub mod Family
pub mod Names
pub mod Shared
pub mod Runners
pub mod RunnerSets
pub mod Scrape
pub mod Alphabet
pub mod Aligned
pub mod Ones
pub mod Collisions
