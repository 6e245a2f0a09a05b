-- ===== src/Persistence/Cache.antt =====
-- persistence/cache.py: `ResultCache`, a least-recently-used cache with a time to live, and
-- `DiscoveryCache`. The key of an entry is the SHA-256 of its tool, model and parameters: a text
-- here. `time.monotonic()` is a number of microseconds, and the lock makes each method one step.
pub mod Results
pub mod Discovery
