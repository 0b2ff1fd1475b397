-- ===== src/Route/Generation.antt =====
-- internal/route/matcher.go: `GenerationRegistry`, the route generations and their streams.
pub mod State
pub mod Stage
pub mod Activate
pub mod Stream
pub mod Invariant
pub mod Serving
