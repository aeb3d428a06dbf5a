-- ===== src/Examples.antt =====
-- Concrete tables, queues and workers, and the theorems at work on them.
pub mod Fixtures
pub mod Queues
pub mod Backends
pub mod Workers
pub mod Settings
pub mod Pools
pub mod Threads
pub mod Servers
pub mod Goroutines
pub mod Shutdowns
pub mod Posts
