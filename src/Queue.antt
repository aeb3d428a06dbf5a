-- ===== src/Queue.antt =====
-- internal/queue
pub mod Delivery
pub mod Sorted
pub mod Memory
pub mod RateLimited
pub mod Router
pub mod Interface
