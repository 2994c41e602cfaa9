-- ===== src/Service.antt =====
-- `service_thread` (server.cpp): what a thread does for a client that it has taken from the queue.
pub mod Memory
mod Cut
pub mod Embedded
pub mod Thread
pub mod Whole
pub mod Safety
pub mod Auth
pub mod Lifecycle
mod Tests
