-- ===== src/Server.antt =====
-- server.cpp: the threads beside the service threads.
pub mod Threads
pub mod Lifetime
pub mod Sessions
pub mod Clients
mod Tests
