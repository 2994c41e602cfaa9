-- ===== src/Handler.antt =====
-- The class `sync_handler` (sync_handler.h, sync_handler.cpp): one request at a time, over the map
-- of users that the service threads share and the store.
pub mod State
pub mod Users
pub mod Password
pub mod Register
pub mod Accounts
pub mod Dispatch
pub mod Quiet
pub mod Lock
mod Tests
