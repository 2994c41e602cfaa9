-- ===== src/Stores.antt =====
-- RedisStore.cpp and data_store_connection.cpp as implementations of IDataStore, so that the handlers
-- run over them. An operation that waits for another thread to give a connection back, and one without
-- defined behaviour, are both `fault`: nothing is said of what comes then.
pub mod OverRedis
pub mod OverPostgres
mod Tests
