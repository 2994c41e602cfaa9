-- ===== src/Lib.antt =====
-- sync_server: the synchronisation server of a password vault (C++). A client registers an email
-- and a password, and brings its accounts and the server's to the newest version of each in two
-- requests.
--
-- The model follows the calls from the outside in. A service thread hands a request to
-- `handle_request`, which calls one handler per operation. A handler reads the JSON request,
-- checks the password against the map of users, calls the store, and returns the text of the
-- reply; errors are exceptions that carry a reply. The model passes the map of users and the
-- store's state along, and an exception is a value (Exec.antt) beside the state that was written
-- before it.
--
-- Files and the code they are about:
-- - Base: shared names, bytes, decimal numbers (Base/Decimal: sprintf and atoi; Base/Long:
--   %lld and atol) and strtok (Base/Tokens). Texts are lists of bytes without the NUL.
-- - Map: std::map with the order cmp_key of Config.h.
-- - Config: Config.h and Config.cpp, the settings; Config/File the constructor, Config/Frame
--   what a key writes.
-- - Http: config_http.h and config_http.cpp, the replies; Http/Client is a reader of replies
--   to state what they say.
-- - Email and Password: verify_email and hash_password of sync_handler.cpp.
-- - Exec: exceptions and state; Exec/Throws which exceptions a call may throw.
-- - Request: verify_request, parse_header and read_incoming_bytes of server.cpp;
--   Request/Render is a writer of requests.
-- - Pool: the connections of RedisStore.cpp, their manager in IDataStore.h (Pool/Manager).
-- - Redis: the operations of RedisStore.cpp: Redis has the commands of RedisStore.h and the
--   calls of hiredis, Redis/Attempts the loop that the operations share, Redis/Store the
--   operations (getAllUsers is get_all_users, createUser is create_user), Redis/Purge
--   deleteOldUsers, Redis/Fields the reading of an account. Redis/Server is a server that
--   answers commands in order, to state in Redis/Outcomes what the operations do to its content.
-- - Postgres: data_store_connection.h and data_store_connection.cpp: Postgres has the calls of
--   libpq, Postgres/Pool the connections, Postgres/Execute PQexec_wrapper and
--   PQexecPrepared_wrapper, Postgres/Sql the statement of the upsert and its buffer,
--   Postgres/Heap the copies of what is read, Postgres/Store the operations. Postgres/Count,
--   Postgres/Outcomes, Postgres/Fits, Postgres/HeapFits, Postgres/Injected and
--   Postgres/StoreLaws are about them.
-- - Stores: the two stores as implementations of IDataStore, with the handlers run over them.
-- - Cleaner: the thread of IDataStore.h that deletes old accounts.
-- - Server: the threads of server.cpp that shut down service threads (Server/Threads;
--   Server/Lifetime is the service threads from start to end, with shutdown) and close idle
--   connections (Server/Sessions), and the way of the clients between start and the service
--   threads (Server/Clients: each step is what one thread does at once, in any order).
-- - Service: the body of service_thread (server.cpp) for one client: Service/Memory what
--   parse_header leaves of the header's memory and the JSON in it (embed_json), Service/Thread
--   the reads, the calls and the reply (serve). Service/Cut, Service/Embedded, Service/Whole,
--   Service/Safety, Service/Auth and Service/Lifecycle are about them.
-- - Store and Json: the interface IDataStore of IDataStore.h, and the calls of the JSON
--   library.
-- - Sync: the comparison loop of handle_sync_initial (sync_handler.cpp); Sync/Reconcile and
--   Sync/Reading read it off lists, and Sync/Converge follows both requests.
-- - Handler: the handlers of sync_handler.cpp: Handler/Register (handle_register,
--   handle_config), Handler/Accounts (handle_delete, handle_sync_initial, handle_sync_final),
--   Handler/Password (verify_password), Handler/Lock (lock_user, relock_user and unlock_user;
--   any number of handlers that call them, one access at a time), Handler/Dispatch
--   (handle_request), Handler/Users (the constructor).
--
-- Bounds: an unsigned int is printed modulo 2 ^ 32, which ten digits hold, so that the fuel 10 of
-- `digits` is enough. The loop of parse_header has the length of its text as fuel, of which each
-- line takes one (Request/Render). The test of pooled connections, which goes on as long as tests
-- fail, has a fuel of its own: one more than the failures is enough (Pool/Fuel). The attempts of
-- the stores to connect and to execute are counted down from the numbers in the code; getAllUsers
-- of RedisStore.cpp, which tries for ever, has the number of its attempts as an argument. Every
-- other loop recurses on its text or list. Where the C++ code has no defined behaviour (a null
-- pointer that is read, an int that overflows in atoi) the model returns `none`, or the exception
-- value `fault`.
--
-- The counts and times of the server's threads, and the minimum of the pool, are natural numbers
-- here: a settings file that gives them a negative number is outside of the model.
--
-- Parameters: the JSON library jsonP, OpenSSL's digest, what SSL_read returns, hiredis, libpq,
-- what the memory of a temporary string holds later, the clock and the implementations of the
-- store are arguments of the definitions that use them.
--
-- Not modelled: the sockets and SSL (the handshake is a flag), start-up and scripts. Handlers run
-- one at a time here, but for Handler/Lock, whose handlers interleave, as user_infos_lock is a
-- lock of each handler alone. What is not atomic in the code and in no lock (the entries of the
-- map, current_thread_count) is taken as atomic. Pauses between attempts are left out, and so are
-- the heaps that the Redis store copies accounts to. Memory is not modelled but for the header
-- that parse_header cuts, the sizes of the buffers of replies, requests, statements and of the
-- accounts that Postgres returns, and the null pointers.
pub mod Base
pub mod Cleaner
pub mod Config
pub mod Email
pub mod Exec
pub mod Handler
pub mod Http
pub mod Json
pub mod Map
pub mod Password
pub mod Pool
pub mod Postgres
pub mod Redis
pub mod Request
pub mod Server
pub mod Service
pub mod Store
pub mod Stores
pub mod Sync
