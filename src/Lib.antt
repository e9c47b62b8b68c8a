-- ===== src/Lib.antt =====
-- Verification of the banking service: an event-sourced account ledger in Rust, with an event store on
-- PostgreSQL, read models, a cache, Kafka clients with their recovery, users and their tokens, guards
-- for its Redis clients, rate limiters and shards.
--
-- The parts, and where they are modelled:
--
--   Domain          src/domain: accounts, their events and commands. `Account::apply_event` is
--                   `apply_event`, `Account::handle_command` is `handle_command`. Domain/Decide has the
--                   rules that accept a command, Domain/Apply the replay of events, Domain/Lifecycle
--                   an account over its life and Domain/Ledger its business without events.
--   EventStore      src/infrastructure/event_store.rs. A request goes from `save_events` to the batch
--                   processor (EventStore/Processor), to `flush_batch` (EventStore/Flush), which
--                   prepares and validates its rows (EventStore/Prepare) and inserts them by
--                   `bulk_insert_events_optimized` (EventStore/Insert); EventStore/Read has the queries.
--   AccountRepository  src/infrastructure/repository.rs, over the event store.
--   Application     src/application: the handlers (Application/Handlers) and the service
--                   (Application/Service), over the interfaces of the repository, the projections and
--                   the cache.
--   Projections     src/infrastructure/projections.rs: the read models, their tables and caches
--                   (Projections/Store), and the batches of their updates (Projections/Batches).
--   Redis           src/infrastructure/redis_abstraction.rs: the circuit breaker and the load shedder.
--   Limits          the rate limiters of src/infrastructure/middleware.rs (Limits/Counted) and of
--                   src/infrastructure/rate_limiter.rs (Limits/Sliding).
--   Cache           src/infrastructure/cache_service.rs: the cache in memory (Cache/Memory) and in Redis
--                   (Cache/Service), and its warm-up (Cache/Warmup).
--   Auth            src/infrastructure/auth.rs and user_repository.rs: the users (Auth/Users), the login
--                   with its lockout (Auth/Login, Auth/Lockout), registration and the change of a password
--                   (Auth/Accounts), and the tokens with their blacklist and rate limit (Auth/Tokens).
--   Kafka           src/infrastructure/kafka_abstraction.rs, the clients (Kafka/Types, Kafka/Client);
--                   kafka_dlq.rs, the dead-letter queue (Kafka/DeadLetters); kafka_recovery.rs
--                   (Kafka/Recovery), kafka_recovery_strategies.rs (Kafka/Strategies) and
--                   kafka_event_processor.rs (Kafka/Processor).
--   Sharding        src/infrastructure/sharding.rs: hash ranges, lookup and assignment of shards.
--   Decimal         the amounts of money, an interface with an instance in cents.
--   Prelude         shared names: numbers, lists, outcomes, actions on a state, maps.
--   Tests           runs on small inputs.
--
-- State is passed explicitly: an action takes a state and gives an outcome (`Ok`, `Err` or a panic) with
-- the state that it leaves, which stays written after an error, as it does behind the shared references
-- of the source. Numbers of 64 bits are words and wrap around, since the release profile does not check
-- them. The identifiers of `Uuid::new_v4` and the times are arguments; a call reads the clock once. The
-- waits of the recovery and of its strategies are left out.
--
-- What the source does not contain is a parameter. `Decimal` has the order and the arithmetic of
-- `rust_decimal`; `Postgres` has the statements that the event store sends and their documented
-- behaviour, with the constraint of migrations/007; `Serde` has the round trip of JSON; `Libraries`
-- of Auth has the password hashes and the encoding of tokens, that of Cache the statements of Redis,
-- that of Kafka the calls of rdkafka; `TokenLibraries` has the Redis of the tokens. The statements of
-- the users table and of the projections are modelled by their SQL, over a connection that may refuse
-- any of them; `Columns` has what the columns of the accounts' table make of a row, such as the rounding
-- of DECIMAL(20,2), and the insert of transactions is refused as PostgreSQL refuses it for the table of
-- migrations/003. Each interface has an instance that the runs use (Decimal/Cents, EventStore/Memory and
-- the modules of Tests). Isolation between transactions is not modelled: one batch runs at a time.
-- The retries of the insert are the fuel of `insert_loop`, three as in the source, and those of a
-- cache update that of `retry_cache_update`, three too, so these loops end by their own counts.
-- `process_dlq` and the loop of the event processor run for ever in the source; here they take a list
-- of turns.
--
-- Not modelled: the validators of requests and `process_request`, the Redis clients and their pipeline,
-- the distributed lock, the monitoring of Kafka, the web layer, snapshots and reports, rebalancing and
-- scaling, whose rules compute with floating point, and the vendored libraries.
pub mod Prelude
pub mod Decimal
pub mod Domain
pub mod EventStore
pub mod Application
pub mod AccountRepository
pub mod Redis
pub mod Limits
pub mod Sharding
pub mod Projections
pub mod Cache
pub mod Auth
pub mod Kafka
pub mod Tests
