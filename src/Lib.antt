-- ===== src/Lib.antt =====
-- bits-broker: a broker that takes jobs over HTTP, routes each through a tree of checks, transforms
-- and targets, queues its work before executors, and keeps enough in a store for another broker to
-- take a job over. Nested functions of one Rust function keep its name or the name of the part.
--
-- The parts, and the files that model them (paths from the root of the repository):
--   bits/src/request_id.rs               RequestId: ids of jobs, packed tags, base 32
--   bits/src/db/mod.rs, db/memory.rs     Store: the records, and the in-memory store
--   bits/src/actions/mod.rs, result.rs   Actions: actions, their results, the tree of routes
--   bits/src/routing/switch.rs           Routing: validation, dispatch, closing, description
--   bits/src/dispatcher/queue/           Queues: the FIFO, cost-weighted and age-priority queues
--   bits/src/runtime/submission.rs, runner.rs, maintenance.rs (one removal of the sweeper) and the
--   local half of bits/src/bits.rs, and
--   bits/src/job.rs                      Runtime: the table of jobs, its limit, polls, results, and
--                                        the presence of clients
--   bits/src/dispatcher/mod.rs           UserLimits: the ceiling of a user, the counts of one broker,
--                                        and in Brokers the admission over a store that brokers share
--   bits/src/dispatcher/mod.rs (the rest), and bits/src/dispatcher/executor/async_pool.rs and
--   thread_pool.rs                       Dispatcher: the pending map, the permits, the workers, close,
--                                        and in Choice which queue and executor a configuration gives
--   bits/src/config.rs                   Config: the limits of users and the settings of a dispatcher
--   bits/src/runtime/recovery.rs, bits.rs (poll)
--                                        Recovery: who owns a job that is not here, the poll that is
--                                        passed on to the owner, and the takeover
--   bits/src/dispatcher/executor/remote_pool.rs
--                                        RemotePool: the handlers that remote workers call, the jobs
--                                        they hold, and the reaper
--   bits/src/worker_server.rs            WorkerServer: the server that the pools share, their paths
--   bits/src/runtime/runner.rs, maintenance.rs and bits.rs (the deletions)
--                                        Durable: the record of one job, from its delayed write to
--                                        its deletion
--   bits/src/actions/registry.rs         Registry: the factories of actions, by name
--   bits/src/db/nats.rs                  NatsStore: the store on the buckets of JetStream: in Counter
--                                        the broker slots, in Jobs the claims, in Users the slots of
--                                        users
--   bits/src/error.rs                    Errors: the codes of errors, and which may be retried
-- Prelude holds what they share: Boolean tests, lists by native numbers, the results of fallible
-- code, and hash maps as association lists. An id from RequestId is part of the keys of Store;
-- Routing runs the actions of Actions; Runtime turns Routing's answers into the results that
-- clients poll; Recovery joins the table of Runtime, the ids of RequestId and the claims of Store;
-- the admission of UserLimits runs over the slots of Store. RemotePool is an executor of
-- Dispatcher: its steps are steps of the dispatcher, with the workers' own state beside it.
-- NatsStore is the same store over a service.
--
-- Conventions. A method under one lock is a function of the state. A future that is awaited is a
-- function of the world, in which everything is that other tasks may change; reading a flag of a
-- job is such a step too. Where threads interleave (the job count, the tasks of a dispatcher, the
-- workers of a remote pool, the tasks that hold a job's record, and brokers that race for one key
-- of a bucket), the steps are an indexed data type. A panic is a result of its own. Machine words
-- keep their wrap-around: u64 as `% 2 ^ 64`, u16 as `% 65536`; theorems whose counters must not
-- wrap say so. Loops run on a list or on the digits of a number. Three run on fuel: the root of a
-- cost, with one unit more than the value, the claims of a takeover, with six, and the slots on
-- NATS, with one when nobody interferes and the read is current, which their theorems show to be
-- enough. With interference or reads that are behind the loop on NATS has no bound in the code
-- either. A binary heap is the list of its entries in the order in which they are popped; hash
-- maps are walked in no order that a theorem depends on.
--
-- Parameters: the times of chrono with the laws of adding seconds (Chrono), JSON values, the
-- streams of results, the cost in a job's metadata, and in Surroundings the actions' world. A
-- dispatcher is an interface that routing calls; SlotStore and Broker are what admission and
-- recovery call: the shared store, HTTP, clocks, sleeps and waits. The listener and the routers of
-- the worker server are parameters, and so are the most permits of a semaphore, the start of an
-- executor's workers, and the bucket on NATS, with the laws of one key (NatsStore.Laws): its
-- writes are checked against the latest entry, but a replica that is behind may answer a read.
--
-- Not modelled: logs and metrics; the rest of the configuration, and what serde decodes; HTTP, its
-- servers and its clients; the store on TiKV, which is a client of a service, and on NATS the
-- leases, the scans of user slots and the set-up of buckets; the heartbeat of leases; the bindings
-- for Python.
pub mod Prelude
pub mod RequestId
pub mod Store
pub mod Actions
pub mod Routing
pub mod Queues
pub mod Runtime
pub mod UserLimits
pub mod Errors
pub mod Recovery
pub mod Config
pub mod Dispatcher
pub mod Durable
pub mod Registry
pub mod NatsStore
pub mod RemotePool
pub mod WorkerServer
