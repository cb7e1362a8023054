-- ===== src/Lib.antt =====
-- xailock: a model of a lock library for Go, with locks in the process and locks in Redis.
--
-- A client asks for a lock of a key: simple, read-write or fair. A blocking `Lock` is a retry loop over
-- `TryLock`. In the process the locks are objects that managers hold in sharded tables.
--
-- lock.go: `Errors` has `LockError` and the helpers on error chains, `Config` the options and
--   `LockConfig`, `Retry` the retry loop.
-- sharded_lock.go: `Shard.Lock` has the lock object and the methods of every kind, `Shard.ReadWrite`
--   and `Shard.Fair` those of the two other kinds, `Shard.Index` the number of shards and the choice of
--   one, `Shard.Manager` the tables, reference counts and pools, its children `Sound` what every history
--   of them keeps and when a key keeps its object, `Collecting` what a cleanup takes away,
--   `Race` a cleanup in the middle of a release, and `Background` its goroutine and `Close`, `Shard.Blocking` the retry loops.
-- local_simple.go, local_rw.go, local_fair.go: the handles, which pass most calls on; what they add is
--   in `Shard.Manager`, `Shard.ReadWrite` and `Shard.Fair`; `Shard.Handles` has them as implementations
--   of the interfaces.
-- The interfaces `Lock`, `RWLock` and `FairLock` of lock.go are in `Interface`, whose child `Calls` has
--   what a client may call, and `Contract` what an implementation promises; the modules `Honest` of the
--   handles, in `Shard.Handles` and `Redis`, are about these promises, and `Factory.Layers` about metrics and
--   watchdogs around a lock. The back ends, the factories and the global managers are in `Factory`.
-- A function has the source's name in the style of the library: `TryRLockRW` is `try_rlock`.
--
-- redis_scripts.go: `Redis.Server` is the interface of a Redis server, `Redis.Scripts` the Lua scripts.
-- redis_simple.go, redis_rw.go, redis_fair.go: `Redis.Simple`, `Redis.ReadWrite` and `Redis.Fair`, the
--   handles over the scripts; their children `Methods` have them as implementations of the interfaces.
-- watchdog.go: `Watchdog` has the state of a watchdog and what may happen to it, `Watchdog.Manager` the
--   map from keys to watchdogs, `Watchdog.Guarded` a lock with its watchdog;
--   `Factory.Guarded` has the constructors of lock.go for these.
-- metrics.go: `Metrics` has the counters, `Metrics.Recording` their histories, `Metrics.Snapshot` what
--   GetStats gives, `Metrics.Floating` what is a float64, and `Metrics.Global` the
--   global metrics. metrics_wrapper.go: `Metrics.Wrapper` and its children `ReadWrite` and `Fair`.
--
-- Conventions. Durations and instants are integers of nanoseconds (`ℤ`); the clock is read by the
-- caller, and the instants that a method reads are its first arguments. A method that runs under a mutex
-- is one step from state to state. Texts are native strings. An int32 or a uint32 is a number below 2^32
-- with its wrap-around written out. Go's `error` is `GoError`, with `nil`.
--
-- Fuel. The retry loop takes fuel for its turns: the timeout in nanoseconds plus two is enough for a
-- positive retry interval, and for the loop of the fair Redis lock. The doubling loop of the shard
-- count takes 32 for up to 2^31 shards.
--
-- Outside the package: the context and the clock of the retry loop are the record `World`; whether a
-- sync.Pool serves an object again is an argument; a Redis server is the record `Redis`, whose laws state
-- what Redis documents of the commands, and what becomes of a request is a `Delivery`; the clock and the
-- client of a blocking Redis lock, and the clock and the other goroutines around a local lock, are the two
-- records `Surroundings`; the clock and the number of goroutines that a metrics wrapper reads are the record
-- `Runtime`; what an extension by a watchdog returns is an argument, unless its lock is at hand. Not
-- modelled: timestamps of errors, which nothing reads; the text of a configuration; the random part of a
-- generated value, which is an argument; the arithmetic of float64, which
-- is a parameter of `Metrics.Floating`; and functions that only call a global instance.
--
-- Interleavings. A local object is used under its mutex, but a cleanup of its manager resets it without: the
-- surroundings of a call are those in which none does so while the call has the mutex. A release is
-- modelled whole and in its parts, a cleanup whole and shard by shard. `Start` and `Stop` of a watchdog, and
-- the calls that record a metric or reset the metrics, are one step each, though no mutex makes them so:
-- their histories are those of calls that do not overlap. No other client changes the server during a
-- request, and go-redis sends it once. The seconds of a TTL are exact, as those of the float64
-- `Duration.Seconds()` are for TTLs up to some months.
mod Base
pub mod Interface
pub mod Factory
pub mod Redis
pub mod Watchdog
pub mod Metrics
pub mod Errors
pub mod Config
pub mod Retry
pub mod Shard
