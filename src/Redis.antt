-- ===== src/Redis.antt =====
-- redis_scripts.go, redis_simple.go, redis_rw.go and redis_fair.go. `Server` is what the package relies
-- on of Redis and of the client; `Scripts` are the Lua scripts over it; `Simple`, `ReadWrite` and `Fair`
-- are the locks, whose children prove what they do.
pub mod Server
pub mod Expiry
pub mod Client
pub mod Scripts
pub mod Simple
pub mod ReadWrite
pub mod Fair
mod Toy
mod Tests
mod FairTests
mod BlockingTests
