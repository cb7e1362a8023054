-- ===== src/Shard.antt =====
-- sharded_lock.go: the in-process locks. `Lock` is one lock object and the methods that every kind
-- shares, `ReadWrite` and `Fair` are the methods of those kinds; their children prove what they do.
-- An instant counts nanoseconds from Go's zero time. A method runs under the object's mutex, so it is
-- one step; the instants that it reads from the clock are its first arguments, in their order.
pub mod Lock
pub mod Index
pub mod ReadWrite
pub mod Fair
pub mod Manager
pub mod Surroundings
pub mod Alone
pub mod Blocking
pub mod Handles
mod Tests
