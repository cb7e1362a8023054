-- ===== src/Redis/BlockingTests.antt =====
-- The Redis read-write lock and the Redis fair lock on a concrete server.
use x_ailock.Base.{pos}
use x_ailock.Errors.{nil}
use x_ailock.Redis.Toy.{toy}
use x_ailock.Redis.Tests.{calm}
use x_ailock.Redis.ReadWrite.{RedisRwLock}
use x_ailock.Interface.Calls.{fair_as_lock}
use x_ailock.Interface.Contract.{IsHonest, IsHonestRw, IsExclusiveRw}
use x_ailock.Redis.Fair.Methods.{redis_fair_lock}
use x_ailock.Redis.Fair.Honest as FairHonest
use x_ailock.Redis.Fair.Honest.{redis_fair_lock-IsHonest}
use x_ailock.Redis.ReadWrite.Methods.{redis_rw_lock}
use x_ailock.Redis.ReadWrite.Honest as Honest
use x_ailock.Redis.ReadWrite.Honest.{redis_rw_lock-IsHonestRw}

abbrev orders : RedisRwLock
orders = record { key = "orders"; write_value = "" }

redis_rw_lock-IsHonestRw_example :
    IsHonestRw
      (Honest.Usable toy calm (λ w. nil) (λ w. "host-1") "orders")
      (Honest.Reading toy calm (λ w. nil) (λ w. "host-1") "orders")
      (Honest.Writing toy calm (λ w. nil) (λ w. "host-1") "orders")
      "orders"
      (redis_rw_lock toy calm (λ w. nil) (λ w. "host-1") "orders")
    × IsExclusiveRw
        (Honest.Reading toy calm (λ w. nil) (λ w. "host-1") "orders")
        (Honest.Writing toy calm (λ w. nil) (λ w. "host-1") "orders")
        (redis_rw_lock toy calm (λ w. nil) (λ w. "host-1") "orders")
redis_rw_lock-IsHonestRw_example =
    redis_rw_lock-IsHonestRw toy calm (λ w. nil) (λ w. "host-1") "orders"

redis_fair_lock-IsHonest_example :
    IsHonest
      (FairHonest.Usable toy calm (λ w. "host-1") "orders")
      (FairHonest.Held toy calm (λ w. "host-1") "orders")
      (FairHonest.Locked toy calm (λ w. "host-1") "orders")
      (λ s t. ¬ (FairHonest.Locked toy calm (λ w. "host-1") "orders" t))
      (pos 1_000_000)
      "orders"
      (fair_as_lock (redis_fair_lock toy calm (λ w. "host-1") "orders"))
redis_fair_lock-IsHonest_example = redis_fair_lock-IsHonest toy calm (λ w. "host-1") "orders"
