-- ===== src/Redis/Tests.antt =====
-- Redis locks on a concrete server.
use x_ailock.Base.{
  ℤ, pos, String, true, false, none, some, [], ◌∷◌, ◌≡◌, ◌≢◌, refl, ◌⊎◌, inl, arith, eq_iff, ℕ, suc,
  ◌+◌, pos_part, int_laws,
}
use x_ailock.Errors.{GoError, nil, lock, wrap_network_error}
use x_ailock.Config.{LockConfig, apply_lock_options, with_value}
use x_ailock.Redis.Server.{eval, replied, reply_lost}
use x_ailock.Redis.Client.{Surroundings}
use x_ailock.Retry.{new_retry_config_from_lock_options}
use x_ailock.Retry.Settled.{Settled}
use x_ailock.Interface.Contract.{IsHonest}
use x_ailock.Redis.Simple.Methods.{redis_simple_lock}
use x_ailock.Redis.Simple.Honest as Honest
use x_ailock.Redis.Simple.Honest.{redis_simple_lock-IsHonest}
use x_ailock.Redis.Simple.Blocking.{retry_world, IsNetworkError, lock_simple, lock_simple-holds}
use x_ailock.Redis.Toy.{Store, empty, put, tally, toy}
use x_ailock.Redis.Simple as Simple
use x_ailock.Redis.Simple.{RedisSimpleLock}
use x_ailock.Redis.Simple.Exclusion as SimpleExclusion
use x_ailock.Redis.Simple.Exclusion.{foreign_requests_harmless}
use x_ailock.Redis.Simple.Handle.{try_lock-unlock, lost_reply_recovers}
use x_ailock.Redis.ReadWrite.{RedisRwLock, read_key, write_key, try_rlock, runlock, get_read_count}
use x_ailock.Redis.ReadWrite.Exclusion.{
  reads, writes, read_ends, write_ends, passes, happen_all, IsApart, happen_all-IsApart,
}
use x_ailock.Redis.ReadWrite.Count.{HasReaders, try_rlock-runlock}

abbrev config_for : String → ℤ → LockConfig
config_for v ttl = record {
  acquire_timeout = pos 10_000_000_000;
  lock_ttl = ttl;
  enable_watchdog = false;
  watchdog_interval = pos 10_000_000_000;
  retry_interval = pos 100_000_000;
  value = v;
  queue_ttl = pos 300_000_000_000;
}

abbrev pub whole : LockConfig
whole = config_for "mine" (pos 30_000_000_000)

abbrev pub newcomer : LockConfig
newcomer = config_for "new" (pos 30_000_000_000)

abbrev pub mine : String
mine = "mine"

pub mine_differs : mine ≢ "theirs"
mine_differs e = ground (arith, e, eq_iff "mine" "theirs")

abbrev simple : RedisSimpleLock
simple = record { key = "orders"; held_value = "" }

-- The key of the lock holds "theirs".
abbrev pub held : Store
held = put "orders" "theirs" empty

foreign_requests_harmless_example :
    toy.get "orders" (
      SimpleExclusion.perform_all toy
        (SimpleExclusion.acquires "orders" "mine" (some (pos 30))
          ∷ SimpleExclusion.releases "orders" "mine"
          ∷ SimpleExclusion.extends "orders" "mine" none
          ∷ [])
        held)
    ≡ some "theirs"
foreign_requests_harmless_example =
    foreign_requests_harmless toy "orders" "theirs"
      (SimpleExclusion.acquires "orders" "mine" (some (pos 30))
        ∷ SimpleExclusion.releases "orders" "mine"
        ∷ SimpleExclusion.extends "orders" "mine" none
        ∷ [])
      held refl (tt, (mine_differs, (mine_differs, tt)))

try_lock-unlock_example :
    let (l', s', success, err) = Simple.try_lock toy replied whole simple empty in
    (err ≡ nil)
    × (((toy.get "orders" empty ≡ none)
          × (success ≡ true)
          × (toy.get "orders" s' ≡ some "mine")
          × ((Simple.unlock toy replied l' s').1 ≡ nil)
          × (toy.get "orders" (Simple.unlock toy replied l' s').0 ≡ none))
        ⊎ ((toy.get "orders" empty ≢ none) × (success ≡ false) × (s' ≡ empty)))
try_lock-unlock_example = try_lock-unlock toy whole 30 simple empty (omega arith) refl

lost_reply_recovers_example :
    let (l', s', success, err) = Simple.try_lock toy (reply_lost nil) whole simple empty in
    (success ≡ false)
    × (err ≡ lock (wrap_network_error nil "acquire_lock"))
    × (toy.get "orders" s' ≡ some "mine")
    × ((Simple.unlock toy replied l' s').1 ≡ nil)
    × (toy.get "orders" (Simple.unlock toy replied l' s').0 ≡ none)
lost_reply_recovers_example =
    lost_reply_recovers toy nil whole 30 simple empty (omega arith) refl refl

abbrev read_write : RedisRwLock
read_write = record { key = "orders"; write_value = "" }

-- A reader, a writer in vain, a reader that leaves, and a writer.
happen_all-IsApart_example : IsApart toy read_write (
    happen_all toy read_write
      (reads (some (pos 30))
        ∷ writes (some (pos 30)) "mine"
        ∷ passes 5
        ∷ read_ends
        ∷ writes (some (pos 30)) "mine"
        ∷ write_ends "mine"
        ∷ [])
      empty)
happen_all-IsApart_example =
    happen_all-IsApart toy read_write
      (reads (some (pos 30))
        ∷ writes (some (pos 30)) "mine"
        ∷ passes 5
        ∷ read_ends
        ∷ writes (some (pos 30)) "mine"
        ∷ write_ends "mine"
        ∷ [])
      empty (inl refl)

-- Two readers are inside.
abbrev two_readers : Store
two_readers = put "orders:read" (tally 2) empty

try_rlock-runlock_example :
    let (s', success, err) = try_rlock toy replied whole read_write two_readers in
    (success ≡ true)
    × (err ≡ nil)
    × (get_read_count toy replied read_write s' ≡ (3, nil))
    × ((runlock toy replied read_write s').1 ≡ nil)
    × HasReaders toy read_write 2 (runlock toy replied read_write s').0
unfolding read_key write_key
try_rlock-runlock_example =
    try_rlock-runlock toy read_write whole 2 30 two_readers (omega arith) (omega arith) refl refl
      refl

-- Every request arrives and takes a nanosecond.
abbrev pub calm : Surroundings toy
calm = record {
  W = Store × ℕ;
  server = λ w. w.0;
  now = λ w. pos w.1;
  send = λ f w. (let (s, a) = eval replied f w.0 in ((s, w.1 + 1), a));
  sleep = λ d w. (w.0, w.1 + pos_part d);
  sleep_lasts = λ d w. omega int_laws;
  send_forward = λ f w. omega int_laws;
  send_delivers = λ f w. (replied, refl, refl);
}

lock_simple-holds_example :
    (t : String × (Store × ℕ)) × (err : GoError) × (lock_simple toy calm
        (λ w. nil)
        (λ w. "host-1")
        (suc
          (suc (pos_part (apply_lock_options "host-1" (with_value "mine" ∷ [])).acquire_timeout)))
        "orders"
        (with_value "mine" ∷ [])
        ("", (held, 0))
      ≡ some (t, err))
    × Settled
        (retry_world toy calm (λ w. nil) (λ w. "host-1"))
        (new_retry_config_from_lock_options "orders" "host-1" (with_value "mine" ∷ []))
        (λ t. toy.get "orders" (calm.server t.1) ≡ some t.0)
        (IsNetworkError "acquire_lock")
        (pos 0)
        t
        err
unfolding apply_lock_options with_value
lock_simple-holds_example =
    lock_simple-holds toy calm (λ w. nil) (λ w. "host-1") "orders" (with_value "mine" ∷ [])
      ("", (held, 0)) (omega arith)

redis_simple_lock-IsHonest_example :
    IsHonest
      (Honest.Usable toy calm (λ w. nil) (λ w. "host-1") "orders")
      (Honest.Held toy calm (λ w. nil) (λ w. "host-1") "orders")
      (Honest.Locked toy calm (λ w. nil) (λ w. "host-1") "orders")
      (λ s t. ¬ (Honest.Locked toy calm (λ w. nil) (λ w. "host-1") "orders" t))
      (pos 1)
      "orders"
      (redis_simple_lock toy calm (λ w. nil) (λ w. "host-1") "orders")
redis_simple_lock-IsHonest_example =
    redis_simple_lock-IsHonest toy calm (λ w. nil) (λ w. "host-1") "orders"
