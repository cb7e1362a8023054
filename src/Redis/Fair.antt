-- ===== src/Redis/Fair.antt =====
-- redis_fair.go: the fair lock, a key and a queue of the values that wait. A handle keeps its keys and
-- the value of its last call. `Lock` is a loop over its `Surroundings`: the clock and a client whose
-- server other clients use too.
pub mod Keys
pub mod Steps
pub mod Queue
pub mod Order
pub mod Holder
pub mod Waiting
pub mod Methods
pub mod Honest
use Prim.Native.String.{◌++◌}
use x_ailock.Base.{
  ℕ, zero, suc, ℤ, pos, negsuc, ◌+ℤ◌, ◌*ℤ◌, ◌≤ℤ◌, eq_ℤ, ltb_ℤ, leb_ℤ, quot_ℤ, String, Bool, true,
  false, Option, none, some, List, if◌then◌else◌, ◌≡◌,
}
use x_ailock.Errors.{
  GoError, nil, lock, wrap_network_error, new_lock_not_found_error, new_acquire_timeout_error,
}
use x_ailock.Config.{LockConfig}
use x_ailock.Redis.Server.{Redis, Reply, Delivery, Evaluated, value, fault, eval, seconds}
use x_ailock.Redis.Client.{Surroundings}
use x_ailock.Redis.Scripts.{
  fair_lock_try_acquire, fair_lock_acquire, fair_lock_release, fair_lock_extend, fair_lock_status,
  fair_lock_cleanup,
}
use x_ailock.Redis.Simple.{replied_one, released}

pub record RedisFairLock : Type 0 where
  pub key : String
  pub queue_key : String
  pub held_value : String

unfoldable pub new_redis_fair_lock : String → RedisFairLock
new_redis_fair_lock key = record { key = key; queue_key = key ++ ":queue"; held_value = "" }

-- A duration of the configuration, or the method's own default.
unfoldable pub or_default : ℤ → ℤ → ℤ
or_default d duration = if leb_ℤ duration (pos 0) then d else duration

abbrev pub lock_ttl_of : LockConfig → ℤ
lock_ttl_of config = or_default (pos 30_000_000_000) config.lock_ttl

abbrev pub queue_ttl_of : LockConfig → ℤ
queue_ttl_of config = or_default (pos 300_000_000_000) config.queue_ttl

abbrev pub acquire_timeout_of : LockConfig → ℤ
acquire_timeout_of config = or_default (pos 10_000_000_000) config.acquire_timeout

-- What the status script replies with: whether the lock is held, its time to live in milliseconds, the
-- length of the queue and a position in it. It has four integers, so the last errors of the methods are not
-- reached.
abbrev pub FairStatus : Type 0
FairStatus = ℤ × ℤ × ℕ × ℤ

abbrev pub status_locked : Evaluated FairStatus → Bool × GoError
status_locked (value t) = (eq_ℤ t.0 (pos 1), nil)
status_locked (fault e) = (false, lock (wrap_network_error e "check_fair_lock_status"))

abbrev pub status_ttl : String → Evaluated FairStatus → ℤ × GoError
status_ttl key (value t) =
    if eq_ℤ t.0 (pos 0)
    then (pos 0, lock (new_lock_not_found_error key))
    else if ltb_ℤ t.1 (pos 0)
    then (negsuc 0, nil)
    else (t.1 *ℤ pos 1_000_000, nil)
status_ttl key (fault e) = (pos 0, lock (wrap_network_error e "get_fair_lock_ttl"))

abbrev pub status_position : Evaluated FairStatus → ℤ × GoError
status_position (value t) = (t.3, nil)
status_position (fault e) = (negsuc 0, lock (wrap_network_error e "get_queue_position"))

abbrev pub status_length : Evaluated FairStatus → ℕ × GoError
status_length (value t) = (t.2, nil)
status_length (fault e) = (0, lock (wrap_network_error e "get_queue_length"))

module _ (r : Redis) where
  open r use {State, list}

  unfoldable pub try_lock :
      Delivery → LockConfig → RedisFairLock → State → RedisFairLock × State × Bool × GoError
  try_lock d config l s =
      let (s', answer) =
        eval d
          (fair_lock_try_acquire r l.key l.queue_key config.value (seconds (lock_ttl_of config))
            (seconds (queue_ttl_of config)))
          s in
      let (success, err) = replied_one "try_acquire_fair_lock" answer in
      (record l { held_value = config.value }, s', success, err)

  unfoldable pub unlock : Delivery → RedisFairLock → State → State × GoError
  unlock d l s =
      let (s', answer) = eval d (fair_lock_release r l.key l.queue_key l.held_value) s in
      (s', released l.key "fair_lock_unlock" answer)

  unfoldable pub extend : Delivery → ℤ → RedisFairLock → State → State × Bool × GoError
  extend d ttl l s =
      let (s', answer) = eval d (fair_lock_extend r l.key l.held_value (quot_ℤ ttl 1_000_000)) s in
      let (success, err) = replied_one "fair_lock_extend" answer in (s', success, err)

  unfoldable pub is_locked : Delivery → RedisFairLock → State → Bool × GoError
  is_locked d l s = status_locked (eval d (fair_lock_status r l.key l.queue_key none) s).1

  unfoldable pub get_ttl : Delivery → RedisFairLock → State → ℤ × GoError
  get_ttl d l s = status_ttl l.key (eval d (fair_lock_status r l.key l.queue_key none) s).1

  unfoldable pub get_queue_position : Delivery → RedisFairLock → State → ℤ × GoError
  get_queue_position d l s =
      status_position (eval d (fair_lock_status r l.key l.queue_key (some l.held_value)) s).1

  unfoldable pub get_queue_length : Delivery → RedisFairLock → State → ℕ × GoError
  get_queue_length d l s = status_length (eval d (fair_lock_status r l.key l.queue_key none) s).1

  unfoldable pub get_queue_info : RedisFairLock → State → List String
  get_queue_info l s = list l.queue_key s

  module _ (u : Surroundings r) where
    open u use {W, now, send, sleep}

    -- The request that takes an entry off the queue, whose result `Lock` ignores.
    cleanup_request : RedisFairLock → State → Reply State ℤ
    cleanup_request l s = (fair_lock_cleanup r l.queue_key l.held_value s, some (pos 0))

    -- One turn of the loop returns, or sleeps.
    pub data Turn : Type 0 where
      done : W → GoError → Turn
      again : W → Turn

    -- The rest of a turn after a reply other than 1.
    check_deadline : ℤ → ℤ → RedisFairLock → W → Turn
    unfolding cleanup_request
    check_deadline deadline timeout l w =
        if ltb_ℤ deadline (now w)
        then done (send (cleanup_request l) w).0 (lock (new_acquire_timeout_error l.key timeout))
        else again (sleep (pos 50_000_000) w)

    wait_turn : ℤ → ℤ → ℤ → RedisFairLock → W → Turn
    unfolding check_deadline
    wait_turn deadline timeout ttl l w =
        let (w', answer) =
          send (fair_lock_acquire r l.key l.queue_key l.held_value (seconds ttl)) w in
        elim answer [
          | value n ↦ if eq_ℤ n (pos 1) then done w' nil else check_deadline deadline timeout l w'
          | fault e ↦ done w' (lock (wrap_network_error e "fair_lock_acquire_attempt"))
        ]

    wait_loop : ℕ → ℤ → ℤ → ℤ → RedisFairLock → W → Option (W × GoError)
    wait_loop zero deadline timeout ttl l w = none
    wait_loop (suc fuel) deadline timeout ttl l w = elim (wait_turn deadline timeout ttl l w) [
      | done w' e ↦ some (w', e)
      | again w' ↦ wait_loop fuel deadline timeout ttl l w'
    ]

    unfoldable pub retry_with_custom_logic :
        ℤ → (ℤ → W → Option (W × GoError)) → W → Option (W × GoError)
    retry_with_custom_logic timeout operation w = operation (now w +ℤ timeout) w

    unfoldable pub acquire_or_wait :
        ℕ → LockConfig → RedisFairLock → W → Evaluated ℤ → Option (W × GoError)
    unfolding retry_with_custom_logic wait_loop wait_turn
    acquire_or_wait fuel config l w (fault e) =
        some (w, lock (wrap_network_error e "fair_lock_initial_attempt"))
    acquire_or_wait fuel config l w (value n) =
        if eq_ℤ n (pos 1)
        then some (w, nil)
        else retry_with_custom_logic (acquire_timeout_of config)
            (λ deadline. wait_loop fuel deadline (acquire_timeout_of config) (lock_ttl_of config) l)
            w

    unfoldable pub lock_fair : ℕ → LockConfig → RedisFairLock → W → Option (W × GoError)
    unfolding acquire_or_wait
    lock_fair fuel config l w =
        let l' = record l { held_value = config.value } in
        let (w', answer) =
          send
            (fair_lock_try_acquire r l.key l.queue_key config.value (seconds (lock_ttl_of config))
              (seconds (queue_ttl_of config)))
            w in
        acquire_or_wait fuel config l' w' answer
