-- ===== src/Redis/Fair/Methods.antt =====
-- redis_fair.go, `redisFairLock` as an implementation of `FairLock`. The state is the value of the last
-- call, which the handle keeps, and the world. A blocking call gets the fuel that it needs.
use mathlib.Core.Option
use x_ailock.Base.{ℤ, suc, pos, pos_part, quot_ℤ, String, none, some, List, []}
use x_ailock.Errors.{GoError, nil}
use x_ailock.Config.{LockConfig, apply_lock_options}
use x_ailock.Interface.{FairLock}
use x_ailock.Redis.Server.{Redis, Reply, Evaluated, value, fault, seconds}
use x_ailock.Redis.Scripts.{
  fair_lock_try_acquire, fair_lock_release, fair_lock_extend, fair_lock_status,
}
use x_ailock.Redis.Simple.{replied_one, released}
use x_ailock.Redis.Fair.{
  new_redis_fair_lock, lock_ttl_of, queue_ttl_of, acquire_timeout_of, lock_fair, status_locked,
  status_ttl, status_position, status_length,
}
use x_ailock.Redis.Client.{Surroundings}

-- The reply to LRANGE, whose error is passed on as it is.
abbrev pub listed : Evaluated (List String) → List String × GoError
listed (value q) = (q, nil)
listed (fault e) = ([], e)

module _ (r : Redis) (u : Surroundings r) (unique : u.W → String) (key : String) where
  open r use {State, list}
  open u use {W, send}

  abbrev pub queue_key : String
  queue_key = (new_redis_fair_lock key).queue_key

  abbrev pub try_script : LockConfig → State → Reply State ℤ
  try_script config =
      fair_lock_try_acquire r key queue_key config.value (seconds (lock_ttl_of config))
        (seconds (queue_ttl_of config))

  unfoldable pub redis_fair_lock : FairLock (String × W)
  unfolding lock_fair
  redis_fair_lock = record {
    lock = λ opts (held, w).
        let config = apply_lock_options (unique w) opts in
        Option.map (λ t. ((config.value, t.0), t.1))
          (lock_fair r u (suc (suc (pos_part (acquire_timeout_of config)))) config
            (new_redis_fair_lock key) w);
    try_lock = λ opts (held, w).
        let config = apply_lock_options (unique w) opts in
        let (w', answer) = send (try_script config) w in
        some ((config.value, w'), replied_one "try_acquire_fair_lock" answer);
    unlock = λ (held, w).
        let (w', answer) = send (fair_lock_release r key queue_key held) w in
        some ((held, w'), released key "fair_lock_unlock" answer);
    extend = λ ttl (held, w).
        let (w', answer) = send (fair_lock_extend r key held (quot_ℤ ttl 1_000_000)) w in
        some ((held, w'), replied_one "fair_lock_extend" answer);
    is_locked = λ (held, w).
        let (w', answer) = send (fair_lock_status r key queue_key none) w in
        some ((held, w'), status_locked answer);
    get_ttl = λ (held, w).
        let (w', answer) = send (fair_lock_status r key queue_key none) w in
        some ((held, w'), status_ttl key answer);
    get_queue_position = λ (held, w).
        let (w', answer) = send (fair_lock_status r key queue_key (some held)) w in
        some ((held, w'), status_position answer);
    get_queue_length = λ (held, w).
        let (w', answer) = send (fair_lock_status r key queue_key none) w in
        some ((held, w'), (pos (status_length answer).0, (status_length answer).1));
    get_queue_info = λ (held, w).
        let (w', answer) = send (λ s. (s, some (list queue_key s))) w in
        some ((held, w'), listed answer);
    get_key = λ s. some (s, key);
    get_value = λ (held, w). some ((held, w), held);
  }
