-- ===== src/Redis/Simple/Methods.antt =====
-- redis_simple.go, `redisSimpleLock` as an implementation of `Lock`. The state is the value that the
-- handle keeps and the world; each method makes one call of `Eval`, through the client. A blocking call
-- gets the fuel that it needs.
use x_ailock.Base.{suc, pos_part, String, some}
use x_ailock.Errors.{GoError}
use x_ailock.Config.{apply_lock_options}
use x_ailock.Interface.{Lock}
use x_ailock.Redis.Server.{Redis, seconds}
use x_ailock.Redis.Scripts.{simple_lock_release, simple_lock_extend, simple_lock_status}
use x_ailock.Redis.Simple.{replied_one, released, status_locked, status_ttl}
use x_ailock.Redis.Simple.Blocking.{attempt, lock_simple}
use x_ailock.Redis.Client.{Surroundings}

module _ (r : Redis) (u : Surroundings r) (cancelled : u.W → GoError) (unique : u.W → String)
    (key : String) where
  open u use {W, send}

  unfoldable pub redis_simple_lock : Lock (String × W)
  unfolding attempt lock_simple
  redis_simple_lock = record {
    lock = λ opts s.
        lock_simple r u cancelled unique
          (suc (suc (pos_part (apply_lock_options (unique s.1) opts).acquire_timeout))) key opts s;
    try_lock = λ opts s. some (attempt r u cancelled unique key opts s);
    unlock = λ (held, w).
        let (w', answer) = send (simple_lock_release r key held) w in
        some ((held, w'), released key "unlock" answer);
    extend = λ ttl (held, w).
        let (w', answer) = send (simple_lock_extend r key held (seconds ttl)) w in
        some ((held, w'), replied_one "extend" answer);
    is_locked = λ (held, w).
        let (w', answer) = send (simple_lock_status r key) w in
        some ((held, w'), status_locked answer);
    get_ttl = λ (held, w).
        let (w', answer) = send (simple_lock_status r key) w in
        some ((held, w'), status_ttl key answer);
    get_key = λ s. some (s, key);
    get_value = λ (held, w). some ((held, w), held);
  }
