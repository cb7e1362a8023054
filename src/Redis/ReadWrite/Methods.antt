-- ===== src/Redis/ReadWrite/Methods.antt =====
-- redis_rw.go, `redisRWLock` as an implementation of `RWLock`. The state is the value of the last attempt
-- to write, which the handle keeps, and the world. A blocking call gets the fuel that it needs.
use mathlib.Core.Option
use x_ailock.Base.{ℕ, suc, pos, pos_part, String, some, List}
use x_ailock.Errors.{GoError}
use x_ailock.Config.{LockOption, apply_lock_options}
use x_ailock.Interface.{RwLock}
use x_ailock.Redis.Server.{Redis}
use x_ailock.Redis.Scripts.{rw_lock_release_read, rw_lock_release_write, rw_lock_status}
use x_ailock.Redis.Simple.{released}
use x_ailock.Redis.ReadWrite.{new_redis_rw_lock, read_key, write_key, status_count, status_written}
use x_ailock.Redis.ReadWrite.Blocking.{attempt_read, attempt_write, rlock, wlock}
use x_ailock.Redis.Client.{Surroundings}

module _ (r : Redis) (u : Surroundings r) (cancelled : u.W → GoError) (unique : u.W → String)
    (key : String) where
  open u use {W, send}

  -- Enough turns for the timeout of the options.
  abbrev pub enough : List LockOption → W → ℕ
  enough opts w = suc (suc (pos_part (apply_lock_options (unique w) opts).acquire_timeout))

  unfoldable pub redis_rw_lock : RwLock (String × W)
  unfolding rlock wlock attempt_read attempt_write
  redis_rw_lock = record {
    rlock = λ opts (kept, w).
        Option.map (λ t. ((kept, t.0), t.1))
          (rlock r u cancelled unique (new_redis_rw_lock key) opts (enough opts w) w);
    try_rlock = λ opts (kept, w).
        let (w', answer) = attempt_read r u cancelled unique (new_redis_rw_lock key) opts w in
        some ((kept, w'), answer);
    runlock = λ (kept, w).
        let (w', answer) = send (rw_lock_release_read r (read_key (new_redis_rw_lock key))) w in
        some ((kept, w'), released key "release_read_lock" answer);
    wlock = λ opts s. wlock r u cancelled unique (new_redis_rw_lock key) opts (enough opts s.1) s;
    try_wlock = λ opts s. some (attempt_write r u cancelled unique (new_redis_rw_lock key) opts s);
    wunlock = λ (kept, w).
        let (w', answer) =
          send (rw_lock_release_write r (write_key (new_redis_rw_lock key)) kept) w in
        some ((kept, w'), released key "release_write_lock" answer);
    get_read_count = λ (kept, w).
        let (w', answer) =
          send
            (rw_lock_status r (read_key (new_redis_rw_lock key))
              (write_key (new_redis_rw_lock key)))
            w in
        let (count, err) = status_count answer in some ((kept, w'), (pos count, err));
    is_write_locked = λ (kept, w).
        let (w', answer) =
          send
            (rw_lock_status r (read_key (new_redis_rw_lock key))
              (write_key (new_redis_rw_lock key)))
            w in
        some ((kept, w'), status_written answer);
    get_key = λ s. some (s, key);
  }
