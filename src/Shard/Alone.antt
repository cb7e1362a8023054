-- ===== src/Shard/Alone.antt =====
-- Concrete surroundings of the local locks: nobody else acts, or another goroutine does.
use x_ailock.Base.{ℕ, suc, ◌+◌, ◌==◌, pos, pos_part, false, ◌≡◌, [], refl, arith, int_laws}
use x_ailock.Errors.{nil}
use x_ailock.Shard.Manager.{ShardedLockManager, new_object, write, perform_cleanup}
use x_ailock.Config.{apply_lock_options}
use x_ailock.Shard.Lock.{try_lock}
use x_ailock.Shard.Surroundings.{Surroundings}

-- Each step takes a nanosecond.
abbrev pub alone : {T : Type 0} → Surroundings T
alone {T} = record {
  W = ShardedLockManager T × ℕ;
  manager = λ w. w.0;
  put = λ m w. (m, w.1);
  now = λ w. pos w.1;
  cancelled = λ w. nil;
  unique = λ w. "host-1";
  meets = λ w. (w.0, w.1 + 1);
  stays = λ p w. (w.0, w.1 + 1);
  sleep = λ d w. (w.0, w.1 + pos_part d);
  manager_put = λ m w. refl;
  now_put = λ m w. refl;
  meets_forward = λ w. omega int_laws;
  stays_forward = λ p w. omega int_laws;
  stays_keeps = λ p w. refl;
  sleep_lasts = λ d w. omega int_laws;
}

-- Another goroutine tries to lock an object, and has the manager clean up, before a call has its mutex;
-- while the call has it, the other locks the next object.
abbrev pub busy_with : {T : Type 0} → ℕ → ℕ → ShardedLockManager T → ShardedLockManager T
busy_with p n m =
    write p (try_lock (pos n) (pos n) (apply_lock_options "host-2" []) (m.object p)).0 m

abbrev pub crowded : {T : Type 0} → Surroundings T
crowded {T} = record {
  W = ShardedLockManager T × ℕ;
  manager = λ w. w.0;
  put = λ m w. (m, w.1);
  now = λ w. pos w.1;
  cancelled = λ w. nil;
  unique = λ w. "host-1";
  meets = λ w. (busy_with 0 w.1 (perform_cleanup (pos w.1) w.0), w.1 + 1);
  stays = λ p w. (busy_with (suc p) w.1 w.0, w.1 + 1);
  sleep = λ d w. (busy_with 0 w.1 w.0, w.1 + pos_part d);
  manager_put = λ m w. refl;
  now_put = λ m w. refl;
  meets_forward = λ w. omega int_laws;
  stays_forward = λ p w. omega int_laws;
  stays_keeps = λ p w. let other : (suc p == p) ≡ false = ground arith in rw other refl;
  sleep_lasts = λ d w. omega int_laws;
}

-- A manager with free objects only.
abbrev pub idle : {T : Type 0} → T → ShardedLockManager T
unfolding new_object
idle x = record {
  shards = λ i. record { locks = []; pool = [] };
  shard_count = 32;
  shard_mask = 31;
  object = λ p. new_object x;
  next = 1;
}
