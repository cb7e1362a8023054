-- ===== src/Redis/Fair/Honest.antt =====
-- The Redis fair lock keeps the promises of the interface Lock.
use mathlib.Core.Option
use x_ailock.Base.{
  ℤ, pos, negsuc, ◌≤ℤ◌, ◌<ℤ◌, eq_ℤ, quot_ℤ, String, true, false, none, some, List, ◌≡◌, refl, sym,
  ◌∙◌, ap, eq_refl, inl, inr, arith, str_eq,
}
use x_ailock.Errors.{nil}
use x_ailock.Config.{LockOption, apply_lock_options}
use x_ailock.Interface.Calls.{fair_as_lock}
use x_ailock.Interface.Contract.{Returns, IsHonest, IfTrue, IfFalse}
use x_ailock.Redis.Server.{Redis, is_some, seconds}
use x_ailock.Redis.Client.{Surroundings}
use x_ailock.Redis.Client.Delivered.{sent-value, Evaluated-cases}
use x_ailock.Redis.Scripts.{fair_lock_release, fair_lock_extend, fair_lock_status}
use x_ailock.Redis.Simple.{replied_one, released}
use x_ailock.Redis.Simple.Told.{released-holds, replied-holds}
use x_ailock.Redis.Fair.{new_redis_fair_lock, lock_ttl_of, queue_ttl_of, FairStatus, status_locked}
use x_ailock.Redis.Fair.Keys.{queue_key-ne-key}
use x_ailock.Redis.Fair.Holder.{fair_try_one}
use x_ailock.Redis.Fair.Waiting.{acquired, failed, timed_out, lock_fair-FairEnded}
use x_ailock.Redis.Fair.Methods.{queue_key, try_script, redis_fair_lock}

whole_milliseconds : (d : ℤ) → pos 1_000_000 ≤ℤ d → pos 0 <ℤ quot_ℤ d 1_000_000
unfolding quot_ℤ
whole_milliseconds (pos n) h = omega (arith, h)
whole_milliseconds (negsuc n) h = absurd (omega (arith, h))

fair_apart : (key : String) → str_eq (new_redis_fair_lock key).queue_key key ≡ false
unfolding new_redis_fair_lock
fair_apart key = queue_key-ne-key key

module _ (r : Redis) (u : Surroundings r) where
  open r use {State, get}
  open u use {W, server, send}

  release_gone :
      (k qk v : String) (n : ℤ) (s : State)
      → (fair_lock_release r k qk v s).1 ≡ some n
      → eq_ℤ n (pos 0) ≡ false
      → get k (fair_lock_release r k qk v s).0 ≡ none
  unfolding fair_lock_release
  release_gone k qk v n s e f =
      ground (arith, r.get-lrem qk k v (r.del k s), r.get-del k k s, eq_refl k)

  extend_kept :
      (k v : String) (ttl : ℤ) (s : State)
      → pos 1_000_000 ≤ℤ ttl
      → (fair_lock_extend r k v (quot_ℤ ttl 1_000_000) s).1 ≡ some (pos 1)
      → is_some (get k (fair_lock_extend r k v (quot_ℤ ttl 1_000_000) s).0) ≡ true
  unfolding fair_lock_extend
  extend_kept k v ttl s h e = ground (
    arith,
    r.pexpire_accepted k (quot_ℤ ttl 1_000_000) s (whole_milliseconds ttl h),
    r.exists-get k s,
  )

  status_told :
      (k qk : String) (t : FairStatus) (s : State)
      → (fair_lock_status r k qk none s).1 ≡ some t
      → ((fair_lock_status r k qk none s).0 ≡ s) × (eq_ℤ t.0 (pos 1) ≡ is_some (get k s))
  unfolding fair_lock_status
  status_told k qk t s e = ground (arith, r.exists-get k s)

  module _ (unique : W → String) (key : String) where
    -- A timeout, positive or not, is enough for `Lock`.
    abbrev pub Usable : List LockOption → String × W → Type 0
    Usable opts s = Unit {0}

    -- The key holds the value that the handle keeps; the key exists.
    abbrev pub Held : List LockOption → String × W → Type 0
    Held opts s = get key (server s.1) ≡ some s.0

    abbrev pub Locked : String × W → Type 0
    Locked s = is_some (get key (server s.1)) ≡ true

    fair_locks :
        (opts : List LockOption) (s : String × W)
        → Usable opts s
        → Returns ((redis_fair_lock r u unique key).lock opts) (λ t err. err ≡ nil → Held opts t) s
    unfolding redis_fair_lock new_redis_fair_lock
    fair_locks opts (held, w) i =
        let config = apply_lock_options (unique w) opts in
        let (t, err, deadline, later, e, ended) =
          lock_fair-FairEnded r u config (new_redis_fair_lock key) w (queue_key-ne-key key) in
        (
          (config.value, t),
          err,
          ap (Option.map (λ p. ((config.value, p.0), p.1))) e,
          elim ended [
            | acquired n q ↦ λ z. q
            | failed cause operation q ↦ λ z. absurd (ground (arith, q, z))
            | timed_out before q late last left ↦ λ z. absurd (ground (arith, q, z))
          ],
        )

    fair_tells :
        (s : String × W)
        → Returns
            (redis_fair_lock r u unique key).is_locked
            (λ t a. IfTrue (Locked t) a × IfFalse (¬ (Locked t)) a)
            s
    unfolding redis_fair_lock
    fair_tells (v, w) =
        let script = fair_lock_status r key (queue_key r u unique key) none in
        (
          (v, (send script w).0),
          status_locked (send script w).1,
          refl,
          elim (Evaluated-cases (send script w).1) [
            | inl (t, e) ↦
                let (ran, reply) = sent-value r u script w t e in
                let (same, told) = status_told key (queue_key r u unique key) t (server w) reply in
                rw (e, ran, same) ((λ n b. sym told ∙ b), (λ n b l. ground (arith, told, b, l)))
            | inr (x, e) ↦
                rw e ((λ n b. absurd (ground (arith, b))), (λ n b l. absurd (ground (arith, n))))
          ],
        )

    -- The Redis fair lock, whatever becomes of its requests, keeps the promises of a `Lock`: `Lock` returns
    -- under any options, and so does every other method; a success of `Lock` or `TryLock` means that the key
    -- holds the value of the handle; an `Unlock` without an error leaves no key; `IsLocked` tells the truth of
    -- the key, and so does an extension that succeeds, if it is by at least a millisecond.
    pub redis_fair_lock-IsHonest :
        IsHonest Usable Held Locked
          (λ s t. ¬ (Locked t))
          (pos 1_000_000)
          key
          (fair_as_lock (redis_fair_lock r u unique key))
    unfolding redis_fair_lock
    redis_fair_lock-IsHonest =
        let qk = queue_key r u unique key in
        record {
          locks = fair_locks;
          tries = λ opts (v, w).
              let config = apply_lock_options (unique w) opts in
              let script = try_script r u unique key config in
              (
                (config.value, (send script w).0),
                replied_one "try_acquire_fair_lock" (send script w).1,
                refl,
                replied-holds r u script (λ t. get key t ≡ some config.value)
                    "try_acquire_fair_lock" w
                    (fair_try_one r key qk (fair_apart key) config.value
                      (seconds (lock_ttl_of config)) (seconds (queue_ttl_of config)) (server w)),
              );
          frees = λ (v, w).
              let script = fair_lock_release r key qk v in
              (
                (v, (send script w).0),
                released key "fair_lock_unlock" (send script w).1,
                refl,
                λ z l. ground (
                  arith,
                  released-holds r u script (λ t. get key t ≡ none) key "fair_lock_unlock" w
                      (λ n. release_gone key qk v n (server w)) z,
                  l,
                ),
              );
          extends = λ ttl (v, w) h.
              let script = fair_lock_extend r key v (quot_ℤ ttl 1_000_000) in
              (
                (v, (send script w).0),
                replied_one "fair_lock_extend" (send script w).1,
                refl,
                replied-holds r u script (λ t. is_some (get key t) ≡ true) "fair_lock_extend" w
                    (extend_kept key v ttl (server w) h),
              );
          tells = fair_tells;
          measures = λ (v, w). ((v, (send (fair_lock_status r key qk none) w).0), _, refl, tt);
          names = λ s. (s, key, refl, refl);
          values = λ s. (s, s.0, refl, tt);
        }
