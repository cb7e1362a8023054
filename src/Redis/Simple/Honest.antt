-- ===== src/Redis/Simple/Honest.antt =====
-- The simple Redis lock keeps the promises of its interface.
use x_ailock.Base.{
  ℤ, pos, ◌<ℤ◌, ◌≤ℤ◌, eq_ℤ, String, true, false, some, List, ◌≡◌, refl, sym, ◌∙◌, eq_refl, inl, inr,
  arith,
}
use x_ailock.Errors.{GoError, nil}
use x_ailock.Config.{LockOption, apply_lock_options}
use x_ailock.Interface.Contract.{Returns, IsHonest, IfTrue, IfFalse}
use x_ailock.Retry.Settled.{succeeded, Settled-nil}
use x_ailock.Redis.Server.{Redis, seconds, is_some}
use x_ailock.Redis.Expiry.{seconds-cases}
use x_ailock.Redis.Client.{Surroundings}
use x_ailock.Redis.Client.Delivered.{sent-value, Evaluated-cases}
use x_ailock.Redis.Scripts.{simple_lock_release, simple_lock_extend, simple_lock_status}
use x_ailock.Redis.Simple.{replied_one, released, status_locked}
use x_ailock.Redis.Simple.Blocking.{attempt, attempt-holds, lock_simple-holds}
use x_ailock.Redis.Simple.Told.{released-holds, replied-holds}
use x_ailock.Redis.Simple.Methods.{redis_simple_lock}

module _ (r : Redis) (u : Surroundings r) where
  open r use {State, get}
  open u use {W, server, send}

  release_gone :
      (k v : String) (n : ℤ) (s : State)
      → (simple_lock_release r k v s).1 ≡ some n
      → eq_ℤ n (pos 0) ≡ false
      → is_some (get k (simple_lock_release r k v s).0) ≡ false
  unfolding simple_lock_release
  release_gone k v n s e f = ground (arith, r.get-del k k s, eq_refl k)

  extend_kept :
      (k v : String) (ttl : ℤ) (s : State)
      → pos 0 <ℤ ttl
      → (simple_lock_extend r k v (seconds ttl) s).1 ≡ some (pos 1)
      → is_some (get k (simple_lock_extend r k v (seconds ttl) s).0) ≡ true
  unfolding simple_lock_extend
  extend_kept k v ttl s h e = elim (seconds-cases ttl h) [
    | inl late ↦ ground (arith, late, r.expire_refused k s)
    | inr (m, q, p) ↦ ground (arith, q, r.expire_accepted k m s p, r.get-keep k k m s)
  ]

  status_told :
      (k : String) (t : ℤ × ℤ) (s : State)
      → (simple_lock_status r k s).1 ≡ some t
      → ((simple_lock_status r k s).0 ≡ s) × (eq_ℤ t.0 (pos 1) ≡ is_some (get k s))
  unfolding simple_lock_status
  status_told k t s e = ground (arith, r.exists-get k s)

  module _ (cancelled : W → GoError) (unique : W → String) (key : String) where
    abbrev pub Usable : List LockOption → String × W → Type 0
    Usable opts s = pos 0 <ℤ (apply_lock_options (unique s.1) opts).retry_interval

    -- The key holds the value that the handle keeps; the key exists.
    abbrev pub Held : List LockOption → String × W → Type 0
    Held opts s = get key (server s.1) ≡ some s.0

    abbrev pub Locked : String × W → Type 0
    Locked s = is_some (get key (server s.1)) ≡ true

    redis_locks :
        (opts : List LockOption) (s : String × W)
        → Usable opts s
        → Returns
            ((redis_simple_lock r u cancelled unique key).lock opts)
            (λ t err. err ≡ nil → Held opts t)
            s
    unfolding redis_simple_lock
    redis_locks opts s h =
        let (t, err, e, settled) = lock_simple-holds r u cancelled unique key opts s h in
        (t, err, e, Settled-nil settled)

    redis_frees :
        (s : String × W)
        → Returns
            (redis_simple_lock r u cancelled unique key).unlock
            (λ t err. err ≡ nil → ¬ (Locked t))
            s
    unfolding redis_simple_lock
    redis_frees (v, w) =
        let script = simple_lock_release r key v in
        (
          ((v, (send script w).0)),
          released key "unlock" (send script w).1,
          refl,
          λ z l. ground (
            arith,
            released-holds r u script (λ t. is_some (get key t) ≡ false) key "unlock" w
                (λ n. release_gone key v n (server w)) z,
            l,
          ),
        )

    redis_tells :
        (s : String × W)
        → Returns
            (redis_simple_lock r u cancelled unique key).is_locked
            (λ t a. IfTrue (Locked t) a × IfFalse (¬ (Locked t)) a)
            s
    unfolding redis_simple_lock
    redis_tells (v, w) =
        let script = simple_lock_status r key in
        (
          (v, (send script w).0),
          status_locked (send script w).1,
          refl,
          elim (Evaluated-cases (send script w).1) [
            | inl (t, e) ↦
                let (ran, reply) = sent-value r u script w t e in
                let (same, told) = status_told key t (server w) reply in
                rw (e, ran, same) ((λ n b. sym told ∙ b), (λ n b l. ground (arith, told, b, l)))
            | inr (x, e) ↦
                rw e ((λ n b. absurd (ground (arith, b))), (λ n b l. absurd (ground (arith, n))))
          ],
        )

    redis_extends :
        (ttl : ℤ) (s : String × W)
        → pos 1 ≤ℤ ttl
        → Returns
            ((redis_simple_lock r u cancelled unique key).extend ttl)
            (λ t a. IfTrue (Locked t) a)
            s
    unfolding redis_simple_lock
    redis_extends ttl (v, w) h =
        let script = simple_lock_extend r key v (seconds ttl) in
        (
          (v, (send script w).0),
          replied_one "extend" (send script w).1,
          refl,
          replied-holds r u script (λ t. is_some (get key t) ≡ true) "extend" w
              (extend_kept key v ttl (server w) (omega (arith, h))),
        )

    -- The simple Redis lock keeps the promises of a `Lock`, whatever becomes of its requests: with a positive
    -- retry interval `Lock` returns, and so does every other method; a success of `Lock` or `TryLock` means
    -- that the key holds the value of the handle; an `Unlock` without an error leaves no key; and `IsLocked`
    -- and an extension that succeeds tell the truth of the key.
    pub redis_simple_lock-IsHonest :
        IsHonest Usable Held Locked
          (λ s t. ¬ (Locked t))
          (pos 1)
          key
          (redis_simple_lock r u cancelled unique key)
    unfolding redis_simple_lock
    redis_simple_lock-IsHonest = record {
      locks = redis_locks;
      tries = λ opts s.
          let (t, (b, err)) = attempt r u cancelled unique key opts s in
          (
            t,
            (b, err),
            refl,
            λ z y.
                attempt-holds r u cancelled unique key opts s t
                  (succeeded (attempt r u cancelled unique key opts s) z y),
          );
      frees = redis_frees;
      extends = redis_extends;
      tells = redis_tells;
      measures = λ (v, w). ((v, (send (simple_lock_status r key) w).0), _, refl, tt);
      names = λ s. (s, key, refl, refl);
      values = λ s. (s, s.0, refl, tt);
    }
