-- ===== src/Redis/ReadWrite/Honest.antt =====
-- The Redis read-write lock keeps the promises of its interface.
use mathlib.Core.Option
use x_ailock.Base.{
  ℕ, ℤ, pos, ◌<ℤ◌, eq_ℤ, String, true, false, none, some, List, ◌≡◌, refl, sym, ◌∙◌, ap, eq_refl,
  inl, inr, arith, Option-cases,
}
use x_ailock.Errors.{GoError, nil}
use x_ailock.Config.{LockOption, apply_lock_options}
use x_ailock.Interface.Contract.{Returns, IsHonestRw, IsExclusiveRw, IfTrue, IfFalse}
use x_ailock.Retry.Settled.{succeeded, Settled-nil}
use x_ailock.Redis.Server.{Redis, is_some}
use x_ailock.Redis.Client.{Surroundings}
use x_ailock.Redis.Client.Delivered.{sent-value, Evaluated-cases}
use x_ailock.Redis.Scripts.{rw_lock_release_read, rw_lock_release_write, rw_lock_status}
use x_ailock.Redis.Simple.{released}
use x_ailock.Redis.Simple.Told.{released-holds}
use x_ailock.Redis.ReadWrite.{new_redis_rw_lock, read_key, write_key, status_count, status_written}
use x_ailock.Redis.ReadWrite.Blocking.{
  attempt_read, attempt_write, attempt_read-free, attempt_write-IsWriter, attempt_read-joined,
  attempt_write-entered, rlock-free, wlock-IsWriter,
}
use x_ailock.Redis.ReadWrite.Methods.{redis_rw_lock}

module _ (r : Redis) (u : Surroundings r) where
  open r use {State, get}
  open u use {W, server, send}

  write_gone :
      (k v : String) (n : ℤ) (s : State)
      → (rw_lock_release_write r k v s).1 ≡ some n
      → eq_ℤ n (pos 0) ≡ false
      → get k (rw_lock_release_write r k v s).0 ≡ none
  unfolding rw_lock_release_write
  write_gone k v n s e f = ground (arith, r.get-del k k s, eq_refl k)

  status_told :
      (k j : String) (n : ℕ) (locked : ℤ) (s : State)
      → (rw_lock_status r k j s).1 ≡ some (some (n, locked))
      → ((rw_lock_status r k j s).0 ≡ s)
        × (pos 0 <ℤ pos n → is_some (get k s) ≡ true)
        × (eq_ℤ locked (pos 1) ≡ is_some (get j s))
  unfolding rw_lock_status
  status_told k j n locked s e = elim (Option-cases (get k s)) [
    | inl missing ↦ ground (arith, missing, r.exists-get j s)
    | inr (t, there) ↦ elim (Option-cases (r.to_number t)) [
      | inl other ↦ ground (arith, there, other, r.exists-get j s)
      | inr (m, number) ↦ ground (arith, there, number, r.exists-get j s)
    ]
  ]

  module _ (cancelled : W → GoError) (unique : W → String) (key : String) where
    abbrev pub Usable : List LockOption → String × W → Type 0
    Usable opts s = pos 0 <ℤ (apply_lock_options (unique s.1) opts).retry_interval

    -- There are readers, or a writer.
    abbrev pub Reading : String × W → Type 0
    Reading s = is_some (get (read_key (new_redis_rw_lock key)) (server s.1)) ≡ true

    abbrev pub Writing : String × W → Type 0
    Writing s = is_some (get (write_key (new_redis_rw_lock key)) (server s.1)) ≡ true

    rw_frees :
        (s : String × W)
        → Returns
            (redis_rw_lock r u cancelled unique key).wunlock
            (λ t err. err ≡ nil → ¬ (Writing t))
            s
    unfolding redis_rw_lock
    rw_frees (v, w) =
        let script = rw_lock_release_write r (write_key (new_redis_rw_lock key)) v in
        (
          (v, (send script w).0),
          released key "release_write_lock" (send script w).1,
          refl,
          λ z l. ground (
            arith,
            released-holds r u script (λ t. get (write_key (new_redis_rw_lock key)) t ≡ none) key
                "release_write_lock" w
                (λ n. write_gone (write_key (new_redis_rw_lock key)) v n (server w)) z,
            l,
          ),
        )

    rw_counts :
        (s : String × W)
        → Returns
            (redis_rw_lock r u cancelled unique key).get_read_count
            (λ t a. pos 0 <ℤ a.0 → Reading t)
            s
    unfolding redis_rw_lock status_count
    rw_counts (v, w) =
        let l = new_redis_rw_lock key in
        let script = rw_lock_status r (read_key l) (write_key l) in
        (
          (v, (send script w).0),
          (pos (status_count (send script w).1).0, (status_count (send script w).1).1),
          refl,
          elim (Evaluated-cases (send script w).1) [
            | inl (none, e) ↦ λ more. absurd (ground (arith, e, more))
            | inl (some (n, locked), e) ↦
                let (ran, reply) = sent-value r u script w (some (n, locked)) e in
                let (same, reading, _) =
                  status_told (read_key l) (write_key l) n locked (server w) reply in
                λ more. rw (ran, same) (reading (rw (e, status_count) at more))
            | inr (x, e) ↦ λ more. absurd (ground (arith, e, more))
          ],
        )

    rw_tells :
        (s : String × W)
        → Returns
            (redis_rw_lock r u cancelled unique key).is_write_locked
            (λ t a. IfTrue (Writing t) a × IfFalse (¬ (Writing t)) a)
            s
    unfolding redis_rw_lock status_written
    rw_tells (v, w) =
        let l = new_redis_rw_lock key in
        let script = rw_lock_status r (read_key l) (write_key l) in
        (
          (v, (send script w).0),
          status_written (send script w).1,
          refl,
          elim (Evaluated-cases (send script w).1) [
            | inl (none, e) ↦
                ((λ n b. absurd (ground (arith, e, b))), (λ n b l. absurd (ground (arith, e, n))))
            | inl (some (n, locked), e) ↦
                let (ran, reply) = sent-value r u script w (some (n, locked)) e in
                let (same, _, told) =
                  status_told (read_key l) (write_key l) n locked (server w) reply in
                rw (e, ran, same) ((λ z b. sym told ∙ b), (λ z b l. ground (arith, told, b, l)))
            | inr (x, e) ↦
                ((λ n b. absurd (ground (arith, e, b))), (λ n b l. absurd (ground (arith, e, n))))
          ],
        )

    rw_reads :
        (opts : List LockOption) (s : String × W)
        → Usable opts s
        → Returns
            ((redis_rw_lock r u cancelled unique key).rlock opts)
            (λ t err. err ≡ nil → ¬ (Writing t))
            s
    unfolding redis_rw_lock
    rw_reads opts (v, w) h =
        let (t, err, e, settled) =
          rlock-free r u cancelled unique (new_redis_rw_lock key) opts w h in
        (
          (v, t),
          err,
          ap (Option.map (λ p. ((v, p.0), p.1))) e,
          λ z l. ground (arith, Settled-nil settled z, l),
        )

    rw_writes :
        (opts : List LockOption) (s : String × W)
        → Usable opts s
        → Returns
            ((redis_rw_lock r u cancelled unique key).wlock opts)
            (λ t err. err ≡ nil → Writing t × ¬ (Reading t))
            s
    unfolding redis_rw_lock
    rw_writes opts s h =
        let (t, err, e, settled) =
          wlock-IsWriter r u cancelled unique (new_redis_rw_lock key) opts s h in
        (
          t,
          err,
          e,
          λ z.
              (let (written, unread) = Settled-nil settled z in
                (ground (arith, written), λ l. ground (arith, unread, l))),
        )

    rw_joins :
        (opts : List LockOption) (s : String × W)
        → Returns
            ((redis_rw_lock r u cancelled unique key).try_rlock opts)
            (λ t a. IfTrue (¬ (Writing s)) a)
            s
    unfolding redis_rw_lock
    rw_joins opts (v, w) =
        let l = new_redis_rw_lock key in
        let tried = attempt_read r u cancelled unique l opts w in
        (
          (v, tried.0),
          tried.1,
          refl,
          λ z y x. ground (
            arith,
            attempt_read-joined r u cancelled unique l opts w tried.0 (succeeded tried z y),
            x,
          ),
        )

    rw_enters :
        (opts : List LockOption) (s : String × W)
        → Returns
            ((redis_rw_lock r u cancelled unique key).try_wlock opts)
            (λ t a. IfTrue (¬ (Reading s) × ¬ (Writing s)) a)
            s
    unfolding redis_rw_lock
    rw_enters opts s =
        let l = new_redis_rw_lock key in
        let tried = attempt_write r u cancelled unique l opts s in
        (
          tried.0,
          tried.1,
          refl,
          λ z y.
              (let (unread, unwritten) =
                  attempt_write-entered r u cancelled unique l opts s tried.0
                    (succeeded tried z y) in
                ((λ x. ground (arith, unread, x)), (λ x. ground (arith, unwritten, x)))),
        )

    -- The Redis read-write lock, whatever becomes of its requests, keeps the promises of an `RWLock`: with a
    -- positive retry interval `RLock` and `WLock` return, and so does every other method; `TryRLock`
    -- succeeds only where there was no writer, and `TryWLock` only where there was no reader and no writer; after
    -- a success of any call, a reader has no writer beside it, and a writer no reader; `WUnlock` without an error leaves no writer;
    -- `IsWriteLocked` is true, and a count above 0 means that there are readers.
    pub redis_rw_lock-IsHonestRw :
        IsHonestRw Usable Reading Writing key (redis_rw_lock r u cancelled unique key)
        × IsExclusiveRw Reading Writing (redis_rw_lock r u cancelled unique key)
    unfolding redis_rw_lock
    redis_rw_lock-IsHonestRw =
        let l = new_redis_rw_lock key in
        (
          record {
            reads = rw_reads;
            tries_read = λ opts (v, w).
                let tried = attempt_read r u cancelled unique l opts w in
                (
                  (v, tried.0),
                  tried.1,
                  refl,
                  λ z y x. ground (
                    arith,
                    attempt_read-free r u cancelled unique l opts w tried.0 (succeeded tried z y),
                    x,
                  ),
                );
            leaves = λ (v, w). ((v, (send (rw_lock_release_read r (read_key l)) w).0), _, refl, tt);
            writes = rw_writes;
            tries_write = λ opts s.
                let tried = attempt_write r u cancelled unique l opts s in
                (
                  tried.0,
                  tried.1,
                  refl,
                  λ z y.
                      (let (written, unread) =
                          attempt_write-IsWriter r u cancelled unique l opts s tried.0
                            (succeeded tried z y) in
                        (ground (arith, written), λ x. ground (arith, unread, x))),
                );
            frees = rw_frees;
            counts = rw_counts;
            tells = rw_tells;
            names = λ s. (s, key, refl, refl);
          },
          record { joins = rw_joins; enters = rw_enters },
        )
