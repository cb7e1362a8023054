-- ===== src/Watchdog/Guarded/Stray.antt =====
-- The watchdog of a local lock after the `Unlock` of its owner.
use x_ailock.Base.{◌==◌, ◌+ℤ◌, true, false, some, ◌≡◌, refl, arith, ap, ◌∙◌}
use x_ailock.Errors.{GoError, nil}
use x_ailock.Shard.Lock.{unlock}
use x_ailock.Shard.Lock.Holding.{extend_held}
use x_ailock.Shard.Manager.{write}
use x_ailock.Shard.Surroundings.{Surroundings}
use x_ailock.Shard.Handles.{Handle, local_simple_lock, acts}
use x_ailock.Shard.Handles.Honest.{unlocks_by-Returns, unlock-Opens}
use x_ailock.Watchdog.{WatchdogImpl, perform_extend}
use x_ailock.Watchdog.Guarded.{guarded_lock, on_lock, ticks}

module _ {T : Type 0} (u : Surroundings T) (h : Handle) where
  open u use {W, manager, now, meets}

  -- The `Unlock` of a local lock with a watchdog leaves the watchdog as it was. If it runs on, and somebody
  -- else holds the object when its next tick gets the mutex, then the tick succeeds: the lease of that
  -- other holder, whoever it is and however little of it was left, now lasts for the TTL of the watchdog.
  pub stray_tick_extends :
      (w later : W) (d : WatchdogImpl)
      → ((manager (meets later)).object h.object).unlocked ≡ false
      → let l = local_simple_lock u h in
        ((s : W) × (err : GoError) × ((guarded_lock l).unlock (w, d) ≡ some ((s, d), err)))
        × ((s : W) × (ticks l now (later, d)
              ≡ some ((s, perform_extend (now s) true nil d), (true, nil)))
            × (((manager s).object h.object).value
                ≡ ((manager (meets later)).object h.object).value)
            × (((manager s).object h.object).unlocked ≡ false)
            × (((manager s).object h.object).expire_at ≡ now (meets later) +ℤ d.ttl))
  unfolding guarded_lock on_lock ticks local_simple_lock acts
  stray_tick_extends w later d held =
      let taken = meets later in
      let l = (manager taken).object h.object in
      let l' = record l { ttl = d.ttl; expire_at = now taken +ℤ d.ttl } in
      let s = u.put (write h.object l' (manager taken)) taken in
      let itself : (h.object == h.object) ≡ true = ground arith in
      let kept : (manager s).object h.object ≡ l' =
        rw (u.manager_put (write h.object l' (manager taken)) taken, itself) refl in
      (
        let (s, err, e, _) = unlocks_by-Returns u h unlock unlock-Opens w in (s, err, rw e refl),
        (
          s,
          rw (ticks, local_simple_lock, acts, extend_held (now taken) d.ttl l held) refl,
          ap (λ x. x.value) kept,
          ap (λ x. x.unlocked) kept ∙ held,
          ap (λ x. x.expire_at) kept,
        ),
      )
