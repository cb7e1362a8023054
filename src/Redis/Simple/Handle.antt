-- ===== src/Redis/Simple/Handle.antt =====
-- The simple lock in Redis through its handle: round trips, and what a TTL with a fraction or a lost
-- reply does.
use x_ailock.Base.{
  ℕ, ◌*◌, ◌<◌, pos, true, false, none, some, ◌≡◌, ◌≢◌, refl, ◌⊎◌, inl, inr, arith, eq_iff, eq_refl,
  Option-cases,
}
use x_ailock.Errors.{GoError, nil, lock, wrap_network_error, new_lock_not_found_error}
use x_ailock.Config.{LockConfig}
use x_ailock.Redis.Expiry.{seconds_whole}
use x_ailock.Redis.Server.{Redis, replied, reply_lost, eval}
use x_ailock.Redis.Scripts.{simple_lock_release}
use x_ailock.Redis.Simple.{RedisSimpleLock, try_lock, unlock}
use x_ailock.Redis.Simple.Steps.{acquire_free, acquire_taken, release_own}

module _ (r : Redis) where
  open r use {State, get, put, del}

  -- With a TTL of whole seconds and a reply that arrives, a handle takes a free lock, and its `Unlock`
  -- frees it again; on a lock that is held, by whatever value, the attempt fails without an error and
  -- leaves the server as it was.
  pub try_lock-unlock :
      (config : LockConfig) (n : ℕ) (l : RedisSimpleLock) (s : State)
      → 0 < n
      → config.lock_ttl ≡ pos (n * 1_000_000_000)
      → let (l', s', success, err) = try_lock r replied config l s in
        (err ≡ nil)
        × (((get l.key s ≡ none)
              × (success ≡ true)
              × (get l.key s' ≡ some config.value)
              × ((unlock r replied l' s').1 ≡ nil)
              × (get l.key (unlock r replied l' s').0 ≡ none))
            ⊎ ((get l.key s ≢ none) × (success ≡ false) × (s' ≡ s)))
  unfolding try_lock unlock eval
  try_lock-unlock config n l s h t =
      let (m, whole, p) = seconds_whole n h in
      let v = config.value in
      elim (Option-cases (get l.key s)) [
        | inl e ↦
            let own : get l.key (put l.key v m s) ≡ some v =
              ground (arith, r.get-put l.key l.key v m s, eq_refl l.key) in
            rw
              (
                t,
                whole,
                acquire_free r l.key v m s p e,
                release_own r l.key v (put l.key v m s) own,
              )
              (
                refl,
                inl (
                  e,
                  refl,
                  own,
                  refl,
                  ground (arith, r.get-del l.key l.key (put l.key v m s), eq_refl l.key),
                ),
              )
        | inr (w, e) ↦
            rw (t, whole, acquire_taken r l.key v w m s p e) (refl, inr ((λ q. cc), refl, refl))
      ]

  -- A handle that holds its lock and tries once more fails, as it should, but forgets its value: its
  -- `Unlock` then reports that there is no lock, and leaves the lock held.
  pub second_attempt_forgets :
      (config : LockConfig) (n : ℕ) (l : RedisSimpleLock) (s : State)
      → 0 < n
      → config.lock_ttl ≡ pos (n * 1_000_000_000)
      → get l.key s ≡ some l.held_value
      → config.value ≢ l.held_value
      → let (l', s', success, err) = try_lock r replied config l s in
        (success ≡ false)
        × ((unlock r replied l' s').1 ≡ lock (new_lock_not_found_error l.key))
        × ((unlock r replied l' s').0 ≡ s)
  unfolding try_lock unlock eval
  second_attempt_forgets config n l s h t own other =
      let (m, whole, p) = seconds_whole n h in
      rw (t, whole, acquire_taken r l.key config.value l.held_value m s p own)
        (unfold simple_lock_release in
          (
            refl,
            ground (arith, eq_iff l.held_value config.value),
            ground (arith, eq_iff l.held_value config.value),
          ))

  -- When the reply to a successful attempt is lost, the attempt reports a network error although the
  -- lock is taken; the handle has kept the value, so its `Unlock` frees the lock.
  pub lost_reply_recovers :
      (e : GoError) (config : LockConfig) (n : ℕ) (l : RedisSimpleLock) (s : State)
      → 0 < n
      → config.lock_ttl ≡ pos (n * 1_000_000_000)
      → get l.key s ≡ none
      → let (l', s', success, err) = try_lock r (reply_lost e) config l s in
        (success ≡ false)
        × (err ≡ lock (wrap_network_error e "acquire_lock"))
        × (get l.key s' ≡ some config.value)
        × ((unlock r replied l' s').1 ≡ nil)
        × (get l.key (unlock r replied l' s').0 ≡ none)
  unfolding try_lock unlock eval
  lost_reply_recovers e config n l s h t free =
      let (m, whole, p) = seconds_whole n h in
      let v = config.value in
      let own : get l.key (put l.key v m s) ≡ some v =
        ground (arith, r.get-put l.key l.key v m s, eq_refl l.key) in
      rw (t, whole, acquire_free r l.key v m s p free, release_own r l.key v (put l.key v m s) own)
        (
          refl,
          refl,
          own,
          refl,
          ground (arith, r.get-del l.key l.key (put l.key v m s), eq_refl l.key),
        )
