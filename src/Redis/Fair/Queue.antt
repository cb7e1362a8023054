-- ===== src/Redis/Fair/Queue.antt =====
-- The queue of the fair lock in Redis: who is served, who gets past, and what a failed attempt leaves.
use x_ailock.Base.{
  ℕ, ◌*◌, ◌<◌, ℤ, pos, negsuc, ◌<ℤ◌, String, true, false, Option, none, some, List, [], ◌∷◌, ◌≡◌,
  ◌≢◌, refl, ◌∙◌, arith, str_eq, eq_iff, eq_refl, ◌⊎◌, inl, inr, Bool-cases, Option-cases,
}
use x_ailock.Errors.{nil, lock, new_lock_not_found_error}
use x_ailock.Config.{LockConfig}
use x_ailock.Redis.Expiry.{seconds_whole}
use x_ailock.Redis.Server.{Redis, replied, eval, seconds, first, rest, drop_all}
use x_ailock.Redis.Scripts.{fair_lock_try_acquire, fair_lock_acquire, fair_lock_status, equals}
use x_ailock.Redis.Fair.{
  RedisFairLock, or_default, try_lock, unlock, get_queue_position, lock_ttl_of, queue_ttl_of,
}
use x_ailock.Redis.Fair.Holder.{take_front_accepted, try_acquire_free}
use x_ailock.Redis.Fair.Steps.{
  index_from-drop_all, equals→some, not_equals→ne, queued-list, try_acquire_joins, release_own,
  release_foreign, acquire_early, acquire_behind, released-get, released-list, joined-get,
}

module _ (r : Redis) (k qk : String) (apart : str_eq qk k ≡ false) where
  open r use {State, get, list, put, lpop, rpush}

  -- A request of a waiting client, with a positive TTL of whole seconds, which is an expiry that Redis
  -- accepts, succeeds exactly when the lock is free and its value is at the front of the queue. It then puts the value into the lock and takes it, alone, off the queue. In every
  -- other case it changes nothing.
  pub fair_lock_acquire-turn :
      (v : String) (m : ℤ) (s : State)
      → pos 0 <ℤ m
      → let (s', reply) = fair_lock_acquire r k qk v (some m) s in
        ((reply ≡ some (pos 1))
          × (get k s ≡ none)
          × (first (list qk s) ≡ some v)
          × (get k s' ≡ some v)
          × (list qk s' ≡ rest (list qk s)))
        ⊎ ((reply ≢ some (pos 1)) × ((get k s ≢ none) ⊎ (first (list qk s) ≢ some v)) × (s' ≡ s))
  unfolding fair_lock_acquire
  fair_lock_acquire-turn v m s p = elim (Bool-cases (equals (first (list qk s)) v)) [
    | inl h ↦ elim (Option-cases (get k s)) [
      | inl e ↦
          rw (h, e, take_front_accepted r k qk apart v m s p)
            (inl (
              refl,
              refl,
              equals→some (first (list qk s)) v h,
              ground (arith, r.get-lpop qk k (put k v m s), r.get-put k k v m s, eq_refl k),
              ground (arith, r.list-lpop qk qk (put k v m s), r.list-put k qk v m s, eq_refl qk),
            ))
      | inr (w, e) ↦ rw (h, e) (inr ((λ q. ground arith), inl (λ q. ground arith), refl))
    ]
    | inr h ↦ rw h (inr ((λ q. ground arith), inr (not_equals→ne (first (list qk s)) v h), refl))
  ]

or_default-whole :
    (d : ℤ) (n : ℕ) → 0 < n → or_default d (pos (n * 1_000_000_000)) ≡ pos (n * 1_000_000_000)
unfolding or_default
or_default-whole d n h = ground arith

module _ (r : Redis) where
  open r use {State, get, list}

  -- `Unlock` with a reply that arrives: if the lock holds the handle's value, the lock becomes free and
  -- the handle's value leaves the queue, wherever it stood, and has no position there any more; otherwise
  -- the call reports that there is no lock and changes nothing.
  pub unlock-queue :
      (l : RedisFairLock) (s : State)
      → str_eq l.queue_key l.key ≡ false
      → let (s', err) = unlock r replied l s in
        ((get l.key s ≡ some l.held_value)
          × (err ≡ nil)
          × (get l.key s' ≡ none)
          × (list l.queue_key s' ≡ drop_all l.held_value (list l.queue_key s))
          × (get_queue_position r replied l s' ≡ (negsuc 0, nil)))
        ⊎ ((get l.key s ≢ some l.held_value)
            × (unlock r replied l s ≡ (s, lock (new_lock_not_found_error l.key))))
  unfolding unlock get_queue_position eval fair_lock_status
  unlock-queue l s apart = elim (Bool-cases (equals (get l.key s) l.held_value)) [
    | inl h ↦
        let own = equals→some (get l.key s) l.held_value h in
        let left = released-list r l.key l.queue_key apart l.held_value s in
        rw (own, release_own r l.key l.queue_key apart l.held_value s own)
          (inl (
            refl,
            refl,
            released-get r l.key l.queue_key apart l.held_value s,
            left,
            rw (left, index_from-drop_all 0 l.held_value (list l.queue_key s)) refl,
          ))
    | inr h ↦ inr (
      not_equals→ne (get l.key s) l.held_value h,
      rw (unlock, release_foreign r l.key l.queue_key apart l.held_value s h) refl,
    )
  ]

  -- On a free lock, `TryLock` of a client that has never waited takes the lock although another value is
  -- at the front of the queue; that value stays where it is, and its own request then fails.
  pub newcomer_overtakes :
      (config : LockConfig) (n : ℕ) (l : RedisFairLock) (s : State) (v : String) (q : List String)
      (t : Option ℤ)
      → str_eq l.queue_key l.key ≡ false
      → 0 < n
      → config.lock_ttl ≡ pos (n * 1_000_000_000)
      → get l.key s ≡ none
      → list l.queue_key s ≡ v ∷ q
      → let (l', s', success, err) = try_lock r replied config l s in
        (success ≡ true)
        × (err ≡ nil)
        × (list l.queue_key s' ≡ v ∷ q)
        × (fair_lock_acquire r l.key l.queue_key v t s' ≡ (s', some (negsuc 0)))
  unfolding try_lock eval
  newcomer_overtakes config n l s v q t apart h ttl free waiting =
      let (m, whole, p) = seconds_whole n h in
      let taken = r.put l.key config.value m s in
      let granted : fair_lock_try_acquire r l.key l.queue_key config.value (some m)
            (seconds (queue_ttl_of config)) s
          ≡ (taken, some (pos 1)) =
        ground (
          arith,
          try_acquire_free r l.key l.queue_key apart config.value (some m)
              (seconds (queue_ttl_of config)) s free,
          r.set_ex_accepted l.key config.value m s p,
        ) in
      let still : list l.queue_key taken ≡ v ∷ q =
        r.list-put l.key l.queue_key config.value m s ∙ waiting in
      let now_held : get l.key taken ≡ some config.value =
        ground (arith, r.get-put l.key l.key config.value m s, eq_refl l.key) in
      rw (ttl, or_default-whole (pos 30_000_000_000) n h, whole, granted)
        (
          refl,
          refl,
          still,
          acquire_early r l.key l.queue_key apart v config.value q t taken now_held still,
        )

  -- A `TryLock` that fails because the lock is held leaves its value in the queue. If it is alone there,
  -- then after the holder's `Unlock` the lock is free, and yet the request of every other waiting client
  -- is refused and changes nothing.
  pub abandoned_try_blocks :
      (config : LockConfig) (k : ℕ) (l holder : RedisFairLock) (s : State) (x : String)
      (t : Option ℤ)
      → str_eq l.queue_key l.key ≡ false
      → 0 < k
      → config.queue_ttl ≡ pos (k * 1_000_000_000)
      → holder.key ≡ l.key
      → holder.queue_key ≡ l.queue_key
      → get l.key s ≡ some holder.held_value
      → list l.queue_key s ≡ []
      → config.value ≢ holder.held_value
      → config.value ≢ x
      → let (l', s', success, err) = try_lock r replied config l s in
        let freed = (unlock r replied holder s').0 in
        (success ≡ false)
        × (err ≡ nil)
        × (get l.key freed ≡ none)
        × (fair_lock_acquire r l.key l.queue_key x t freed ≡ (freed, some (pos 0)))
  unfolding try_lock unlock eval drop_all
  abandoned_try_blocks config k l holder s x t apart hk qttl same_key same_queue held empty differ
        other =
      let (m, whole, p) = seconds_whole k hk in
      let joined = r.keep l.queue_key m (r.rpush l.queue_key config.value s) in
      let freed = r.lrem l.queue_key holder.held_value (r.del l.key joined) in
      let lock_ttl_arg = seconds (lock_ttl_of config) in
      let refused =
        try_acquire_joins r l.key l.queue_key apart holder.held_value config.value lock_ttl_arg m s
          p held in
      let own : get l.key joined ≡ some holder.held_value =
        joined-get r l.key l.queue_key apart config.value m s ∙ held in
      let alone : list l.queue_key freed ≡ config.value ∷ [] = ground (
        arith,
        released-list r l.key l.queue_key apart holder.held_value joined,
        queued-list r l.key l.queue_key apart config.value m s,
        eq_iff config.value holder.held_value,
      ) in
      rw
        (
          qttl,
          or_default-whole (pos 300_000_000_000) k hk,
          whole,
          refused,
          same_key,
          same_queue,
          release_own r l.key l.queue_key apart holder.held_value joined own,
        )
        (
          refl,
          refl,
          released-get r l.key l.queue_key apart holder.held_value joined,
          acquire_behind r l.key l.queue_key apart config.value x [] t freed other alone,
        )
