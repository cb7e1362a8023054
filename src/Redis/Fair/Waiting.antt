-- ===== src/Redis/Fair/Waiting.antt =====
-- The blocking `Lock` of the fair lock in Redis returns in time, and how.
use x_ailock.Base.{
  ℕ, zero, suc, ℤ, pos, pos_part, ◌+ℤ◌, ◌≤ℤ◌, ◌<ℤ◌, ltb_ℤ, eq_ℤ, String, false, some, ◌≡◌, refl,
  arith, int_laws, Bool-cases, ◌⊎◌, inl, inr, ltb_ℤ→lt, not_ltb_ℤ→le, str_eq, eq_refl, ◌∙◌,
}
use x_ailock.Errors.{GoError, nil, lock, new_acquire_timeout_error, wrap_network_error}
use x_ailock.Config.{LockConfig}
use x_ailock.Redis.Server.{Redis, Reply, eval, seconds, drop_all}
use x_ailock.Redis.Scripts.{fair_lock_try_acquire, fair_lock_acquire, fair_lock_cleanup}
use x_ailock.Redis.Fair.{
  RedisFairLock, Turn, done, again, cleanup_request, check_deadline, wait_turn, wait_loop,
  acquire_or_wait, retry_with_custom_logic, lock_fair, lock_ttl_of, queue_ttl_of,
  acquire_timeout_of,
}
use x_ailock.Redis.Client.{Surroundings}
use x_ailock.Redis.Client.Delivered.{Evaluated-cases, eval-state, sent-holds}
use x_ailock.Redis.Fair.Holder.{fair_acquire_one, fair_try_one}

module _ (r : Redis) (u : Surroundings r) where
  open r use {State, get, list, lrem}
  open u use {W, server, now, send}

  -- The request that takes the handle's value off the queue.
  abbrev pub dequeue : RedisFairLock → State → Reply State ℤ
  dequeue l s = (lrem l.queue_key l.held_value s, some (pos 0))

  -- How `Lock` may end: with its value in the key of the lock, with a network error, or with a timeout
  -- past the deadline, when the last thing that it has done is to ask the server to take its value off
  -- the queue: the server has done so, or the request was lost.
  pub data FairEnded (l : RedisFairLock) (timeout deadline : ℤ) (w : W) (e : GoError) : Type 0 where
    acquired : e ≡ nil → get l.key (server w) ≡ some l.held_value → FairEnded l timeout deadline w e
    failed :
        (cause : GoError) (operation : String)
        → e ≡ lock (wrap_network_error cause operation)
        → FairEnded l timeout deadline w e
    timed_out :
        (before : W)
        → e ≡ lock (new_acquire_timeout_error l.key timeout)
        → deadline <ℤ now before
        → w ≡ (send (dequeue l) before).0
        → (list l.queue_key (server w) ≡ drop_all l.held_value (list l.queue_key (server before)))
          ⊎ (server w ≡ server before)
        → FairEnded l timeout deadline w e

  module _ (l : RedisFairLock) (apart : str_eq l.queue_key l.key ≡ false) (timeout ttl : ℤ) where
    -- A turn that returns, and one that goes on with a later clock.
    pub data Turned (deadline : ℤ) (w : W) (t : Turn r u) : Type 0 where
      ends :
          (w' : W) (e : GoError)
          → t ≡ done w' e
          → FairEnded l timeout deadline w' e
          → Turned deadline w t
      goes_on :
          (w' : W)
          → t ≡ again w'
          → now w +ℤ pos 50_000_000 ≤ℤ now w'
          → now w ≤ℤ deadline
          → Turned deadline w t

    cleaned :
        (w : W)
        → (list l.queue_key (server (send (cleanup_request r u l) w).0)
            ≡ drop_all l.held_value (list l.queue_key (server w)))
          ⊎ (server (send (cleanup_request r u l) w).0 ≡ server w)
    unfolding cleanup_request fair_lock_cleanup eval
    cleaned w =
        let (d, states, answers) = u.send_delivers (cleanup_request r u l) w in
        let queue = r.list-lrem l.queue_key l.queue_key l.held_value (server w) in
        elim (eval-state d (cleanup_request r u l) (server w)) [
          | inl lost ↦ inr (states ∙ lost)
          | inr ran ↦ inl (rw (states, ran) (ground (arith, queue, eq_refl l.queue_key)))
        ]

    check-Turned :
        (deadline : ℤ) (w before : W)
        → now before ≤ℤ now w
        → Turned deadline before (check_deadline r u deadline timeout l w)
    unfolding check_deadline cleanup_request fair_lock_cleanup
    check-Turned deadline w before m = elim (Bool-cases (ltb_ℤ deadline (now w))) [
      | inl late ↦
          rw late
            (ends _ _ refl (timed_out w refl (ltb_ℤ→lt deadline (now w) late) refl (cleaned w)))
      | inr early ↦ rw early (
          goes_on _ refl (omega (int_laws, u.sleep_lasts (pos 50_000_000) w, m))
            (omega (int_laws, m, not_ltb_ℤ→le deadline (now w) early)))
    ]

    wait_turn-Turned :
        (deadline : ℤ) (w : W) → Turned deadline w (wait_turn r u deadline timeout ttl l w)
    unfolding wait_turn
    wait_turn-Turned deadline w =
        let script = fair_lock_acquire r l.key l.queue_key l.held_value (seconds ttl) in
        let w' = (send script w).0 in
        elim (Evaluated-cases (send script w).1) [
          | inl (n, e) ↦ elim (Bool-cases (eq_ℤ n (pos 1))) [
            | inl one ↦
                rw (e, wait_turn, one)
                  (ends w' nil refl (
                    acquired refl (
                      sent-holds r u script (λ s. get l.key s ≡ some l.held_value) w n
                        (fair_acquire_one r l.key l.queue_key apart l.held_value (seconds ttl)
                          (server w))
                        e one)))
            | inr other ↦
                rw (e, wait_turn, other) (check-Turned deadline w' w (u.send_forward script w))
          ]
          | inr (x, e) ↦
              rw (e, wait_turn) (ends w' _ refl (failed x "fair_lock_acquire_attempt" refl))
        ]

    wait_loop-FairEnded :
        (fuel : ℕ) (deadline : ℤ) (w : W)
        → deadline <ℤ now w +ℤ pos fuel
        → (w' : W) × (e : GoError) × (wait_loop r u (suc fuel) deadline timeout ttl l w
            ≡ some (w', e))
          × FairEnded l timeout deadline w' e
    unfolding wait_loop
    wait_loop-FairEnded zero deadline w h = elim (wait_turn-Turned deadline w) [
      | ends w' e p q ↦ (w', e, rw (p, wait_loop), q)
      | goes_on w' p m d ↦ absurd (omega (int_laws, h, m, d))
    ]
    wait_loop-FairEnded (suc fuel) deadline w h = elim (wait_turn-Turned deadline w) [
      | ends w' e p q ↦ (w', e, rw (p, wait_loop), q)
      | goes_on w' p m d ↦
          rw (p, wait_loop) (wait_loop-FairEnded fuel deadline w' (omega (int_laws, h, m)))
    ]

  -- `Lock` of the fair lock returns: a fuel of its timeout in nanoseconds plus two is enough. A nil error
  -- means that the key of the lock holds the handle's value; the other ends are a network error, and a
  -- timeout past the deadline, after a last request that takes the handle's value off the queue, unless it is
  -- lost.
  pub lock_fair-FairEnded :
      (config : LockConfig) (l : RedisFairLock) (w : W)
      → str_eq l.queue_key l.key ≡ false
      → (w' : W) × (e : GoError) × (deadline : ℤ) × (now w +ℤ acquire_timeout_of config ≤ℤ deadline)
        × (lock_fair r u (suc (suc (pos_part (acquire_timeout_of config)))) config l w
            ≡ some (w', e))
        × FairEnded
            (record l { held_value = config.value })
            (acquire_timeout_of config)
            deadline
            w'
            e
  unfolding lock_fair acquire_or_wait retry_with_custom_logic
  lock_fair-FairEnded config l w apart =
      let timeout = acquire_timeout_of config in
      let l' = record l { held_value = config.value } in
      let t = seconds (lock_ttl_of config) in
      let qt = seconds (queue_ttl_of config) in
      let script = fair_lock_try_acquire r l.key l.queue_key config.value t qt in
      let w' = (send script w).0 in
      let deadline = now w' +ℤ timeout in
      let later : now w +ℤ timeout ≤ℤ deadline = omega (int_laws, u.send_forward script w) in
      elim (Evaluated-cases (send script w).1) [
        | inl (n, e) ↦ elim (Bool-cases (eq_ℤ n (pos 1))) [
          | inl one ↦ (
            w',
            nil,
            deadline,
            later,
            rw (e, one) refl,
            acquired refl (
                sent-holds r u script (λ s. get l.key s ≡ some config.value) w n
                  (fair_try_one r l.key l.queue_key apart config.value t qt (server w)) e one),
          )
          | inr other ↦
              let (v, x, p, q) =
                wait_loop-FairEnded l' apart timeout (lock_ttl_of config) (suc (pos_part timeout))
                  deadline w' (omega int_laws) in
              (v, x, deadline, later, rw (e, other) p, q)
        ]
        | inr (x, e) ↦
            (w', _, deadline, later, rw e refl, failed x "fair_lock_initial_attempt" refl)
      ]
