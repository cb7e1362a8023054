-- ===== src/Watchdog/Guarded/Alive.antt =====
-- The watchdog of a local lock while the lock is held: what its extensions are for.
use x_ailock.Base.{
  ℕ, suc, ◌+◌, ◌<◌, ◌^◌, ◌%◌, ◌||◌, ℤ, ◌+ℤ◌, ◌≤ℤ◌, ltb_ℤ, String, Bool, true, false, some, List, [],
  ◌∷◌, ◌≡◌, refl, ap, ◌∙◌, arith, +ℤ_parts,
}
use x_ailock.Errors.{nil}
use x_ailock.Shard.Lock.{ShardedLock, extend}
use x_ailock.Shard.Lock.Holding.{holder, extend_held}
use x_ailock.Shard.Lock.Contention.{Contender, instant, contend, contend_excluded}
use x_ailock.Watchdog.{WatchdogImpl, perform_extend}

-- A tick of the watchdog, with the instants of the extension and of its record, or a call of a client
-- that does not hold the lock.
pub data Happening : Type 0 where
  ticks_at : ℤ → ℤ → Happening
  contends : Contender → Happening

abbrev pub last_tick : ℤ → List Happening → ℤ
last_tick last [] = last
last_tick last (ticks_at at later ∷ es) = last_tick at es
last_tick last (contends c ∷ es) = last_tick last es

abbrev pub ticks_of : List Happening → ℕ
ticks_of [] = 0
ticks_of (ticks_at at later ∷ es) = suc (ticks_of es)
ticks_of (contends c ∷ es) = ticks_of es

-- Every call of a contender comes at most the period after the latest tick.
abbrev pub Punctual : ℤ → ℤ → List Happening → Type 0
Punctual period last [] = Unit {0}
Punctual period last (ticks_at at later ∷ es) = Punctual period at es
Punctual period last (contends c ∷ es) = (instant c ≤ℤ last +ℤ period) × Punctual period last es

soon :
    (t last period ttl end : ℤ) → end ≡ last +ℤ ttl → period ≤ℤ ttl → t ≤ℤ last +ℤ period → t ≤ℤ end
soon t last period ttl end e p h = rw e (omega (arith, +ℤ_parts last period, +ℤ_parts last ttl))

module _ {T : Type 0} where
  holder_held :
      (t : ℤ) (v : String) (end : ℤ) (l : ShardedLock T)
      → l.unlocked ≡ false
      → l.value ≡ v
      → l.expire_at ≡ end
      → t ≤ℤ l.expire_at
      → holder t l ≡ some (v, end)
  holder_held t v end l u a b h =
      let runs : ltb_ℤ l.expire_at t ≡ false = ground arith in
      rw (u, runs) (ap (λ x. some (x, l.expire_at)) a ∙ ap (λ x. some (v, x)) b)

  abbrev pub note : Bool → ShardedLock T × WatchdogImpl × Bool → ShardedLock T × WatchdogImpl × Bool
  note took (l, d, later) = (l, d, took || later)

  -- The lock and the watchdog after a history, and whether a contender took the lock.
  pub guard_all :
      List Happening → ShardedLock T → WatchdogImpl → ShardedLock T × WatchdogImpl × Bool
  guard_all [] l d = (l, d, false)
  guard_all (ticks_at at later ∷ es) l d =
      let (l', success, err) = extend at d.ttl l in
      guard_all es l' (perform_extend later success err d)
  guard_all (contends c ∷ es) l d = let (l', took) = contend c l in note took (guard_all es l' d)

  -- The lock is held for the value, with a lease that runs from the latest tick; every tick has succeeded.
  abbrev Kept :
      ℤ
      → List Happening
      → ShardedLock T
      → WatchdogImpl
      → ShardedLock T × WatchdogImpl × Bool
      → Type 0
  Kept last es l d (l', d', took) =
      (took ≡ false)
      × (l'.unlocked ≡ false)
      × (l'.value ≡ l.value)
      × (l'.expire_at ≡ last_tick last es +ℤ d.ttl)
      × (d'.stats.extend_count ≡ (d.stats.extend_count + ticks_of es) % 2 ^ 64)
      × (d'.stats.failed_extends ≡ d.stats.failed_extends)

  guard_all-Kept :
      (es : List Happening) (l : ShardedLock T) (d : WatchdogImpl) (last period : ℤ)
      → l.unlocked ≡ false
      → l.expire_at ≡ last +ℤ d.ttl
      → d.stats.extend_count < 2 ^ 64
      → period ≤ℤ d.ttl
      → Punctual period last es
      → Kept last es l d (guard_all es l d)
  unfolding guard_all perform_extend
  guard_all-Kept [] l d last period u e n p q = (refl, u, refl, e, omega arith, refl)
  guard_all-Kept (ticks_at at later ∷ es) l d last period u e n p q =
      let l' = record l { ttl = d.ttl; expire_at = at +ℤ d.ttl } in
      let (a, b, c, f, x, y) =
        guard_all-Kept es l' (perform_extend later true nil d) at period u refl (omega arith) p q in
      rw (guard_all, extend_held at d.ttl l u) (a, b, c, f, omega (arith, x), y)
  guard_all-Kept (contends c ∷ es) l d last period u e n p q =
      rw
        (guard_all, contend_excluded c l u (soon (instant c) last period d.ttl l.expire_at e p q.0))
        (guard_all-Kept es l d last period u e n p q.1)

  -- While a lock is held and its watchdog ticks, with the TTL of the lease, such that no call of a contender
  -- comes later after the latest tick, or after the lease began, than the interval and a delay of the ticks,
  -- which are together at most the TTL: no history of contenders takes the lock, it is still held for the
  -- same value at any instant that is so soon after the latest tick, every tick has been counted as an
  -- extension, modulo 2^64, and none as a failure.
  pub guard_all-holder :
      (es : List Happening) (l : ShardedLock T) (d : WatchdogImpl) (began delay t : ℤ)
      → l.unlocked ≡ false
      → l.expire_at ≡ began +ℤ d.ttl
      → d.stats.extend_count < 2 ^ 64
      → d.interval +ℤ delay ≤ℤ d.ttl
      → Punctual (d.interval +ℤ delay) began es
      → t ≤ℤ last_tick began es +ℤ (d.interval +ℤ delay)
      → let (l', d', took) = guard_all es l d in
        (took ≡ false)
        × (holder t l' ≡ some (l.value, last_tick began es +ℤ d.ttl))
        × (d'.stats.extend_count ≡ (d.stats.extend_count + ticks_of es) % 2 ^ 64)
        × (d'.stats.failed_extends ≡ d.stats.failed_extends)
  guard_all-holder es l d began delay t u e n p q r =
      let period = d.interval +ℤ delay in
      let (a, b, c, f, x, y) = guard_all-Kept es l d began period u e n p q in
      let runs = soon t (last_tick began es) period d.ttl (guard_all es l d).0.expire_at f p r in
      (a, holder_held t l.value (last_tick began es +ℤ d.ttl) (guard_all es l d).0 b c f runs, x, y)
