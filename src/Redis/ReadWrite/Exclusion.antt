-- ===== src/Redis/ReadWrite/Exclusion.antt =====
-- The read-write lock in Redis keeps readers and writers apart, over every history of the server.
use x_ailock.Base.{
  ℕ, ℤ, pos, leb_ℤ, String, false, Option, none, some, List, [], ◌∷◌, ◌≡◌, ◌⊎◌, inl, inr, arith,
  str_eq, eq_iff, eq_refl, Option-cases, Bool-cases,
}
use text.Mathlib.TextLemmas.{append_cancel_left}
use x_ailock.Redis.Expiry.{Expiry-cases}
use x_ailock.Redis.Server.{Redis}
use x_ailock.Redis.Scripts.{
  rw_lock_acquire_read, rw_lock_release_read, rw_lock_acquire_write, rw_lock_release_write,
  count_down,
}
use x_ailock.Redis.ReadWrite.{RedisRwLock, read_key, write_key}

-- The two keys of a lock differ.
pub read_key-ne-write_key : (l : RedisRwLock) → str_eq (read_key l) (write_key l) ≡ false
unfolding read_key write_key
read_key-ne-write_key l = elim (Bool-cases (str_eq (read_key l) (write_key l))) [
  | inl same ↦
      let tails : ":read" ≡ ":write" =
        append_cancel_left l.key ":read" ":write" ((eq_iff _ _).0 same) in
      absurd (ground (arith, tails, eq_iff ":read" ":write"))
  | inr apart ↦ apart
]

pub write_key-ne-read_key : (l : RedisRwLock) → str_eq (write_key l) (read_key l) ≡ false
write_key-ne-read_key l = ground (
  arith,
  read_key-ne-write_key l,
  eq_iff (read_key l) (write_key l),
  eq_iff (write_key l) (read_key l),
)

module _ (r : Redis) (l : RedisRwLock) where
  open r use {State, get, exists}

  -- One thing that happens to the keys of the lock: a script of any client, with any value and expiry,
  -- or the passing of time.
  pub data RwEvent : Type 0 where
    reads : Option ℤ → RwEvent
    writes : Option ℤ → String → RwEvent
    read_ends : RwEvent
    write_ends : String → RwEvent
    passes : ℕ → RwEvent

  happen : RwEvent → State → State
  happen (reads t) s = (rw_lock_acquire_read r (read_key l) (write_key l) t s).0
  happen (writes t v) s = (rw_lock_acquire_write r (read_key l) (write_key l) v t s).0
  happen read_ends s = (rw_lock_release_read r (read_key l) s).0
  happen (write_ends v) s = (rw_lock_release_write r (write_key l) v s).0
  happen (passes d) s = r.elapse d s

  pub happen_all : List RwEvent → State → State
  happen_all [] s = s
  happen_all (e ∷ es) s = happen_all es (happen e s)

  -- There are no readers or there is no writer.
  abbrev pub IsApart : State → Type 0
  IsApart s = (get (read_key l) s ≡ none) ⊎ (get (write_key l) s ≡ none)

  pub read_taken :
      (t : Option ℤ) (v : String) (s : State)
      → get (write_key l) s ≡ some v
      → rw_lock_acquire_read r (read_key l) (write_key l) t s ≡ (s, some (pos 0))
  unfolding rw_lock_acquire_read
  read_taken t v s h = ground (arith, r.exists-get (write_key l) s)

  -- The count of a script that lets a reader in does not touch the key of the writer.
  pub read_writer :
      (t : Option ℤ) (s : State)
      → get (write_key l) s ≡ none
      → get (write_key l) (rw_lock_acquire_read r (read_key l) (write_key l) t s).0 ≡ none
  unfolding rw_lock_acquire_read
  read_writer none s h = ground (
    arith,
    r.exists-get (write_key l) s,
    r.expire_refused (read_key l) (r.incr (read_key l) s),
    r.get-incr_other (read_key l) (write_key l) s (read_key-ne-write_key l),
  )
  read_writer (some m) s h = elim (Bool-cases (leb_ℤ m (pos 0))) [
    | inl past ↦ ground (
      arith,
      r.exists-get (write_key l) s,
      r.expire_past (read_key l) m (r.incr (read_key l) s) (ground arith),
      r.get-del (read_key l) (write_key l) (r.incr (read_key l) s),
      r.get-incr_other (read_key l) (write_key l) s (read_key-ne-write_key l),
    )
    | inr future ↦ ground (
      arith,
      r.exists-get (write_key l) s,
      r.expire_accepted (read_key l) m (r.incr (read_key l) s) (ground arith),
      r.get-keep (read_key l) (write_key l) m (r.incr (read_key l) s),
      r.get-incr_other (read_key l) (write_key l) s (read_key-ne-write_key l),
    )
  ]

  reads-IsApart :
      (t : Option ℤ) (s : State)
      → IsApart s
      → IsApart (rw_lock_acquire_read r (read_key l) (write_key l) t s).0
  reads-IsApart t s h = elim (Option-cases (get (write_key l) s)) [
    | inl e ↦ inr (read_writer t s e)
    | inr (v, e) ↦ rw (read_taken t v s e) h
  ]

  writes-IsApart :
      (t : Option ℤ) (v : String) (s : State)
      → IsApart s
      → IsApart (rw_lock_acquire_write r (read_key l) (write_key l) v t s).0
  unfolding rw_lock_acquire_write
  writes-IsApart t v s h = elim (Expiry-cases t) [
    | inl refused ↦ ground (
      arith,
      r.exists-get (read_key l) s,
      r.exists-get (write_key l) s,
      r.set_ex_refused (write_key l) v t s refused,
    )
    | inr (m, e, p) ↦ rw e (
        ground (
          arith,
          r.exists-get (read_key l) s,
          r.exists-get (write_key l) s,
          r.set_ex_accepted (write_key l) v m s p,
          r.get-put (write_key l) (read_key l) v m s,
          write_key-ne-read_key l,
        ))
  ]

  read_ends-IsApart : (s : State) → IsApart s → IsApart (rw_lock_release_read r (read_key l) s).0
  unfolding rw_lock_release_read count_down
  read_ends-IsApart s h = elim (Option-cases (get (read_key l) s)) [
    | inl e ↦ ground arith
    | inr (t, e) ↦ elim (Option-cases (r.to_number t)) [
      | inl q ↦ ground arith
      | inr (n, q) ↦ ground (
        arith,
        r.get-del (read_key l) (read_key l) s,
        eq_refl (read_key l),
        r.get-decr_other (read_key l) (write_key l) s (read_key-ne-write_key l),
      )
    ]
  ]

  write_ends-IsApart :
      (v : String) (s : State) → IsApart s → IsApart (rw_lock_release_write r (write_key l) v s).0
  unfolding rw_lock_release_write
  write_ends-IsApart v s h = ground (
    arith,
    r.get-del (write_key l) (write_key l) s,
    r.get-del (write_key l) (read_key l) s,
    eq_refl (write_key l),
  )

  passes-IsApart : (d : ℕ) (s : State) → IsApart s → IsApart (r.elapse d s)
  passes-IsApart d s h =
      ground (arith, r.get-elapse d (read_key l) s, r.get-elapse d (write_key l) s)

  -- A lock that has no readers or no writer is so after any history: scripts of any clients, with any
  -- values and expiries, and time in which keys expire.
  pub happen_all-IsApart : (es : List RwEvent) (s : State) → IsApart s → IsApart (happen_all es s)
  unfolding happen_all happen
  happen_all-IsApart [] s h = h
  happen_all-IsApart (reads t ∷ es) s h = happen_all-IsApart es _ (reads-IsApart t s h)
  happen_all-IsApart (writes t v ∷ es) s h = happen_all-IsApart es _ (writes-IsApart t v s h)
  happen_all-IsApart (read_ends ∷ es) s h = happen_all-IsApart es _ (read_ends-IsApart s h)
  happen_all-IsApart (write_ends v ∷ es) s h = happen_all-IsApart es _ (write_ends-IsApart v s h)
  happen_all-IsApart (passes d ∷ es) s h = happen_all-IsApart es _ (passes-IsApart d s h)
