-- ===== src/Redis/Simple/Steps.antt =====
-- What the scripts of the simple lock do, case by case.
use x_ailock.Base.{
  ℤ, pos, ◌<ℤ◌, String, Option, none, some, ◌≡◌, arith, str_eq, eq_refl, if◌then◌else◌,
}
use x_ailock.Redis.Server.{Redis, IsRefused, is_some}
use x_ailock.Redis.Scripts.{simple_lock_acquire, simple_lock_release}

module _ (r : Redis) where
  open r use {State, get, put, del}

  -- What the acquire script does for an expiry that Redis accepts, at every key: it takes a free key,
  -- and otherwise changes no key.
  pub acquire_accepted :
      (k v j : String) (n : ℤ) (s : State)
      → pos 0 <ℤ n
      → ((simple_lock_acquire r k v (some n) s).1
          ≡ some (if is_some (get k s) then pos 0 else pos 1))
        × (get j (simple_lock_acquire r k v (some n) s).0
            ≡ (if is_some (get k s) then get j s else if str_eq k j then some v else get j s))
  unfolding simple_lock_acquire
  acquire_accepted k v j n s h = ground (arith, r.set_nx_ex_accepted k v n s h, r.get-put k j v n s)

  pub acquire_free :
      (k v : String) (n : ℤ) (s : State)
      → pos 0 <ℤ n
      → get k s ≡ none
      → simple_lock_acquire r k v (some n) s ≡ (put k v n s, some (pos 1))
  unfolding simple_lock_acquire
  acquire_free k v n s h e = ground (arith, r.set_nx_ex_accepted k v n s h)

  pub acquire_taken :
      (k v w : String) (n : ℤ) (s : State)
      → pos 0 <ℤ n
      → get k s ≡ some w
      → simple_lock_acquire r k v (some n) s ≡ (s, some (pos 0))
  unfolding simple_lock_acquire
  acquire_taken k v w n s h e = ground (arith, r.set_nx_ex_accepted k v n s h)

  pub release_own :
      (k v : String) (s : State)
      → get k s ≡ some v
      → simple_lock_release r k v s ≡ (del k s, some (pos 1))
  unfolding simple_lock_release
  release_own k v s e = ground (arith, eq_refl v)

  pub acquire_refused :
      (k v : String) (t : Option ℤ) (s : State)
      → IsRefused t
      → simple_lock_acquire r k v t s ≡ (s, none)
  unfolding simple_lock_acquire
  acquire_refused k v t s h = ground (arith, r.set_nx_ex_refused k v t s h)
