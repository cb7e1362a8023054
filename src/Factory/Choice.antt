-- ===== src/Factory/Choice.antt =====
-- The deprecated constructors against the factories.
use x_ailock.Base.{ℕ, String, Bool, Option, none, some, ◌≡◌, refl, arith}
use x_ailock.Errors.{lock, err_unsupported_backend}
use x_ailock.Interface.Calls.{Kind}
use x_ailock.Factory.{
  Globals, Backend, redis_backend, local_backend, custom, failed, LockFactory, redis_lock_factory,
  new_local_lock_factory, create_lock, new_lock, new_lock_with_metrics, get_backend_type,
  backend_type, get_backend_name,
}

module _ {C : Type 0} where
  -- The factory of a back end of the package.
  abbrev pub factory_of : Backend C → Option (LockFactory C)
  factory_of (redis_backend client) = some (redis_lock_factory client)
  factory_of (local_backend n) = some (new_local_lock_factory n)
  factory_of (custom name) = none

  -- What the constructors make for a back end with that factory, or with none.
  abbrev pub Makes :
      ℕ → Bool → Kind → String → Backend C → Globals → Option (LockFactory C) → Type 0
  Makes fuel reuse k key b g (some f) =
      (new_lock fuel reuse k key b g ≡ create_lock fuel reuse f k key g)
      × (get_backend_type f ≡ backend_type b)
      × (get_backend_name b ≡ backend_type b)
  Makes fuel reuse k key b g none =
      (new_lock fuel reuse k key b g ≡ some (g, failed (lock err_unsupported_backend)))
      × (new_lock_with_metrics fuel reuse k key b g
          ≡ some (g, failed (lock err_unsupported_backend)))
      × (get_backend_name b ≡ "Unknown")

  -- The deprecated constructors of the three kinds of locks make, for a back end of the package, what its
  -- factory makes, and the factory says the name of the back end, which is the label of the metrics too;
  -- and any other back end is refused as unsupported, with and without metrics, whatever name it gives,
  -- and with no change of the globals.
  pub new_lock-create_lock :
      (fuel : ℕ) (reuse : Bool) (k : Kind) (key : String) (b : Backend C) (g : Globals)
      → Makes fuel reuse k key b g (factory_of b)
  unfolding new_lock new_lock_with_metrics backend_type get_backend_type get_backend_name
      new_local_lock_factory
  new_lock-create_lock fuel reuse k key (redis_backend client) g = (refl, refl, refl)
  new_lock-create_lock fuel reuse k key (local_backend n) g = (refl, refl, refl)
  new_lock-create_lock fuel reuse k key (custom name) g = (ground arith, ground arith, refl)
