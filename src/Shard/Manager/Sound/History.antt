-- ===== src/Shard/Manager/Sound/History.antt =====
-- The histories of a manager: no two keys share an object, as long as no object is retired twice.
use x_ailock.Base.{
  inl, inr, ltb, if◌then◌else◌, Bool-cases, ℕ, ℤ, Bool, String, some, List, [], ◌∷◌, ◌≡◌, refl, sym,
  ◌∙◌, subst,
}
use x_ailock.Shard.Lock.{ShardedLock, decrement32}
use x_ailock.Shard.Index.{shard_index}
use x_ailock.Shard.Manager.{
  ShardedLockManager, get_lock, release_lock, cleanup_lock, finish_cleanup, collect, retire_all,
  perform_cleanup, write, write_shard, new_object,
}
use x_ailock.Shard.Manager.Stats.{new_sharded_lock_manager}
use x_ailock.Shard.Manager.Table.{table}
use x_ailock.Shard.Manager.Sound.{
  In, Distinct, IsSound, write-IsSound, refill-IsSound, lookup-InTable,
}
use x_ailock.Shard.Manager.Sound.Entering.{get_lock-IsSound}
use x_ailock.Shard.Manager.Sound.Cleaning.{
  release_lock-IsSound, cleanup_lock-IsSound, clean_shard-IsSound, perform_cleanup-IsSound,
}

-- What a manager serves: `GetLock`, `ReleaseLock` through any pointer, a cleanup, or a method on any
-- object. A release may also come in its parts, the decrement, and then `cleanupLock`, or of this the part
-- that has the mutex of a shard, which was read before; and a cleanup shard by shard, with anything between
-- these. Between two calls of a pool its objects may change their order, and some may be lost.
pub data ManagerEvent (T : Type 0) : Type 0 where
  gets : Bool → String → ManagerEvent T
  releases : ℕ → ManagerEvent T
  drops : ℕ → ManagerEvent T
  collects : ℕ → ManagerEvent T
  finishes : ℕ → ℕ → ManagerEvent T
  refills : ℕ → List ℕ → ManagerEvent T
  cleans : ℤ → ManagerEvent T
  sweeps : ℕ → ℤ → ManagerEvent T
  acts : ℕ → (ShardedLock T → ShardedLock T) → ManagerEvent T

module _ {T : Type 0} (fresh : T) where
  unfoldable pub serve : ManagerEvent T → ShardedLockManager T → ShardedLockManager T
  serve (gets reuse k) m = (get_lock reuse fresh k m).0
  serve (releases p) m = release_lock p m
  serve (drops p) m =
      write p (record (m.object p) { ref_count = decrement32 (m.object p).ref_count }) m
  serve (collects p) m = cleanup_lock p m
  serve (finishes i p) m = if ltb i m.shard_count then finish_cleanup i p m else m
  serve (refills i ps) m =
      if ltb i m.shard_count then write_shard i (record (m.shards i) { pool = ps }) m else m
  serve (cleans now) m = perform_cleanup now m
  serve (sweeps i now) m =
      if ltb i m.shard_count then retire_all i (collect now m (m.shards i).locks) m else m
  serve (acts p method) m = write p (method (m.object p)) m

  unfoldable pub run_history : List (ManagerEvent T) → ShardedLockManager T → ShardedLockManager T
  unfolding serve
  run_history [] m = m
  run_history (e ∷ es) m = run_history es (serve e m)

  -- A method leaves the key and the shard of its object.
  abbrev pub Keeps : List (ManagerEvent T) → Type 0
  Keeps [] = Unit {0}
  Keeps (gets reuse k ∷ es) = Keeps es
  Keeps (releases p ∷ es) = Keeps es
  Keeps (drops p ∷ es) = Keeps es
  Keeps (collects p ∷ es) = Keeps es
  Keeps (finishes i p ∷ es) = Keeps es
  Keeps (refills i ps ∷ es) = Keeps es
  Keeps (cleans now ∷ es) = Keeps es
  Keeps (sweeps i now ∷ es) = Keeps es
  Keeps (acts p method ∷ es) =
      ((l : ShardedLock T) → ((method l).key ≡ l.key) × ((method l).shard ≡ l.shard)) × Keeps es

  -- The late part of a `cleanupLock` finds its object in the shard that it read, so no other cleanup has
  -- retired the object in between; and a pool gives what it has, each object once.
  abbrev pub IsTimely : ManagerEvent T → ShardedLockManager T → Type 0
  IsTimely (gets reuse k) m = Unit {0}
  IsTimely (releases p) m = Unit {0}
  IsTimely (drops p) m = Unit {0}
  IsTimely (collects p) m = Unit {0}
  IsTimely (finishes i p) m = (m.object p).shard ≡ some i
  IsTimely (refills i ps) m = Distinct ps × ((p : ℕ) → In p ps → In p (m.shards i).pool)
  IsTimely (cleans now) m = Unit {0}
  IsTimely (sweeps i now) m = Unit {0}
  IsTimely (acts p method) m = Unit {0}

  abbrev pub Timely : List (ManagerEvent T) → ShardedLockManager T → Type 0
  Timely [] m = Unit {0}
  Timely (e ∷ es) m = IsTimely e m × Timely es (serve e m)

  pub finish-cleanup :
      (i p : ℕ) (m : ShardedLockManager T)
      → (m.object p).shard ≡ some i
      → cleanup_lock p m ≡ finish_cleanup i p m
  unfolding cleanup_lock
  finish-cleanup i p m e = rw (e, cleanup_lock) refl

  pub serve-IsSound :
      (e : ManagerEvent T) (m : ShardedLockManager T)
      → Keeps (e ∷ [])
      → IsTimely e m
      → IsSound m
      → IsSound (serve e m)
  unfolding serve
  serve-IsSound (gets reuse k) m h t s = get_lock-IsSound reuse fresh k m s
  serve-IsSound (releases p) m h t s = release_lock-IsSound p m s
  serve-IsSound (drops p) m h t s = write-IsSound p _ m refl refl s
  serve-IsSound (collects p) m h t s = cleanup_lock-IsSound p m s
  serve-IsSound (finishes i p) m h t s = elim (Bool-cases (ltb i m.shard_count)) [
    | inl within ↦
        rw (serve, within) (subst IsSound (finish-cleanup i p m t) (cleanup_lock-IsSound p m s))
    | inr past ↦ rw (serve, past) s
  ]
  serve-IsSound (refills i ps) m h t s = elim (Bool-cases (ltb i m.shard_count)) [
    | inl within ↦ rw (serve, within) (refill-IsSound i ps m t.0 t.1 s)
    | inr past ↦ rw (serve, past) s
  ]
  serve-IsSound (sweeps i now) m h t s = elim (Bool-cases (ltb i m.shard_count)) [
    | inl within ↦ rw (serve, within) (clean_shard-IsSound i now m s)
    | inr past ↦ rw (serve, past) s
  ]
  serve-IsSound (cleans now) m h t s = perform_cleanup-IsSound now m s
  serve-IsSound (acts p method) m h t s =
      let (a, b) = h.0 (m.object p) in write-IsSound p (method (m.object p)) m a b s

  pub Keeps-first :
      (e : ManagerEvent T) (es : List (ManagerEvent T)) → Keeps (e ∷ es) → Keeps (e ∷ []) × Keeps es
  Keeps-first (gets reuse k) es h = (tt, h)
  Keeps-first (releases p) es h = (tt, h)
  Keeps-first (drops p) es h = (tt, h)
  Keeps-first (collects p) es h = (tt, h)
  Keeps-first (finishes i p) es h = (tt, h)
  Keeps-first (refills i ps) es h = (tt, h)
  Keeps-first (cleans now) es h = (tt, h)
  Keeps-first (sweeps i now) es h = (tt, h)
  Keeps-first (acts p method) es h = ((h.0, tt), h.1)

  pub run_history-IsSound :
      (es : List (ManagerEvent T)) (m : ShardedLockManager T)
      → Keeps es
      → Timely es m
      → IsSound m
      → IsSound (run_history es m)
  unfolding run_history
  run_history-IsSound [] m h t s = s
  run_history-IsSound (e ∷ es) m h t s =
      let (first, rest) = Keeps-first e es h in
      run_history-IsSound es (serve e m) rest t.1 (serve-IsSound e m first t.0 s)

  pub new_manager-IsSound : (count : ℕ) → IsSound (new_sharded_lock_manager count fresh)
  unfolding new_sharded_lock_manager new_object
  new_manager-IsSound count = record {
    named = λ i k p here. absurd here;
    single = λ i. tt;
    pooled = λ i p here. absurd here;
    once = λ i. tt;
    apart = λ i j p here there. absurd here;
    unused = λ p late. refl;
  }

  -- A new manager of `count` shards, after a history.
  unfoldable pub served : List (ManagerEvent T) → ℕ → ShardedLockManager T
  unfolding run_history
  served es count = run_history es (new_sharded_lock_manager count fresh)

  pub served-IsSound :
      (es : List (ManagerEvent T)) (count : ℕ)
      → Keeps es
      → Timely es (new_sharded_lock_manager count fresh)
      → IsSound (served es count)
  unfolding served
  served-IsSound es count h t = run_history-IsSound es _ h t (new_manager-IsSound count)

  -- After any history of a new manager, in which methods leave the key and the shard of their object, and no
  -- cleanup retires an object between the two parts of a `cleanupLock` of it: if the table gives an object for two keys, then the keys are equal, the object has that key, and it is in
  -- the shard of the key.
  pub served-table :
      (es : List (ManagerEvent T)) (count : ℕ) (k j : String) (p : ℕ)
      → Keeps es
      → Timely es (new_sharded_lock_manager count fresh)
      → table k (served es count) ≡ some p
      → table j (served es count) ≡ some p
      → (k ≡ j)
        × (((served es count).object p).key ≡ k)
        × (((served es count).object p).shard ≡ some (shard_index (served es count).shard_mask k))
  unfolding table served
  served-table es count k j p h t e f =
      let s = served-IsSound es count h t in
      let (a, b, c) = s.named _ k p (lookup-InTable k p _ e) in
      let (x, y, z) = s.named _ j p (lookup-InTable j p _ f) in (sym a ∙ x, a, b)
