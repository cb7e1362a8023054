-- ===== src/Shard/Manager/Sound/References.antt =====
-- What the reference count of a manager's object is for: while two references or more are kept, the key
-- keeps its object.
use x_ailock.Base.{
  subst, ℕ, suc, ◌+◌, ◌^◌, ◌≤◌, ◌<◌, ltb, Bool, String, some, List, [], ◌∷◌, length, ◌≡◌, ◌≢◌, refl,
  sym, ◌∙◌, ap, inl, inr, arith, Bool-cases,
}
use x_ailock.Shard.Lock.{ShardedLock}
use x_ailock.Shard.Index.{shard_index}
use x_ailock.Shard.Manager.{ShardedLockManager, lookup, get_lock, new_object}
use x_ailock.Shard.Manager.Stats.{new_sharded_lock_manager}
use x_ailock.Shard.Manager.Table.{table, get_lock-found}
use x_ailock.Shard.Manager.Sound.{IsSound, lookup-InTable}
use x_ailock.Shard.Manager.Sound.Taking.{other_false}
use x_ailock.Shard.Manager.Sound.Homed.{
  Homed, pool-Homed, get_lock-Homed, write-Homed, release_lock-Homed, cleanup_lock-Homed,
  clean_shard-Homed, perform_cleanup-Homed,
}
use x_ailock.Shard.Manager.Sound.Kept.{
  IsKept, clean_shard-object, perform_cleanup-object, cleanup_lock-object, release_lock-object,
  later, get_lock-IsKept, acted-IsKept,
}
use x_ailock.Shard.Manager.Sound.History.{
  ManagerEvent, gets, releases, drops, collects, finishes, refills, cleans, sweeps, acts, Keeps,
  Keeps-first, IsTimely, Timely, finish-cleanup, serve, serve-IsSound, run_history, served,
  new_manager-IsSound, run_history-IsSound, served-IsSound, served-table,
}

module _ {T : Type 0} (fresh : T) where
  serve-Homed :
      (e : ManagerEvent T) (m : ShardedLockManager T)
      → Keeps fresh (e ∷ [])
      → IsTimely fresh e m
      → IsSound m
      → Homed m
      → Homed (serve fresh e m)
  unfolding serve
  serve-Homed (gets reuse k) m c t s h = get_lock-Homed reuse fresh k m h
  serve-Homed (releases p) m c t s h = release_lock-Homed p m h
  serve-Homed (drops p) m c t s h = write-Homed p _ m refl refl h
  serve-Homed (collects p) m c t s h = cleanup_lock-Homed p m h
  serve-Homed (finishes i p) m c t s h = elim (Bool-cases (ltb i m.shard_count)) [
    | inl within ↦
        rw (serve, within) (subst Homed (finish-cleanup fresh i p m t) (cleanup_lock-Homed p m h))
    | inr past ↦ rw (serve, past) h
  ]
  serve-Homed (refills i ps) m c t s h = elim (Bool-cases (ltb i m.shard_count)) [
    | inl within ↦ rw (serve, within) (pool-Homed i ps m h)
    | inr past ↦ rw (serve, past) h
  ]
  serve-Homed (sweeps i now) m c t s h = elim (Bool-cases (ltb i m.shard_count)) [
    | inl within ↦ rw (serve, within) (clean_shard-Homed i now m s h)
    | inr past ↦ rw (serve, past) h
  ]
  serve-Homed (cleans now) m c t s h = perform_cleanup-Homed now m s h
  serve-Homed (acts p method) m c t s h =
      let (a, b) = c.0 (m.object p) in write-Homed p (method (m.object p)) m a b h

  run_history-Homed :
      (es : List (ManagerEvent T)) (m : ShardedLockManager T)
      → Keeps fresh es
      → Timely fresh es m
      → IsSound m
      → Homed m
      → Homed (run_history fresh es m)
  unfolding run_history
  run_history-Homed [] m c t s h = h
  run_history-Homed (e ∷ es) m c t s h =
      let (first, rest) = Keeps-first fresh e es c in
      run_history-Homed es (serve fresh e m) rest t.1 (serve-IsSound fresh e m first t.0 s)
        (serve-Homed e m first t.0 s h)

  served-Homed :
      (es : List (ManagerEvent T)) (count : ℕ)
      → Keeps fresh es
      → Timely fresh es (new_sharded_lock_manager count fresh)
      → Homed (served fresh es count)
  unfolding served
  served-Homed es count c t =
      run_history-Homed es _ c t (new_manager-IsSound fresh count)
        (unfold new_sharded_lock_manager new_object in λ q i e. ground arith)

  -- No reference of the object is given up, and no method touches a count of references.
  abbrev pub Spares : ℕ → List (ManagerEvent T) → Type 0
  Spares p [] = Unit {0}
  Spares p (gets reuse k ∷ es) = Spares p es
  Spares p (releases q ∷ es) = (q ≢ p) × Spares p es
  Spares p (drops q ∷ es) = (q ≢ p) × Spares p es
  Spares p (collects q ∷ es) = Spares p es
  Spares p (finishes i q ∷ es) = Spares p es
  Spares p (refills i qs ∷ es) = Spares p es
  Spares p (cleans now ∷ es) = Spares p es
  Spares p (sweeps i now ∷ es) = Spares p es
  Spares p (acts q method ∷ es) =
      ((l : ShardedLock T) → (method l).ref_count ≡ l.ref_count) × Spares p es

  Spares-first :
      (p : ℕ) (e : ManagerEvent T) (es : List (ManagerEvent T))
      → Spares p (e ∷ es)
      → Spares p (e ∷ []) × Spares p es
  Spares-first p (gets reuse k) es d = (tt, d)
  Spares-first p (releases q) es d = ((d.0, tt), d.1)
  Spares-first p (drops q) es d = ((d.0, tt), d.1)
  Spares-first p (collects q) es d = (tt, d)
  Spares-first p (finishes i q) es d = (tt, d)
  Spares-first p (refills i qs) es d = (tt, d)
  Spares-first p (cleans now) es d = (tt, d)
  Spares-first p (sweeps i now) es d = (tt, d)
  Spares-first p (acts q method) es d = ((d.0, tt), d.1)

module _ {T : Type 0} (fresh : T) (k : String) (i p : ℕ) where
  serve-IsKept :
      (e : ManagerEvent T) (top : ℕ) (m : ShardedLockManager T)
      → top < 2 ^ 31
      → Keeps fresh (e ∷ [])
      → IsTimely fresh e m
      → Spares fresh p (e ∷ [])
      → IsSound m
      → Homed m
      → IsKept k i top (m.object p)
      → IsKept k i (suc top) ((serve fresh e m).object p)
  unfolding serve
  serve-IsKept (gets reuse j) top m b c t d s h v =
      get_lock-IsKept fresh k i p top reuse j m b s h v
  serve-IsKept (releases q) top m b c t d s h v =
      later fresh k i p top (release_lock-object k i top p b q m d.0 v) v
  serve-IsKept (drops q) top m b c t d s h v = later fresh k i p top (rw (other_false d.0) refl) v
  serve-IsKept (collects q) top m b c t d s h v =
      later fresh k i p top (cleanup_lock-object k i top p b q m v) v
  serve-IsKept (finishes j q) top m b c t d s h v = elim (Bool-cases (ltb j m.shard_count)) [
    | inl within ↦
        rw (serve, within)
          (subst (λ x. IsKept k i (suc top) (x.object p)) (finish-cleanup fresh j q m t)
            (later fresh k i p top (cleanup_lock-object k i top p b q m v) v))
    | inr past ↦ rw (serve, past) (later fresh k i p top refl v)
  ]
  serve-IsKept (refills j qs) top m b c t d s h v = elim (Bool-cases (ltb j m.shard_count)) [
    | inl within ↦ rw (serve, within) (later fresh k i p top refl v)
    | inr past ↦ rw (serve, past) (later fresh k i p top refl v)
  ]
  serve-IsKept (cleans now) top m b c t d s h v =
      later fresh k i p top (perform_cleanup-object k i top p b now m v) v
  serve-IsKept (sweeps j now) top m b c t d s h v = elim (Bool-cases (ltb j m.shard_count)) [
    | inl within ↦
        rw (serve, within) (later fresh k i p top (clean_shard-object k i top p b j now m v) v)
    | inr past ↦ rw (serve, past) (later fresh k i p top refl v)
  ]
  serve-IsKept (acts q method) top m b c t d s h v =
      acted-IsKept fresh k i p top q method m c.0 d.0 v

  run_history-IsKept :
      (es : List (ManagerEvent T)) (top limit : ℕ) (m : ShardedLockManager T)
      → top + length es ≤ limit
      → limit < 2 ^ 31
      → Keeps fresh es
      → Timely fresh es m
      → Spares fresh p es
      → IsSound m
      → Homed m
      → IsKept k i top (m.object p)
      → IsKept k i limit ((run_history fresh es m).object p)
  unfolding run_history
  run_history-IsKept [] top limit m a b c t d s h v = record {
    named = v.named;
    placed = v.placed;
    shared = v.shared;
    bounded = omega (arith, a, v.bounded);
  }
  run_history-IsKept (e ∷ es) top limit m a b c t d s h v =
      let (first, rest) = Keeps-first fresh e es c in
      let (spares, others) = Spares-first fresh p e es d in
      run_history-IsKept es (suc top) limit (serve fresh e m) (omega (arith, a)) b rest t.1 others
        (serve-IsSound fresh e m first t.0 s) (serve-Homed fresh e m first t.0 s h)
        (serve-IsKept e top m (omega (arith, a, b)) first t.0 spares s h v)

-- Two references keep an object. Say that a manager's table gives an object for a key, after any history,
-- and that the object has two references or more. Then in every later history, cleanups at any time and
-- releases of other objects included, in which no reference of this object is given up, the methods leave
-- the key, the shard and the reference count of their object, and the count stays an int32, and if in
-- neither history a cleanup retires an object between the two parts of a `cleanupLock` of it: the table
-- gives the key that object, which has two references or more, and `GetLock` of the key returns it.
pub shared_object_stays :
    {T : Type 0} (fresh : T) (before after : List (ManagerEvent T)) (count : ℕ) (k : String) (p : ℕ)
    (reuse : Bool)
    → Keeps fresh before
    → Timely fresh before (new_sharded_lock_manager count fresh)
    → Keeps fresh after
    → Timely fresh after (served fresh before count)
    → Spares fresh p after
    → table k (served fresh before count) ≡ some p
    → 2 ≤ ((served fresh before count).object p).ref_count
    → ((served fresh before count).object p).ref_count + length after < 2 ^ 31
    → let m = run_history fresh after (served fresh before count) in
      (table k m ≡ some p) × (2 ≤ (m.object p).ref_count) × ((get_lock reuse fresh k m).1 ≡ p)
shared_object_stays fresh before after count k p reuse c t c' t' d e shared bounded =
    let m = served fresh before count in
    let (_, named, placed) = served-table fresh before count k k p c t e e in
    let s = served-IsSound fresh before count c t in
    let h = served-Homed fresh before count c t in
    let kept =
      run_history-IsKept fresh k (shard_index m.shard_mask k) p after (m.object p).ref_count
        ((m.object p).ref_count + length after) m (omega arith) bounded c' t' d s h
        (record { named = named; placed = placed; shared = shared; bounded = omega arith }) in
    let m' = run_history fresh after m in
    let s' = run_history-IsSound fresh after m c' t' s in
    let at : lookup k (m'.shards (shard_index m.shard_mask k)).locks ≡ some p =
      ap (λ x. lookup x (m'.shards (shard_index m.shard_mask k)).locks) (sym kept.named)
      ∙ run_history-Homed fresh after m c' t' s h p _ kept.placed in
    let (_, _, here) = s'.named _ k p (lookup-InTable k p _ at) in
    let found : table k m' ≡ some p =
      unfold table in (ap (λ x. lookup k (m'.shards x).locks) (sym here) ∙ at) in
    (found, kept.shared, get_lock-found reuse fresh k p m' found)
