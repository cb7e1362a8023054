-- ===== src/Shard/Manager/Sound/Range.antt =====
-- The bounds of a manager: no operation reaches a shard that the manager does not have.
use x_ailock.Base.{
  ℕ, zero, suc, ◌+◌, ◌-◌, ◌^◌, ◌≤◌, ◌<◌, ◌==◌, ℤ, pos, ◌≤ℤ◌, ltb, leb_ℤ, ltb_ℤ, true, false, Bool,
  String, some, List, [], ◌∷◌, ◌≡◌, refl, sym, ◌∙◌, inl, inr, arith, Bool-cases, Option-cases,
}
use x_ailock.Shard.Lock.{ShardedLock, to_int32, decrement32}
use x_ailock.Shard.Index.{shard_index, actual_shard_count}
use x_ailock.Shard.Index.PowerOfTwo.{actual_shard_count-pow, shard_index-mod}
use x_ailock.Shard.Manager.{
  ShardedLockManager, LockShard, write, write_shard, pool_get, enter, get_lock, reset, retire,
  cleanup_lock, finish_cleanup, release_lock, collect, retire_all, clean_shards, perform_cleanup,
  new_object,
}
use x_ailock.Shard.Manager.Table.{table, get_lock_old, get_lock_new}
use x_ailock.Shard.Manager.Stats.{new_sharded_lock_manager}
use x_ailock.Shard.Manager.Sound.History.{
  ManagerEvent, gets, releases, drops, collects, finishes, refills, cleans, sweeps, acts, Keeps,
  serve, run_history, served,
}

module _ {T : Type 0} (count : ℕ) where
  -- The manager has `count` shards, every object is in one of them or in none, and nothing was written
  -- past the last one.
  pub record InRange (m : ShardedLockManager T) : Type 0 where
    pub counted : m.shard_count ≡ count
    pub masked : m.shard_mask ≡ count - 1
    pub placed : (p i : ℕ) → (m.object p).shard ≡ some i → i < count
    pub untouched : (i : ℕ) → count ≤ i → m.shards i ≡ record { locks = []; pool = [] }

  write-InRange :
      (p : ℕ) (l : ShardedLock T) (m : ShardedLockManager T)
      → ((i : ℕ) → l.shard ≡ some i → i < count)
      → InRange m
      → InRange (write p l m)
  write-InRange p l m h r = record {
    counted = r.counted;
    masked = r.masked;
    placed = λ q i e. elim (Bool-cases (p == q)) [
      | inl same ↦ h i (rw same at e)
      | inr other ↦ r.placed q i (rw other at e)
    ];
    untouched = r.untouched;
  }

  write_shard-InRange :
      (i : ℕ) (s : LockShard) (m : ShardedLockManager T)
      → i < count
      → InRange m
      → InRange (write_shard i s m)
  write_shard-InRange i s m b r = record {
    counted = r.counted;
    masked = r.masked;
    placed = r.placed;
    untouched =
        λ j late. let other : (i == j) ≡ false = ground arith in rw other (r.untouched j late);
  }

  fresh-InRange :
      (fresh : T) (m : ShardedLockManager T)
      → InRange m
      → InRange (record (write m.next (new_object fresh) m) { next = suc m.next })
  unfolding new_object
  fresh-InRange fresh m r =
      let w = write-InRange m.next (new_object fresh) m (λ i e. ground arith) r in
      record { counted = w.counted; masked = w.masked; placed = w.placed; untouched = w.untouched }

  pool_get-InRange :
      (reuse : Bool) (fresh : T) (i : ℕ) (m : ShardedLockManager T)
      → i < count
      → InRange m
      → InRange (pool_get reuse fresh i m).0
  unfolding pool_get
  pool_get-InRange reuse fresh i m b r = go (m.shards i).pool reuse refl refl
    where
      go :
          (q : List ℕ) (c : Bool)
          → (m.shards i).pool ≡ q
          → reuse ≡ c
          → InRange (pool_get reuse fresh i m).0
      go [] c e f = rw (e, pool_get) (fresh-InRange fresh m r)
      go (p ∷ rest) true e f = rw (e, pool_get, f) (write_shard-InRange i _ m b r)
      go (p ∷ rest) false e f = rw (e, pool_get, f) (fresh-InRange fresh m r)

  enter-InRange :
      (i : ℕ) (k : String) (m : ShardedLockManager T) (p : ℕ)
      → i < count
      → InRange m
      → InRange (enter i k (m, p)).0
  unfolding enter
  enter-InRange i k m p b r =
      write_shard-InRange i _ _ b (write-InRange p _ m (λ j e. ground (arith, b, e)) r)

  retire-InRange :
      (i p : ℕ) (m : ShardedLockManager T) → i < count → InRange m → InRange (retire i p m)
  unfolding retire reset
  retire-InRange i p m b r =
      write_shard-InRange i _ _ b (write-InRange p (reset (m.object p)) m (λ j e. ground arith) r)

  finish_cleanup-InRange :
      (i p : ℕ) (m : ShardedLockManager T) → i < count → InRange m → InRange (finish_cleanup i p m)
  unfolding finish_cleanup
  finish_cleanup-InRange i p m b r =
      elim (Bool-cases (ltb_ℤ (pos 0) (to_int32 (m.object p).ref_count))) [
        | inl more ↦ rw (finish_cleanup, more) r
        | inr last ↦ rw (finish_cleanup, last) (retire-InRange i p m b r)
      ]

  cleanup_lock-InRange : (p : ℕ) (m : ShardedLockManager T) → InRange m → InRange (cleanup_lock p m)
  unfolding cleanup_lock
  cleanup_lock-InRange p m r = elim (Option-cases (m.object p).shard) [
    | inl e ↦ rw (cleanup_lock, e) r
    | inr (i, e) ↦ rw (cleanup_lock, e) (finish_cleanup-InRange i p m (r.placed p i e) r)
  ]

  release_lock-InRange : (p : ℕ) (m : ShardedLockManager T) → InRange m → InRange (release_lock p m)
  unfolding release_lock
  release_lock-InRange p m r =
      let less = decrement32 (m.object p).ref_count in
      let w = write-InRange p (record (m.object p) { ref_count = less }) m (r.placed p) r in
      elim (Bool-cases (leb_ℤ (to_int32 less) (pos 0))) [
        | inl last ↦ rw last (cleanup_lock-InRange p _ w)
        | inr more ↦ rw more w
      ]

  retire_all-InRange :
      (i : ℕ) (ps : List ℕ) (m : ShardedLockManager T)
      → i < count
      → InRange m
      → InRange (retire_all i ps m)
  unfolding retire_all
  retire_all-InRange i [] m b r = r
  retire_all-InRange i (p ∷ ps) m b r = retire_all-InRange i ps _ b (retire-InRange i p m b r)

  clean_shards-InRange :
      (n i : ℕ) (now : ℤ) (m : ShardedLockManager T)
      → i + n ≤ count
      → InRange m
      → InRange (clean_shards n i now m)
  unfolding clean_shards
  clean_shards-InRange zero i now m b r = r
  clean_shards-InRange (suc n) i now m b r =
      clean_shards-InRange n (suc i) now _ (omega (arith, b))
        (retire_all-InRange i (collect now m (m.shards i).locks) m (omega (arith, b)) r)

  perform_cleanup-InRange :
      (now : ℤ) (m : ShardedLockManager T) → InRange m → InRange (perform_cleanup now m)
  unfolding perform_cleanup
  perform_cleanup-InRange now m r =
      clean_shards-InRange m.shard_count 0 now m (omega (arith, r.counted)) r

  module _ (covers : (k : String) → shard_index (count - 1) k < count) (fresh : T) where
    get_lock-InRange :
        (reuse : Bool) (k : String) (m : ShardedLockManager T)
        → InRange m
        → InRange (get_lock reuse fresh k m).0
    get_lock-InRange reuse k m r =
        let i = shard_index m.shard_mask k in
        let b : i < count = rw r.masked (covers k) in
        elim (Option-cases (table k m)) [
          | inr (p, e) ↦ rw (get_lock_old reuse fresh k m p e) (write-InRange p _ m (r.placed p) r)
          | inl e ↦
              rw (get_lock_new reuse fresh k m e)
                (enter-InRange i k _ _ b (pool_get-InRange reuse fresh i m b r))
        ]

    run_history-InRange :
        (es : List (ManagerEvent T)) (m : ShardedLockManager T)
        → Keeps fresh es
        → InRange m
        → InRange (run_history fresh es m)
    unfolding run_history serve
    run_history-InRange [] m h r = r
    run_history-InRange (gets reuse k ∷ es) m h r =
        run_history-InRange es _ h (get_lock-InRange reuse k m r)
    run_history-InRange (releases p ∷ es) m h r =
        run_history-InRange es _ h (release_lock-InRange p m r)
    run_history-InRange (drops p ∷ es) m h r =
        run_history-InRange es _ h (write-InRange p _ m (r.placed p) r)
    run_history-InRange (collects p ∷ es) m h r =
        run_history-InRange es _ h (cleanup_lock-InRange p m r)
    run_history-InRange (finishes i p ∷ es) m h r = elim (Bool-cases (ltb i m.shard_count)) [
      | inl within ↦
          rw (run_history, serve, within)
            (run_history-InRange es _ h
              (finish_cleanup-InRange i p m (ground (arith, within, r.counted)) r))
      | inr past ↦ rw (run_history, serve, past) (run_history-InRange es m h r)
    ]
    run_history-InRange (refills i ps ∷ es) m h r = elim (Bool-cases (ltb i m.shard_count)) [
      | inl within ↦
          rw (run_history, serve, within)
            (run_history-InRange es _ h
              (write_shard-InRange i _ m (ground (arith, within, r.counted)) r))
      | inr past ↦ rw (run_history, serve, past) (run_history-InRange es m h r)
    ]
    run_history-InRange (sweeps i now ∷ es) m h r = elim (Bool-cases (ltb i m.shard_count)) [
      | inl within ↦
          rw (run_history, serve, within)
            (run_history-InRange es _ h (
              retire_all-InRange i (collect now m (m.shards i).locks) m
                (ground (arith, within, r.counted)) r))
      | inr past ↦ rw (run_history, serve, past) (run_history-InRange es m h r)
    ]
    run_history-InRange (cleans now ∷ es) m h r =
        run_history-InRange es _ h (perform_cleanup-InRange now m r)
    run_history-InRange (acts p method ∷ es) m h r =
        let (a, b) = h.0 (m.object p) in
        run_history-InRange es _ h.1
          (write-InRange p (method (m.object p)) m (λ i e. r.placed p i (sym b ∙ e)) r)

    served-InRange : (es : List (ManagerEvent T)) → Keeps fresh es → InRange (served fresh es count)
    unfolding served new_sharded_lock_manager new_object
    served-InRange es h = run_history-InRange es _ h (record {
      counted = refl;
      masked = refl;
      placed = λ p i e. ground arith;
      untouched = λ i late. refl;
    })

-- For a request of at most 2^31 shards, the number of shards is found, and a manager of that many stays
-- within them, whatever it serves, as long as methods leave the key and the shard of their object: the
-- index of every key is below the number of shards, an object is in one of them or in none, and nothing is
-- ever written past the last one.
pub served-within :
    {T : Type 0} (fresh : T) (n : ℤ) (es : List (ManagerEvent T))
    → n ≤ℤ pos (2 ^ 31)
    → Keeps fresh es
    → (count : ℕ) × (actual_shard_count 32 n ≡ some count)
      × ((served fresh es count).shard_count ≡ count)
      × ((k : String) → shard_index (served fresh es count).shard_mask k < count)
      × ((p i : ℕ) → ((served fresh es count).object p).shard ≡ some i → i < count)
      × ((i : ℕ) → count ≤ i → (served fresh es count).shards i ≡ record { locks = []; pool = [] })
served-within fresh n es h keeps =
    let (j, found, _, _) = actual_shard_count-pow n h in
    let covers : (k : String) → shard_index (2 ^ j - 1) k < 2 ^ j = λ k. (shard_index-mod j k).1 in
    let r = served-InRange (2 ^ j) covers fresh es keeps in
    (2 ^ j, found, r.counted, (λ k. rw r.masked (covers k)), r.placed, r.untouched)
