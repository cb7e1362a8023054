-- ===== src/Shard/Manager/Sound/Homed.antt =====
-- An object that belongs to a shard is the one that the shard's table gives for its key.
use x_ailock.Base.{
  ℕ, zero, suc, ◌==◌, ℤ, pos, leb_ℤ, ltb_ℤ, true, false, Bool, String, none, some, List, [], ◌∷◌,
  ◌≡◌, ◌≢◌, refl, sym, ◌∙◌, ap, inl, inr, arith, Bool-cases, Option-cases, subst, eq_iff,
}
use x_ailock.Shard.Lock.{ShardedLock, to_int32, decrement32}
use x_ailock.Shard.Index.{shard_index}
use x_ailock.Shard.Manager.{
  ShardedLockManager, lookup, write, write_shard, pool_get, enter, get_lock, reset, retire,
  cleanup_lock, finish_cleanup, release_lock, collect, retire_all, clean_shards, perform_cleanup,
  new_object,
}
use x_ailock.Shard.Manager.Table.{lookup-delete, table, get_lock_old, get_lock_new}
use x_ailock.Shard.Manager.Sound.{In, Distinct, IsSound}
use x_ailock.Shard.Manager.Sound.Cleaning.{
  retire-other, collect-InTable, collect-Distinct, clean_shard-IsSound,
}

module _ {T : Type 0} where
  abbrev pub Homed : ShardedLockManager T → Type 0
  Homed m =
      (q i : ℕ) → (m.object q).shard ≡ some i → lookup (m.object q).key (m.shards i).locks ≡ some q

  pub write-Homed :
      (p : ℕ) (l : ShardedLock T) (m : ShardedLockManager T)
      → l.key ≡ (m.object p).key
      → l.shard ≡ (m.object p).shard
      → Homed m
      → Homed (write p l m)
  write-Homed p l m a b h q i e = elim (Bool-cases (p == q)) [
    | inl same ↦
        let p_q : p ≡ q = ground arith in
        rw (same, a) (h p i (sym b ∙ (rw same at e)) ∙ ap some p_q)
    | inr other ↦ rw other (h q i (rw other at e))
  ]

  -- Neither a new object nor a change of the pools moves an object.
  fresh-Homed :
      (fresh : T) (m : ShardedLockManager T)
      → Homed m
      → Homed (record (write m.next (new_object fresh) m) { next = suc m.next })
  unfolding new_object
  fresh-Homed fresh m h q i e = elim (Bool-cases (m.next == q)) [
    | inl same ↦ ground arith
    | inr other ↦ rw other (h q i (rw other at e))
  ]

  pub pool-Homed :
      (i : ℕ) (rest : List ℕ) (m : ShardedLockManager T)
      → Homed m
      → Homed (write_shard i (record (m.shards i) { pool = rest }) m)
  pool-Homed i rest m h q j e = elim (Bool-cases (i == j)) [
    | inl same ↦
        let i_j : i ≡ j = ground arith in
        rw same
          (subst (λ x. lookup (m.object q).key (m.shards x).locks ≡ some q) (sym i_j) (h q j e))
    | inr other ↦ rw other (h q j e)
  ]

  pub pool_get-Homed :
      (reuse : Bool) (fresh : T) (i : ℕ) (m : ShardedLockManager T)
      → Homed m
      → Homed (pool_get reuse fresh i m).0
        × (((pool_get reuse fresh i m).0.shards i).locks ≡ (m.shards i).locks)
  unfolding pool_get
  pool_get-Homed reuse fresh i m h = go (m.shards i).pool reuse refl refl
    where
      go :
          (q : List ℕ) (c : Bool)
          → (m.shards i).pool ≡ q
          → reuse ≡ c
          → Homed (pool_get reuse fresh i m).0
            × (((pool_get reuse fresh i m).0.shards i).locks ≡ (m.shards i).locks)
      go [] c e f = rw (e, pool_get) (fresh-Homed fresh m h, refl)
      go (p ∷ rest) true e f = rw (e, pool_get, f) (pool-Homed i rest m h, ground arith)
      go (p ∷ rest) false e f = rw (e, pool_get, f) (fresh-Homed fresh m h, refl)

  enter-Homed :
      (i : ℕ) (k : String) (p : ℕ) (m : ShardedLockManager T)
      → lookup k (m.shards i).locks ≡ none
      → Homed m
      → Homed (enter i k (m, p)).0
  unfolding enter lookup
  enter-Homed i k p m gone h q j e = elim (Bool-cases (p == q)) [
    | inl same ↦
        let i_j : some i ≡ some j = rw same at e in
        let p_q : p ≡ q = ground arith in ground (arith, i_j, p_q, eq_iff k k)
    | inr other ↦
        let e' : (m.object q).shard ≡ some j = rw other at e in
        elim (Bool-cases (i == j)) [
          | inl here ↦
              let i_j : i ≡ j = ground arith in
              let at : lookup (m.object q).key (m.shards i).locks ≡ some q =
                subst (λ x. lookup (m.object q).key (m.shards x).locks ≡ some q) (sym i_j)
                  (h q j e') in
              let another : k ≢ (m.object q).key =
                λ z. ground (arith, gone, at, ap (λ x. lookup x (m.shards i).locks) z) in
              rw (other, here) (ground (arith, another, at, eq_iff k (m.object q).key))
          | inr there ↦ rw (other, there) (h q j e')
        ]
  ]

  retire-Homed :
      (i p : ℕ) (m : ShardedLockManager T)
      → (m.object p).shard ≡ some i
      → Homed m
      → Homed (retire i p m)
  unfolding retire reset
  retire-Homed i p m placed h q j e = elim (Bool-cases (p == q)) [
    | inl same ↦ ground arith
    | inr other ↦
        let e' : (m.object q).shard ≡ some j = rw other at e in
        elim (Bool-cases (i == j)) [
          | inl here ↦
              let i_j : i ≡ j = ground arith in
              let at : lookup (m.object q).key (m.shards i).locks ≡ some q =
                subst (λ x. lookup (m.object q).key (m.shards x).locks ≡ some q) (sym i_j)
                  (h q j e') in
              let another : (m.object p).key ≢ (m.object q).key =
                λ z. ground (arith, at, h p i placed, ap (λ x. lookup x (m.shards i).locks) z) in
              rw (other, here)
                (ground (
                  arith,
                  another,
                  at,
                  lookup-delete (m.object p).key (m.object q).key (m.shards i).locks,
                  eq_iff (m.object p).key (m.object q).key,
                ))
          | inr there ↦ rw (other, there) (h q j e')
        ]
  ]

  pub get_lock-Homed :
      (reuse : Bool) (fresh : T) (k : String) (m : ShardedLockManager T)
      → Homed m
      → Homed (get_lock reuse fresh k m).0
  get_lock-Homed reuse fresh k m h = elim (Option-cases (table k m)) [
    | inr (p, e) ↦ rw (get_lock_old reuse fresh k m p e) (write-Homed p _ m refl refl h)
    | inl e ↦
        let i = shard_index m.shard_mask k in
        let (a, b) = pool_get-Homed reuse fresh i m h in
        let gone : lookup k (m.shards i).locks ≡ none = unfold table in e in
        rw (get_lock_new reuse fresh k m e) (
          enter-Homed i k (pool_get reuse fresh i m).1 (pool_get reuse fresh i m).0
            (ap (lookup k) b ∙ gone) a)
  ]

  pub cleanup_lock-Homed : (p : ℕ) (m : ShardedLockManager T) → Homed m → Homed (cleanup_lock p m)
  unfolding cleanup_lock finish_cleanup
  cleanup_lock-Homed p m h = elim (Option-cases (m.object p).shard) [
    | inl e ↦ rw (cleanup_lock, e) h
    | inr (i, e) ↦ elim (Bool-cases (ltb_ℤ (pos 0) (to_int32 (m.object p).ref_count))) [
      | inl more ↦ rw (cleanup_lock, e, finish_cleanup, more) h
      | inr last ↦ rw (cleanup_lock, e, finish_cleanup, last) (retire-Homed i p m e h)
    ]
  ]

  pub release_lock-Homed : (p : ℕ) (m : ShardedLockManager T) → Homed m → Homed (release_lock p m)
  unfolding release_lock
  release_lock-Homed p m h =
      let less = decrement32 (m.object p).ref_count in
      let w = write-Homed p (record (m.object p) { ref_count = less }) m refl refl h in
      elim (Bool-cases (leb_ℤ (to_int32 less) (pos 0))) [
        | inl last ↦ rw last (cleanup_lock-Homed p _ w)
        | inr more ↦ rw more w
      ]

  retire_all-Homed :
      (i : ℕ) (ps : List ℕ) (m : ShardedLockManager T)
      → Distinct ps
      → ((p : ℕ) → In p ps → (m.object p).shard ≡ some i)
      → Homed m
      → Homed (retire_all i ps m)
  unfolding retire_all
  retire_all-Homed i [] m d e h = h
  retire_all-Homed i (p ∷ ps) m d e h =
      retire_all-Homed i ps (retire i p m) d.1
        (λ q here.
          rw (retire-other i p m q (λ z. d.0 (subst (λ x. In x ps) (sym z) here))) (e q (inr here)))
        (retire-Homed i p m (e p (inl refl)) h)

  pub clean_shard-Homed :
      (i : ℕ) (now : ℤ) (m : ShardedLockManager T)
      → IsSound m
      → Homed m
      → Homed (retire_all i (collect now m (m.shards i).locks) m)
  clean_shard-Homed i now m s h =
      let ps = collect now m (m.shards i).locks in
      retire_all-Homed i ps m (collect-Distinct now m (m.shards i).locks (s.single i))
        (λ p here.
          (let (k, x) = collect-InTable now m (m.shards i).locks p here in (s.named i k p x).1))
        h

  pub clean_shards-Homed :
      (n i : ℕ) (now : ℤ) (m : ShardedLockManager T)
      → IsSound m
      → Homed m
      → Homed (clean_shards n i now m)
  unfolding clean_shards
  clean_shards-Homed zero i now m s h = h
  clean_shards-Homed (suc n) i now m s h =
      clean_shards-Homed n (suc i) now _ (clean_shard-IsSound i now m s)
        (clean_shard-Homed i now m s h)

  pub perform_cleanup-Homed :
      (now : ℤ) (m : ShardedLockManager T) → IsSound m → Homed m → Homed (perform_cleanup now m)
  unfolding perform_cleanup
  perform_cleanup-Homed now m s h = clean_shards-Homed m.shard_count 0 now m s h
