-- ===== src/Shard/Manager/Sound/Kept.antt =====
-- An object with two references or more keeps its place in the table.
use x_ailock.Base.{
  ℕ, zero, suc, ◌^◌, ◌≤◌, ◌<◌, ◌==◌, ltb, ℤ, pos, leb_ℤ, ltb_ℤ, true, false, Bool, String, some,
  List, [], ◌∷◌, ◌≡◌, ◌≢◌, refl, sym, ◌∙◌, ap, inl, inr, arith, Bool-cases, Option-cases, subst,
}
use x_ailock.Shard.Lock.{ShardedLock, to_int32, increment32, decrement32}
use x_ailock.Shard.Index.{shard_index}
use x_ailock.Shard.Manager.{
  ShardedLockManager, write, pool_get, enter, get_lock, retire, cleanup_lock, finish_cleanup,
  release_lock, is_idle, collect, retire_all, clean_shards, perform_cleanup,
}
use x_ailock.Shard.Manager.Table.{table, get_lock_old, get_lock_new}
use x_ailock.Shard.Manager.Sound.{In, InTable, IsSound, lookup-InTable}
use x_ailock.Shard.Manager.Sound.Taking.{other_false, pool_get-IsGot}
use x_ailock.Shard.Manager.Sound.Cleaning.{retire-other}
use x_ailock.Shard.Manager.Sound.Homed.{Homed, pool_get-Homed}

module _ {T : Type 0} where
  -- The object is registered, and has between 2 and `top` references.
  pub record IsKept (k : String) (i top : ℕ) (l : ShardedLock T) : Type 0 where
    pub named : l.key ≡ k
    pub placed : l.shard ≡ some i
    pub shared : 2 ≤ l.ref_count
    pub bounded : l.ref_count ≤ top

  busy :
      (k : String) (i top : ℕ) (l : ShardedLock T) (now : ℤ)
      → top < 2 ^ 31
      → IsKept k i top l
      → (is_idle now l ≡ false) × (ltb_ℤ (pos 0) (to_int32 l.ref_count) ≡ true)
  unfolding is_idle to_int32
  busy k i top l now b v =
      let small : ltb l.ref_count (2 ^ 31) ≡ true = ground (arith, b, v.bounded) in
      (rw small (ground (arith, v.shared)), rw small (ground (arith, v.shared)))

  collect-idle :
      (now : ℤ) (m : ShardedLockManager T) (r : List (String × ℕ)) (p : ℕ)
      → In p (collect now m r)
      → is_idle now (m.object p) ≡ true
  unfolding collect
  collect-idle now m [] p here = absurd here
  collect-idle now m ((j, q) ∷ r) p here = elim (Bool-cases (is_idle now (m.object q))) [
    | inl idle ↦
        let there : In p (q ∷ collect now m r) = rw (idle, collect) at here in
        elim there [
          | inl z ↦ ap (λ x. is_idle now (m.object x)) z ∙ idle
          | inr old ↦ collect-idle now m r p old
        ]
    | inr active ↦ collect-idle now m r p (rw (active, collect) at here)
  ]

  retire_all-object :
      (i : ℕ) (ps : List ℕ) (m : ShardedLockManager T) (p : ℕ)
      → ¬ (In p ps)
      → (retire_all i ps m).object p ≡ m.object p
  unfolding retire_all
  retire_all-object i [] m p n = refl
  retire_all-object i (q ∷ ps) m p n =
      retire_all-object i ps (retire i q m) p (λ here. n (inr here))
      ∙ retire-other i q m p (λ z. n (inl (sym z)))

  module _ (k : String) (i top p : ℕ) (b : top < 2 ^ 31) where
    pub clean_shard-object :
        (j : ℕ) (now : ℤ) (m : ShardedLockManager T)
        → IsKept k i top (m.object p)
        → (retire_all j (collect now m (m.shards j).locks) m).object p ≡ m.object p
    clean_shard-object j now m v =
        retire_all-object j (collect now m (m.shards j).locks) m p (λ here. ground (
          arith,
          collect-idle now m (m.shards j).locks p here,
          (busy k i top (m.object p) now b v).0,
        ))

    clean_shards-object :
        (n j : ℕ) (now : ℤ) (m : ShardedLockManager T)
        → IsKept k i top (m.object p)
        → (clean_shards n j now m).object p ≡ m.object p
    unfolding clean_shards
    clean_shards-object zero j now m v = refl
    clean_shards-object (suc n) j now m v =
        let same = clean_shard-object j now m v in
        clean_shards-object n (suc j) now _ (subst (IsKept k i top) (sym same) v) ∙ same

    pub perform_cleanup-object :
        (now : ℤ) (m : ShardedLockManager T)
        → IsKept k i top (m.object p)
        → (perform_cleanup now m).object p ≡ m.object p
    unfolding perform_cleanup
    perform_cleanup-object now m v = clean_shards-object m.shard_count 0 now m v

    pub cleanup_lock-object :
        (q : ℕ) (m : ShardedLockManager T)
        → IsKept k i top (m.object p)
        → (cleanup_lock q m).object p ≡ m.object p
    unfolding cleanup_lock finish_cleanup
    cleanup_lock-object q m v = elim (Option-cases (m.object q).shard) [
      | inl e ↦ rw (cleanup_lock, e) refl
      | inr (j, e) ↦ elim (Bool-cases (ltb_ℤ (pos 0) (to_int32 (m.object q).ref_count))) [
        | inl more ↦ rw (cleanup_lock, e, finish_cleanup, more) refl
        | inr last ↦
            rw (cleanup_lock, e, finish_cleanup, last)
              (retire-other j q m p (λ z. ground (
                arith,
                last,
                (busy k i top (m.object p) (pos 0) b v).1,
                ap (λ x. ltb_ℤ (pos 0) (to_int32 (m.object x).ref_count)) z,
              )))
      ]
    ]

    pub release_lock-object :
        (q : ℕ) (m : ShardedLockManager T)
        → q ≢ p
        → IsKept k i top (m.object p)
        → (release_lock q m).object p ≡ m.object p
    unfolding release_lock
    release_lock-object q m n v =
        let less = decrement32 (m.object q).ref_count in
        let m' = write q (record (m.object q) { ref_count = less }) m in
        let same : m'.object p ≡ m.object p = rw (other_false n) refl in
        elim (Bool-cases (leb_ℤ (to_int32 less) (pos 0))) [
          | inl last ↦
              rw last (cleanup_lock-object q m' (subst (IsKept k i top) (sym same) v) ∙ same)
          | inr more ↦ rw more same
        ]

    pool_get-object :
        (reuse : Bool) (fresh : T) (j : ℕ) (m : ShardedLockManager T)
        → IsSound m
        → IsKept k i top (m.object p)
        → (pool_get reuse fresh j m).0.object p ≡ m.object p
    unfolding pool_get
    pool_get-object reuse fresh j m s v =
        let other : m.next ≢ p = λ z. ground (arith, z, v.placed, s.unused p) in
        let apart = other_false other in ground (arith, apart)

module _ {T : Type 0} (fresh : T) (k : String) (i p : ℕ) where
  -- A step that leaves the object.
  pub later : (top : ℕ) {l l' : ShardedLock T} → l' ≡ l → IsKept k i top l → IsKept k i (suc top) l'
  later top e v = subst (IsKept k i (suc top)) (sym e) (record {
    named = v.named;
    placed = v.placed;
    shared = v.shared;
    bounded = omega (arith, v.bounded);
  })

  -- `GetLock` adds at most one reference.
  written-IsKept :
      (top : ℕ) (q : ℕ) (m : ShardedLockManager T)
      → top < 2 ^ 31
      → IsKept k i top (m.object p)
      → IsKept k i (suc top) (
          (write q
              (record (m.object q) { ref_count = increment32 (m.object q).ref_count })
              m).object
            p)
  unfolding increment32
  written-IsKept top q m b v = elim (Bool-cases (q == p)) [
    | inl same ↦
        let q_p : m.object p ≡ m.object q = ap m.object (ground arith) in
        let v' : IsKept k i top (m.object q) = subst (IsKept k i top) q_p v in
        rw same (record {
          named = v'.named;
          placed = v'.placed;
          shared = ground (arith, b, v'.shared, v'.bounded);
          bounded = ground (arith, b, v'.shared, v'.bounded);
        })
    | inr other ↦ rw other (later top refl v)
  ]

  enter-IsKept :
      (top n : ℕ) (j : String) (q : ℕ) (m : ShardedLockManager T)
      → q ≢ p
      → IsKept k i top (m.object p)
      → IsKept k i (suc top) ((enter n j (m, q)).0.object p)
  unfolding enter
  enter-IsKept top n j q m other v = later top (rw (other_false other) refl) v

  pub get_lock-IsKept :
      (top : ℕ) (reuse : Bool) (j : String) (m : ShardedLockManager T)
      → top < 2 ^ 31
      → IsSound m
      → Homed m
      → IsKept k i top (m.object p)
      → IsKept k i (suc top) ((get_lock reuse fresh j m).0.object p)
  get_lock-IsKept top reuse j m b s h v = elim (Option-cases (table j m)) [
    | inr (q, e) ↦ rw (get_lock_old reuse fresh j m q e) (written-IsKept top q m b v)
    | inl e ↦
        let n = shard_index m.shard_mask j in
        let (_, free, _) = pool_get-IsGot reuse fresh n m s in
        let (at_home, _) = pool_get-Homed reuse fresh n m h in
        let same = pool_get-object k i top p b reuse fresh n m s v in
        let v' : IsKept k i top ((pool_get reuse fresh n m).0.object p) =
          subst (IsKept k i top) (sym same) v in
        let listed = lookup-InTable _ p _ (at_home p i v'.placed) in
        let m' = (pool_get reuse fresh n m).0 in
        let other : (pool_get reuse fresh n m).1 ≢ p = λ z.
          free.no_table i (m'.object p).key
            (subst (λ x. InTable (m'.object p).key x (m'.shards i).locks) (sym z) listed) in
        rw (get_lock_new reuse fresh j m e) (enter-IsKept top n j _ _ other v')
  ]

  pub acted-IsKept :
      (top q : ℕ) (method : ShardedLock T → ShardedLock T) (m : ShardedLockManager T)
      → ((l : ShardedLock T) → ((method l).key ≡ l.key) × ((method l).shard ≡ l.shard))
      → ((l : ShardedLock T) → (method l).ref_count ≡ l.ref_count)
      → IsKept k i top (m.object p)
      → IsKept k i (suc top) ((write q (method (m.object q)) m).object p)
  acted-IsKept top q method m a b v = elim (Bool-cases (q == p)) [
    | inl same ↦
        let q_p : m.object p ≡ m.object q = ap m.object (ground arith) in
        let v' : IsKept k i top (m.object q) = subst (IsKept k i top) q_p v in
        rw same (record {
          named = (a (m.object q)).0 ∙ v'.named;
          placed = (a (m.object q)).1 ∙ v'.placed;
          shared = ground (arith, b (m.object q), v'.shared);
          bounded = ground (arith, b (m.object q), v'.bounded);
        })
    | inr other ↦ rw other (later top refl v)
  ]
