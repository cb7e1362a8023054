-- ===== src/Shard/Manager/Sound/Taking.antt =====
-- The object that `GetLock` takes, new or from a pool, is free, and taking it keeps a manager sound.
use x_ailock.Base.{
  ℕ, suc, ◌≤◌, ◌<◌, ◌==◌, Bool, true, false, String, some, List, [], ◌∷◌, ◌≡◌, ◌≢◌, refl, sym, ap,
  inl, inr, arith, Bool-cases, subst,
}
use x_ailock.Shard.Manager.{ShardedLockManager, write, write_shard, pool_get, new_object}
use x_ailock.Shard.Manager.Sound.{In, Distinct, InTable, DistinctObjects, IsSound}

pub other_false : {p q : ℕ} → p ≢ q → (p == q) ≡ false
other_false {p} {q} n = elim (Bool-cases (p == q)) [ inl e ↦ absurd (n (ground arith)) | inr e ↦ e ]

module _ {T : Type 0} where
  -- An object in use that stands in no table and in no pool.
  pub record IsFree (p : ℕ) (m : ShardedLockManager T) : Type 0 where
    pub no_table : (i : ℕ) (k : String) → ¬ (InTable k p (m.shards i).locks)
    pub no_pool : (i : ℕ) → ¬ (In p (m.shards i).pool)
    pub in_use : p < m.next

  fresh_object : T → ShardedLockManager T → ShardedLockManager T
  fresh_object fresh m = record (write m.next (new_object fresh) m) { next = suc m.next }

  fresh_object-IsSound :
      (fresh : T) (m : ShardedLockManager T)
      → IsSound m
      → IsSound (fresh_object fresh m) × IsFree m.next (fresh_object fresh m)
  unfolding fresh_object new_object
  fresh_object-IsSound fresh m s =
      let new = m.next in
      let differs : (q : ℕ) → new ≤ q → (i : ℕ) → (m.object q).shard ≢ some i =
        λ q late i h. absurd (ground (arith, s.unused q late, h)) in
      let in_table : (i : ℕ) (k : String) (q : ℕ) → InTable k q (m.shards i).locks → new ≢ q =
        λ i k q here z. differs q (omega (arith, z)) i (s.named i k q here).1 in
      let in_pool : (i q : ℕ) → In q (m.shards i).pool → new ≢ q =
        λ i q here z. omega (arith, z, (s.pooled i q here).1) in
      (
        record {
          named = λ i k q here. rw (other_false (in_table i k q here)) (s.named i k q here);
          single = s.single;
          pooled = λ i q here.
              rw (other_false (in_pool i q here))
                ((s.pooled i q here).0, omega (arith, (s.pooled i q here).1));
          once = s.once;
          apart = s.apart;
          unused = λ q late.
              rw (other_false {p = new} {q = q} (λ z. omega (arith, z, late)))
                (s.unused q (omega (arith, late)));
        },
        record {
          no_table = λ i k here. in_table i k new here refl;
          no_pool = λ i here. in_pool i new here refl;
          in_use = omega arith;
        },
      )

  -- The head of a pool is taken off it.
  take_head : ℕ → ShardedLockManager T → List ℕ → ShardedLockManager T
  take_head i m rest = write_shard i (record (m.shards i) { pool = rest }) m

  take_head-locks :
      (i : ℕ) (rest : List ℕ) (m : ShardedLockManager T) (j : ℕ)
      → ((take_head i m rest).shards j).locks ≡ (m.shards j).locks
  unfolding take_head
  take_head-locks i rest m j = ground (arith, ap m.shards {x = i} {y = j})

  -- What is left in the pools was there, and is another object.
  take_head-pool :
      (i p : ℕ) (rest : List ℕ) (m : ShardedLockManager T)
      → (m.shards i).pool ≡ p ∷ rest
      → IsSound m
      → (j q : ℕ) → In q ((take_head i m rest).shards j).pool
      → In q (m.shards j).pool × (q ≢ p)
  unfolding take_head
  take_head-pool i p rest m e s j q here = elim (Bool-cases (i == j)) [
    | inl same ↦
        let there : In q rest = rw same at here in
        let i_j : i ≡ j = ground arith in
        (
          subst (λ x. In q (m.shards x).pool) i_j (subst (In q) (sym e) (inr there)),
          λ z. (subst Distinct e (s.once i)).0 (subst (λ x. In x rest) z there),
        )
    | inr other ↦
        let there : In q (m.shards j).pool = rw other at here in
        (
          there,
          λ z.
              let i_j : i ≡ j =
                s.apart i j p (subst (In p) (sym e) (inl refl))
                  (subst (λ x. In x (m.shards j).pool) z there) in
              ground arith,
        )
  ]

  take_head-once :
      (i p : ℕ) (rest : List ℕ) (m : ShardedLockManager T)
      → (m.shards i).pool ≡ p ∷ rest
      → IsSound m
      → (j : ℕ) → Distinct ((take_head i m rest).shards j).pool
  unfolding take_head
  take_head-once i p rest m e s j = elim (Bool-cases (i == j)) [
    | inl same ↦ rw same (subst Distinct e (s.once i)).1
    | inr other ↦ rw other (s.once j)
  ]

  take_head-IsSound :
      (i p : ℕ) (rest : List ℕ) (m : ShardedLockManager T)
      → (m.shards i).pool ≡ p ∷ rest
      → IsSound m
      → IsSound (take_head i m rest) × IsFree p (take_head i m rest)
  unfolding take_head
  take_head-IsSound i p rest m e s =
      let left = take_head-pool i p rest m e s in
      let locks = take_head-locks i rest m in
      let first : In p (m.shards i).pool = subst (In p) (sym e) (inl refl) in
      let listed : (j : ℕ) (k : String) (q : ℕ)
          → InTable k q ((take_head i m rest).shards j).locks
          → InTable k q (m.shards j).locks =
        λ j k q. subst (InTable k q) (locks j) in
      (
        record {
          named = λ j k q here. s.named j k q (listed j k q here);
          single = λ j. subst DistinctObjects (sym (locks j)) (s.single j);
          pooled = λ j q here. s.pooled j q (left j q here).0;
          once = λ j. take_head-once i p rest m e s j;
          apart = λ j k q here there. s.apart j k q (left j q here).0 (left k q there).0;
          unused = s.unused;
        },
        record {
          no_table = λ j k here.
              ground (arith, (s.named j k p (listed j k p here)).1, (s.pooled i p first).0);
          no_pool = λ j here. (left j p here).1 refl;
          in_use = (s.pooled i p first).1;
        },
      )

  abbrev pub IsGot : ShardedLockManager T → ShardedLockManager T × ℕ → Type 0
  IsGot m (m', p) = IsSound m' × IsFree p m' × (m'.shard_mask ≡ m.shard_mask)

  pub pool_get-IsGot :
      (reuse : Bool) (fresh : T) (i : ℕ) (m : ShardedLockManager T)
      → IsSound m
      → IsGot m (pool_get reuse fresh i m)
  unfolding pool_get fresh_object take_head
  pool_get-IsGot reuse fresh i m s = go (m.shards i).pool reuse refl refl
    where
      made : IsGot m (fresh_object fresh m, m.next)
      made = let (a, b) = fresh_object-IsSound fresh m s in (a, b, refl)

      go :
          (q : List ℕ) (b : Bool)
          → (m.shards i).pool ≡ q
          → reuse ≡ b
          → IsGot m (pool_get reuse fresh i m)
      go [] b e f = rw (e, pool_get) made
      go (p ∷ rest) true e f =
          let (a, c) = take_head-IsSound i p rest m e s in rw (e, pool_get, f) (a, c, refl)
      go (p ∷ rest) false e f = rw (e, pool_get, f) made
