-- ===== src/Shard/Manager/Sound/Cleaning.antt =====
-- The removal of objects from the tables keeps a manager sound.
use x_ailock.Base.{
  ℕ, zero, suc, ◌==◌, ℤ, pos, leb_ℤ, ltb_ℤ, true, String, none, some, List, [], ◌∷◌, ◌≡◌, ◌≢◌, refl,
  sym, ◌∙◌, ap, ◌⊎◌, inl, inr, arith, Bool-cases, Option-cases, subst,
}
use x_ailock.Shard.Lock.{to_int32, decrement32}
use x_ailock.Shard.Manager.{
  ShardedLockManager, write, reset, retire, cleanup_lock, finish_cleanup, release_lock, is_idle,
  collect, retire_all, clean_shards, perform_cleanup,
}
use x_ailock.Shard.Manager.Sound.{
  In, Distinct, InTable, DistinctObjects, IsSound, write-IsSound, delete-InTable,
  delete-DistinctObjects,
}
use x_ailock.Shard.Manager.Sound.Taking.{other_false}

module _ {T : Type 0} where
  retire-InTable :
      (i p : ℕ) (m : ShardedLockManager T) (j : ℕ) (k : String) (q : ℕ)
      → InTable k q ((retire i p m).shards j).locks
      → InTable k q (m.shards j).locks × ((i ≡ j) → k ≢ (m.object p).key)
  unfolding retire
  retire-InTable i p m j k q here = elim (Bool-cases (i == j)) [
    | inl same ↦
        let i_j : i ≡ j = ground arith in
        let (a, b) = delete-InTable (m.object p).key k q (m.shards i).locks (rw same at here) in
        (subst (λ x. InTable k q (m.shards x).locks) i_j a, λ z. b)
    | inr other ↦ (rw other at here, λ z. ground (arith, z))
  ]

  retire-pool :
      (i p : ℕ) (m : ShardedLockManager T) (j q : ℕ)
      → In q ((retire i p m).shards j).pool
      → ((i ≡ j) × (q ≡ p)) ⊎ In q (m.shards j).pool
  unfolding retire
  retire-pool i p m j q here = elim (Bool-cases (i == j)) [
    | inl same ↦
        let i_j : i ≡ j = ground arith in
        let there : In q (p ∷ (m.shards i).pool) = rw same at here in
        elim there [
          | inl z ↦ inl (i_j, z)
          | inr old ↦ inr (subst (λ x. In q (m.shards x).pool) i_j old)
        ]
    | inr other ↦ inr (rw other at here)
  ]

  retire-single :
      (i p : ℕ) (m : ShardedLockManager T)
      → IsSound m
      → (j : ℕ) → DistinctObjects ((retire i p m).shards j).locks
  unfolding retire
  retire-single i p m s j = elim (Bool-cases (i == j)) [
    | inl same ↦ rw same (delete-DistinctObjects (m.object p).key _ (s.single i))
    | inr other ↦ rw other (s.single j)
  ]

  retire-once :
      (i p : ℕ) (m : ShardedLockManager T)
      → IsSound m
      → ¬ (In p (m.shards i).pool)
      → (j : ℕ) → Distinct ((retire i p m).shards j).pool
  unfolding retire
  retire-once i p m s n j = elim (Bool-cases (i == j)) [
    | inl same ↦ rw same (n, s.once i)
    | inr other ↦ rw other (s.once j)
  ]

  pub retire-other :
      (i p : ℕ) (m : ShardedLockManager T) (q : ℕ) → p ≢ q → (retire i p m).object q ≡ m.object q
  unfolding retire
  retire-other i p m q n = rw (other_false n) refl

  retire-same : (i p : ℕ) (m : ShardedLockManager T) → ((retire i p m).object p).shard ≡ none
  unfolding retire reset
  retire-same i p m = let itself : (p == p) ≡ true = ground arith in rw itself refl

  retire-apart :
      (i p : ℕ) (m : ShardedLockManager T)
      → IsSound m
      → ((j : ℕ) → ¬ (In p (m.shards j).pool))
      → (j k q : ℕ) → In q ((retire i p m).shards j).pool
      → In q ((retire i p m).shards k).pool
      → j ≡ k
  retire-apart i p m s n j k q here there = elim (retire-pool i p m j q here) [
    | inl (a, z) ↦ elim (retire-pool i p m k q there) [
      | inl (b, y) ↦ sym a ∙ b
      | inr old ↦ absurd (n k (subst (λ x. In x (m.shards k).pool) z old))
    ]
    | inr new ↦ elim (retire-pool i p m k q there) [
      | inl (b, y) ↦ absurd (n j (subst (λ x. In x (m.shards j).pool) y new))
      | inr old ↦ s.apart j k q new old
    ]
  ]

  retire-IsSound :
      (i p : ℕ) (m : ShardedLockManager T)
      → (m.object p).shard ≡ some i
      → IsSound m
      → IsSound (retire i p m)
  unfolding retire
  retire-IsSound i p m e s =
      let no_pool : (j : ℕ) → ¬ (In p (m.shards j).pool) =
        λ j here. ground (arith, e, (s.pooled j p here).0) in
      let elsewhere : (j : ℕ) (k : String) (q : ℕ)
          → InTable k q ((retire i p m).shards j).locks
          → p ≢ q =
        λ j k q here z.
          let (there, differs) = retire-InTable i p m j k q here in
          let (a, b, c) = s.named j k q there in
          let same : some i ≡ some j = sym e ∙ ap (λ x. (m.object x).shard) z ∙ b in
          differs (ground (arith, same)) (sym a ∙ ap (λ x. (m.object x).key) (sym z)) in
      record {
        named = λ j k q here.
            rw (retire-other i p m q (elsewhere j k q here))
              (s.named j k q (retire-InTable i p m j k q here).0);
        single = retire-single i p m s;
        pooled = λ j q here. elim (retire-pool i p m j q here) [
          | inl (a, z) ↦ rw z (retire-same i p m, ground (arith, s.unused p, e))
          | inr old ↦
              rw
                (retire-other i p m q
                  (λ z. no_pool j (subst (λ x. In x (m.shards j).pool) (sym z) old)))
                (s.pooled j q old)
        ];
        once = retire-once i p m s (no_pool i);
        apart = λ j k q here there. retire-apart i p m s no_pool j k q here there;
        unused = λ q late.
            rw
              (retire-other i p m q
                (λ z. ground (arith, e, s.unused q late, ap (λ x. (m.object x).shard) z)))
              (s.unused q late);
      }

  pub cleanup_lock-IsSound :
      (p : ℕ) (m : ShardedLockManager T) → IsSound m → IsSound (cleanup_lock p m)
  unfolding cleanup_lock finish_cleanup
  cleanup_lock-IsSound p m s = elim (Option-cases (m.object p).shard) [
    | inl e ↦ rw (e, cleanup_lock) s
    | inr (i, e) ↦ elim (Bool-cases (ltb_ℤ (pos 0) (to_int32 (m.object p).ref_count))) [
      | inl used ↦ rw (e, cleanup_lock, finish_cleanup, used) s
      | inr idle ↦ rw (e, cleanup_lock, finish_cleanup, idle) (retire-IsSound i p m e s)
    ]
  ]

  pub release_lock-IsSound :
      (p : ℕ) (m : ShardedLockManager T) → IsSound m → IsSound (release_lock p m)
  unfolding release_lock
  release_lock-IsSound p m s =
      let less = decrement32 (m.object p).ref_count in
      let l = record (m.object p) { ref_count = less } in
      let s' = write-IsSound p l m refl refl s in
      elim (Bool-cases (leb_ℤ (to_int32 less) (pos 0))) [
        | inl last ↦ rw (release_lock, last) (cleanup_lock-IsSound p (write p l m) s')
        | inr more ↦ rw (release_lock, more) s'
      ]

  -- What a cleanup collects stands in the table, and no object is collected twice.
  pub collect-InTable :
      (now : ℤ) (m : ShardedLockManager T) (r : List (String × ℕ)) (p : ℕ)
      → In p (collect now m r)
      → (k : String) × InTable k p r
  unfolding collect
  collect-InTable now m [] p here = absurd here
  collect-InTable now m ((j, q) ∷ r) p here = elim (Bool-cases (is_idle now (m.object q))) [
    | inl idle ↦
        let there : In p (q ∷ collect now m r) = rw (idle, collect) at here in
        elim there [
          | inl z ↦ (j, inl (refl, z))
          | inr old ↦ let (k, x) = collect-InTable now m r p old in (k, inr x)
        ]
    | inr busy ↦ let (k, x) = collect-InTable now m r p (rw (busy, collect) at here) in (k, inr x)
  ]

  pub collect-Distinct :
      (now : ℤ) (m : ShardedLockManager T) (r : List (String × ℕ))
      → DistinctObjects r
      → Distinct (collect now m r)
  unfolding collect
  collect-Distinct now m [] d = tt
  collect-Distinct now m ((j, q) ∷ r) d = elim (Bool-cases (is_idle now (m.object q))) [
    | inl idle ↦
        rw (collect, idle)
          (
            λ here. (let (k, x) = collect-InTable now m r q here in d.0 k x),
            collect-Distinct now m r d.1,
          )
    | inr busy ↦ rw (collect, busy) (collect-Distinct now m r d.1)
  ]

  retire_all-IsSound :
      (i : ℕ) (ps : List ℕ) (m : ShardedLockManager T)
      → Distinct ps
      → ((p : ℕ) → In p ps → (m.object p).shard ≡ some i)
      → IsSound m
      → IsSound (retire_all i ps m)
  unfolding retire_all
  retire_all-IsSound i [] m d h s = s
  retire_all-IsSound i (p ∷ ps) m d h s =
      retire_all-IsSound i ps (retire i p m) d.1
        (λ q here.
          rw (retire-other i p m q (λ z. d.0 (subst (λ x. In x ps) (sym z) here))) (h q (inr here)))
        (retire-IsSound i p m (h p (inl refl)) s)

  -- The cleanup of one shard.
  pub clean_shard-IsSound :
      (i : ℕ) (now : ℤ) (m : ShardedLockManager T)
      → IsSound m
      → IsSound (retire_all i (collect now m (m.shards i).locks) m)
  clean_shard-IsSound i now m s =
      let ps = collect now m (m.shards i).locks in
      retire_all-IsSound i ps m (collect-Distinct now m (m.shards i).locks (s.single i))
        (λ p here.
          (let (k, x) = collect-InTable now m (m.shards i).locks p here in (s.named i k p x).1))
        s

  clean_shards-IsSound :
      (n i : ℕ) (now : ℤ) (m : ShardedLockManager T) → IsSound m → IsSound (clean_shards n i now m)
  unfolding clean_shards
  clean_shards-IsSound zero i now m s = s
  clean_shards-IsSound (suc n) i now m s =
      clean_shards-IsSound n (suc i) now _ (clean_shard-IsSound i now m s)

  pub perform_cleanup-IsSound :
      (now : ℤ) (m : ShardedLockManager T) → IsSound m → IsSound (perform_cleanup now m)
  unfolding perform_cleanup
  perform_cleanup-IsSound now m s = clean_shards-IsSound m.shard_count 0 now m s
