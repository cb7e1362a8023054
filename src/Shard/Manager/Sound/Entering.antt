-- ===== src/Shard/Manager/Sound/Entering.antt =====
-- `GetLock` keeps a manager sound.
use x_ailock.Base.{
  ℕ, ◌==◌, Bool, true, String, some, ◌∷◌, ◌≡◌, ◌≢◌, refl, sym, ◌∙◌, ap, ◌⊎◌, inl, inr, arith,
  Bool-cases, Option-cases, subst,
}
use x_ailock.Shard.Lock.{increment32}
use x_ailock.Shard.Index.{shard_index}
use x_ailock.Shard.Manager.{ShardedLockManager, pool_get, enter, get_lock}
use x_ailock.Shard.Manager.Table.{table, get_lock_old, get_lock_new}
use x_ailock.Shard.Manager.Sound.{In, Distinct, InTable, DistinctObjects, IsSound, write-IsSound}
use x_ailock.Shard.Manager.Sound.Taking.{other_false, IsFree, pool_get-IsGot}

module _ {T : Type 0} where
  entered : String → ℕ → ShardedLockManager T → ShardedLockManager T
  entered k p m = (enter (shard_index m.shard_mask k) k (m, p)).0

  entered-InTable :
      (k : String) (p : ℕ) (m : ShardedLockManager T) (j : ℕ) (k' : String) (q : ℕ)
      → InTable k' q ((entered k p m).shards j).locks
      → ((shard_index m.shard_mask k ≡ j) × (k' ≡ k) × (q ≡ p)) ⊎ InTable k' q (m.shards j).locks
  unfolding entered enter
  entered-InTable k p m j k' q here = elim (Bool-cases (shard_index m.shard_mask k == j)) [
    | inl same ↦
        let i_j : shard_index m.shard_mask k ≡ j = ground arith in
        let there : InTable k' q ((k, p) ∷ (m.shards (shard_index m.shard_mask k)).locks) =
          rw same at here in
        elim there [
          | inl (a, b) ↦ inl (i_j, a, b)
          | inr old ↦ inr (subst (λ x. InTable k' q (m.shards x).locks) i_j old)
        ]
    | inr other ↦ inr (rw other at here)
  ]

  entered-pool :
      (k : String) (p : ℕ) (m : ShardedLockManager T) (j : ℕ)
      → ((entered k p m).shards j).pool ≡ (m.shards j).pool
  unfolding entered enter
  entered-pool k p m j = ground (arith, ap m.shards {x = shard_index m.shard_mask k} {y = j})

  entered-single :
      (k : String) (p : ℕ) (m : ShardedLockManager T)
      → IsSound m
      → IsFree p m
      → (j : ℕ) → DistinctObjects ((entered k p m).shards j).locks
  unfolding entered enter
  entered-single k p m s f j = elim (Bool-cases (shard_index m.shard_mask k == j)) [
    | inl same ↦ rw same (λ k'. f.no_table (shard_index m.shard_mask k) k', s.single _)
    | inr other ↦ rw other (s.single j)
  ]

  entered-other :
      (k : String) (p : ℕ) (m : ShardedLockManager T) (q : ℕ)
      → p ≢ q
      → (entered k p m).object q ≡ m.object q
  unfolding entered enter
  entered-other k p m q n = rw (other_false n) refl

  entered-same :
      (k : String) (p : ℕ) (m : ShardedLockManager T)
      → (((entered k p m).object p).key ≡ k)
        × (((entered k p m).object p).shard ≡ some (shard_index m.shard_mask k))
  unfolding entered enter
  entered-same k p m = let itself : (p == p) ≡ true = ground arith in rw itself (refl, refl)

  entered-IsSound :
      (k : String) (p : ℕ) (m : ShardedLockManager T)
      → IsSound m
      → IsFree p m
      → IsSound (entered k p m)
  unfolding entered enter
  entered-IsSound k p m s f =
      let in_pool : (j q : ℕ) → In q ((entered k p m).shards j).pool → In q (m.shards j).pool =
        λ j q. subst (In q) (entered-pool k p m j) in
      record {
        named = λ j k' q here. elim (entered-InTable k p m j k' q here) [
          | inl (a, b, c) ↦
              let (x, y) = entered-same k p m in
              rw c (x ∙ sym b, y ∙ ap some a, sym a ∙ ap (shard_index m.shard_mask) (sym b))
          | inr old ↦
              rw
                (entered-other k p m q
                  (λ z. f.no_table j k' (subst (λ x. InTable k' x (m.shards j).locks) (sym z) old)))
                (s.named j k' q old)
        ];
        single = entered-single k p m s f;
        pooled = λ j q here.
            rw
              (entered-other k p m q
                (λ z. f.no_pool j (subst (λ x. In x (m.shards j).pool) (sym z) (in_pool j q here))))
              (s.pooled j q (in_pool j q here));
        once = λ j. subst Distinct (sym (entered-pool k p m j)) (s.once j);
        apart = λ j j' q here there. s.apart j j' q (in_pool j q here) (in_pool j' q there);
        unused = λ q late.
            rw (entered-other k p m q (λ z. omega (arith, z, late, f.in_use))) (s.unused q late);
      }

  pub get_lock-IsSound :
      (reuse : Bool) (fresh : T) (k : String) (m : ShardedLockManager T)
      → IsSound m
      → IsSound (get_lock reuse fresh k m).0
  get_lock-IsSound reuse fresh k m s = elim (Option-cases (table k m)) [
    | inr (p, e) ↦ rw (get_lock_old reuse fresh k m p e) (
        write-IsSound p (record (m.object p) { ref_count = increment32 (m.object p).ref_count }) m
          refl refl s)
    | inl e ↦
        let i = shard_index m.shard_mask k in
        let (a, b, mask) = pool_get-IsGot reuse fresh i m s in
        let (m', p) = pool_get reuse fresh i m in
        rw (get_lock_new reuse fresh k m e) (
          subst (λ x. IsSound (enter (shard_index x k) k (m', p)).0) mask
            (unfold entered in entered-IsSound k p m' a b))
  ]
