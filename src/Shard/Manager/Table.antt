-- ===== src/Shard/Manager/Table.antt =====
-- The manager as one map from keys to objects, over all its shards.
use x_ailock.Base.{
  ℕ, String, Bool, Option, none, some, List, [], ◌∷◌, ◌≡◌, refl, ap, inl, inr, arith, if◌then◌else◌,
  str_eq, eq_iff, eq_refl, Option-cases, Bool-cases, subst, sym, ◌∙◌,
}
use x_ailock.Shard.Lock.{ShardedLock, increment32}
use x_ailock.Shard.Index.{shard_index}
use x_ailock.Shard.Manager.{ShardedLockManager, lookup, delete, pool_get, enter, get_lock, write}

pub lookup-delete :
    (k j : String) (m : List (String × ℕ))
    → lookup j (delete k m) ≡ (if str_eq k j then none else lookup j m)
unfolding lookup delete
lookup-delete k j [] = ground arith
lookup-delete k j ((i, p) ∷ m) =
    ground (arith, eq_iff k j, eq_iff i k, eq_iff i j, lookup-delete k j m)

module _ {T : Type 0} where
  -- The object that stands for a key.
  unfoldable pub table : String → ShardedLockManager T → Option ℕ
  table k m = lookup k (m.shards (shard_index m.shard_mask k)).locks

  table-write :
      (j : String) (p : ℕ) (l : ShardedLock T) (m : ShardedLockManager T)
      → table j (write p l m) ≡ table j m
  unfolding table
  table-write j p l m = refl

  enter-pointer : (i : ℕ) (k : String) (p : ℕ) (m : ShardedLockManager T) → (enter i k (m, p)).1 ≡ p
  unfolding enter
  enter-pointer i k p m = refl

  pool_get-table :
      (reuse : Bool) (fresh : T) (i : ℕ) (m : ShardedLockManager T) (j : String)
      → (table j (pool_get reuse fresh i m).0 ≡ table j m)
        × ((pool_get reuse fresh i m).0.shard_mask ≡ m.shard_mask)
  unfolding table pool_get
  pool_get-table reuse fresh i m j = ground arith

  enter-table :
      (i : ℕ) (k j : String) (p : ℕ) (m : ShardedLockManager T)
      → i ≡ shard_index m.shard_mask k
      → table j (enter i k (m, p)).0 ≡ (if str_eq k j then some p else table j m)
  unfolding table enter lookup
  enter-table i k j p m e =
      ground (arith, eq_iff k j, ap (shard_index m.shard_mask) {x = k} {y = j})

  pub get_lock_old :
      (reuse : Bool) (fresh : T) (k : String) (m : ShardedLockManager T) (p : ℕ)
      → table k m ≡ some p
      → get_lock reuse fresh k m
        ≡ (write p (record (m.object p) { ref_count = increment32 (m.object p).ref_count }) m, p)
  unfolding table get_lock
  get_lock_old reuse fresh k m p e = rw (e, get_lock)

  pub get_lock_new :
      (reuse : Bool) (fresh : T) (k : String) (m : ShardedLockManager T)
      → table k m ≡ none
      → get_lock reuse fresh k m
        ≡ enter (shard_index m.shard_mask k) k (pool_get reuse fresh (shard_index m.shard_mask k) m)
  unfolding table get_lock
  get_lock_new reuse fresh k m e = rw (e, get_lock)

  -- After `GetLock` the table gives the key the object that was returned, and every other key what
  -- it had before.
  pub get_lock-table :
      (reuse : Bool) (fresh : T) (k j : String) (m : ShardedLockManager T)
      → table j (get_lock reuse fresh k m).0
        ≡ (if str_eq k j then some (get_lock reuse fresh k m).1 else table j m)
  get_lock-table reuse fresh k j m = elim (Option-cases (table k m)) [
    | inr (p, e) ↦ rw (get_lock_old reuse fresh k m p e) (
        ground (
          arith,
          eq_iff k j,
          ap (λ i. table i m) {x = k} {y = j},
          table-write j p (record (m.object p) { ref_count = increment32 (m.object p).ref_count })
              m,
        ))
    | inl e ↦
        let i = shard_index m.shard_mask k in
        let r = pool_get reuse fresh i m in
        rw (get_lock_new reuse fresh k m e) (
          ground (
            arith,
            enter-table i k j r.1 r.0,
            pool_get-table reuse fresh i m j,
            enter-pointer i k r.1 r.0,
          ))
  ]

  -- A key that is in the table keeps its object, whatever key is asked for; and so does the number of
  -- shards.
  abbrev pub HasKey : String → ℕ → ℕ → ShardedLockManager T → Type 0
  HasKey key p count m = (table key m ≡ some p) × (m.shard_count ≡ count)

  get_lock-shard_count :
      (reuse : Bool) (fresh : T) (k : String) (m : ShardedLockManager T)
      → (get_lock reuse fresh k m).0.shard_count ≡ m.shard_count
  unfolding get_lock pool_get enter
  get_lock-shard_count reuse fresh k m = ground arith

  pub get_lock-HasKey :
      (reuse : Bool) (fresh : T) (k j : String) (p count : ℕ) (m : ShardedLockManager T)
      → HasKey j p count m
      → HasKey j p count (get_lock reuse fresh k m).0
  get_lock-HasKey reuse fresh k j p count m h = (
    elim (Bool-cases (str_eq k j)) [
      | inl same ↦
          let e : k ≡ j = (eq_iff k j).0 same in
          rw (get_lock-table reuse fresh k j m, same)
            (ap (λ r. some r.1)
              (get_lock_old reuse fresh k m p (subst (λ i. table i m ≡ some p) (sym e) h.0)))
      | inr other ↦ rw (get_lock-table reuse fresh k j m, other) h.0
    ],
    get_lock-shard_count reuse fresh k m ∙ h.1,
  )

  pub get_lock-found :
      (reuse : Bool) (fresh : T) (k : String) (p : ℕ) (m : ShardedLockManager T)
      → table k m ≡ some p
      → (get_lock reuse fresh k m).1 ≡ p
  get_lock-found reuse fresh k p m h = ap (λ r. r.1) (get_lock_old reuse fresh k m p h)

  pub get_lock-enters :
      (reuse : Bool) (fresh : T) (k : String) (m : ShardedLockManager T)
      → HasKey k (get_lock reuse fresh k m).1 m.shard_count (get_lock reuse fresh k m).0
  get_lock-enters reuse fresh k m =
      (rw (get_lock-table reuse fresh k k m, eq_refl k) refl, get_lock-shard_count reuse fresh k m)
