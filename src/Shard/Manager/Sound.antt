-- ===== src/Shard/Manager/Sound.antt =====
-- What every operation of a manager keeps: an object stands in a table under its own key and shard, or in
-- one pool, or in neither.
pub mod Taking
pub mod Entering
pub mod Cleaning
pub mod History
pub mod Range
pub mod Homed
pub mod Kept
pub mod References
mod Tests
use x_ailock.Base.{
  ℕ, ◌≤◌, ◌<◌, ◌==◌, String, true, false, Option, none, some, List, [], ◌∷◌, ◌≡◌, ◌≢◌, refl, sym,
  ◌∙◌, ap, ◌⊎◌, inl, inr, arith, Bool-cases, str_eq, eq_iff, if◌then◌else◌, subst,
}
use x_ailock.Shard.Lock.{ShardedLock}
use x_ailock.Shard.Index.{shard_index}
use x_ailock.Shard.Manager.{
  ShardedLockManager, LockShard, lookup, delete, update, write, write_shard,
}

abbrev pub In : ℕ → List ℕ → Type 0
In p [] = ⊥
In p (q ∷ qs) = (p ≡ q) ⊎ In p qs

abbrev pub Distinct : List ℕ → Type 0
Distinct [] = Unit {0}
Distinct (q ∷ qs) = ¬ (In q qs) × Distinct qs

abbrev pub InTable : String → ℕ → List (String × ℕ) → Type 0
InTable k p [] = ⊥
InTable k p ((j, q) ∷ m) = ((k ≡ j) × (p ≡ q)) ⊎ InTable k p m

-- No object stands in a table twice.
abbrev pub DistinctObjects : List (String × ℕ) → Type 0
DistinctObjects [] = Unit {0}
DistinctObjects ((j, q) ∷ m) = ((k : String) → ¬ (InTable k q m)) × DistinctObjects m

pub lookup-InTable :
    (k : String) (p : ℕ) (m : List (String × ℕ)) → lookup k m ≡ some p → InTable k p m
unfolding lookup
lookup-InTable k p [] h = absurd (ground arith)
lookup-InTable k p ((j, q) ∷ m) h = elim (Bool-cases (str_eq j k)) [
  | inl e ↦ inl (ground (arith, eq_iff j k), ground arith)
  | inr e ↦ inr (lookup-InTable k p m (ground arith))
]

pub delete-InTable :
    (j k : String) (p : ℕ) (m : List (String × ℕ))
    → InTable k p (delete j m)
    → InTable k p m × (k ≢ j)
unfolding delete
delete-InTable j k p [] h = absurd h
delete-InTable j k p ((i, q) ∷ m) h = elim (Bool-cases (str_eq i j)) [
  | inl e ↦ let (at, other) = delete-InTable j k p m (rw (e, delete) at h) in (inr at, other)
  | inr e ↦
      let kept : InTable k p ((i, q) ∷ delete j m) = rw (e, delete) at h in
      elim kept [
        | inl (a, b) ↦ (inl (a, b), λ z. ground (arith, eq_iff i j))
        | inr at ↦ let (x, y) = delete-InTable j k p m at in (inr x, y)
      ]
]

pub delete-DistinctObjects :
    (j : String) (m : List (String × ℕ)) → DistinctObjects m → DistinctObjects (delete j m)
unfolding delete
delete-DistinctObjects j [] h = h
delete-DistinctObjects j ((i, q) ∷ m) h = elim (Bool-cases (str_eq i j)) [
  | inl e ↦ rw e (delete-DistinctObjects j m h.1)
  | inr e ↦ rw e ((λ k at. h.0 k (delete-InTable j k q m at).0), delete-DistinctObjects j m h.1)
]

module _ {T : Type 0} where
  pub record IsSound (m : ShardedLockManager T) : Type 0 where
    pub named :
        (i : ℕ) (k : String) (p : ℕ)
        → InTable k p (m.shards i).locks
        → ((m.object p).key ≡ k) × ((m.object p).shard ≡ some i) × (i ≡ shard_index m.shard_mask k)
    pub single : (i : ℕ) → DistinctObjects (m.shards i).locks
    pub pooled : (i p : ℕ) → In p (m.shards i).pool → ((m.object p).shard ≡ none) × (p < m.next)
    pub once : (i : ℕ) → Distinct (m.shards i).pool
    pub apart : (i j p : ℕ) → In p (m.shards i).pool → In p (m.shards j).pool → i ≡ j
    pub unused : (p : ℕ) → m.next ≤ p → (m.object p).shard ≡ none

  -- A step that leaves the tables, the pools, and the key and the shard of every object.
  pub IsSound-same :
      (m : ShardedLockManager T) (object : ℕ → ShardedLock T)
      → ((p : ℕ) → ((object p).key ≡ (m.object p).key) × ((object p).shard ≡ (m.object p).shard))
      → IsSound m
      → IsSound (record m { object = object })
  IsSound-same m object same s = record {
    named = λ i k p at. (let (a, b, c) = s.named i k p at in ((same p).0 ∙ a, (same p).1 ∙ b, c));
    single = s.single;
    pooled = λ i p at. (let (a, b) = s.pooled i p at in ((same p).1 ∙ a, b));
    once = s.once;
    apart = s.apart;
    unused = λ p late. (same p).1 ∙ s.unused p late;
  }

  pub write-IsSound :
      (p : ℕ) (l : ShardedLock T) (m : ShardedLockManager T)
      → l.key ≡ (m.object p).key
      → l.shard ≡ (m.object p).shard
      → IsSound m
      → IsSound (write p l m)
  write-IsSound p l m a b s =
      IsSound-same m (update m.object p l)
        (λ q. elim (Bool-cases (p == q)) [
          | inl e ↦ ground (arith, ap m.object {x = p} {y = q})
          | inr e ↦ ground arith
        ])
        s

  -- A pool of some of its objects, in any order.
  pub refill-IsSound :
      (i : ℕ) (ps : List ℕ) (m : ShardedLockManager T)
      → Distinct ps
      → ((p : ℕ) → In p ps → In p (m.shards i).pool)
      → IsSound m
      → IsSound (write_shard i (record (m.shards i) { pool = ps }) m)
  refill-IsSound i ps m d there s =
      let m' = write_shard i (record (m.shards i) { pool = ps }) m in
      let locks : (j : ℕ) → (m'.shards j).locks ≡ (m.shards j).locks =
        λ j. ground (arith, ap m.shards {x = i} {y = j}) in
      let was : (j p : ℕ) → In p (m'.shards j).pool → In p (m.shards j).pool = λ j p here.
        elim (Bool-cases (i == j)) [
          | inl same ↦
              let i_j : i ≡ j = ground arith in
              subst (λ x. In p (m.shards x).pool) i_j (there p (rw same at here))
          | inr other ↦ rw other at here
        ] in
      record {
        named = λ j k p at. s.named j k p (subst (InTable k p) (locks j) at);
        single = λ j. subst DistinctObjects (sym (locks j)) (s.single j);
        pooled = λ j p here. s.pooled j p (was j p here);
        once = λ j. elim (Bool-cases (i == j)) [
          | inl same ↦ rw same d
          | inr other ↦ rw other (s.once j)
        ];
        apart = λ j j' p here there'. s.apart j j' p (was j p here) (was j' p there');
        unused = s.unused;
      }
