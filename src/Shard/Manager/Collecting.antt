-- ===== src/Shard/Manager/Collecting.antt =====
-- What `performCleanup` takes out of the tables: an idle object with one reference, too.
use x_ailock.Base.{
  ℕ, zero, suc, ◌+◌, ◌≤◌, ◌<◌, ◌==◌, ℤ, true, false, String, Option, none, some, List, [], ◌∷◌, ◌≡◌,
  ◌≢◌, refl, sym, ◌∙◌, ap, inl, inr, arith, Bool-cases, subst, eq_iff,
}
use x_ailock.Shard.Lock.{to_int32}
use x_ailock.Shard.Index.{shard_index}
use x_ailock.Shard.Manager.{
  ShardedLockManager, lookup, reset, retire, is_idle, collect, retire_all, clean_shards,
  perform_cleanup,
}
use x_ailock.Shard.Manager.Table.{table, lookup-delete}
use x_ailock.Shard.Manager.Sound.{In, Distinct, InTable, IsSound, lookup-InTable}
use x_ailock.Shard.Manager.Sound.Cleaning.{
  retire-other, clean_shard-IsSound, collect-InTable, collect-Distinct,
}

module _ {T : Type 0} where
  -- The object that a shard's table gives for a key.
  abbrev found_in : ℕ → String → ShardedLockManager T → Option ℕ
  found_in j k m = lookup k (m.shards j).locks

  retire-none :
      (i p : ℕ) (j : ℕ) (k : String) (m : ShardedLockManager T)
      → found_in j k m ≡ none
      → found_in j k (retire i p m) ≡ none
  unfolding retire
  retire-none i p j k m h = elim (Bool-cases (i == j)) [
    | inl same ↦
        let i_j : i ≡ j = ground arith in
        let there : found_in i k m ≡ none = subst (λ x. found_in x k m ≡ none) (sym i_j) h in
        rw same (ground (arith, lookup-delete (m.object p).key k (m.shards i).locks))
    | inr other ↦ rw other h
  ]

  retire-gone :
      (i p : ℕ) (k : String) (m : ShardedLockManager T)
      → (m.object p).key ≡ k
      → found_in i k (retire i p m) ≡ none
  unfolding retire
  retire-gone i p k m e =
      let itself : (i == i) ≡ true = ground arith in
      rw itself (
        ground
          (arith, lookup-delete (m.object p).key k (m.shards i).locks, eq_iff (m.object p).key k))

  retire-elsewhere :
      (i p j : ℕ) (k : String) (m : ShardedLockManager T)
      → i ≢ j
      → found_in j k (retire i p m) ≡ found_in j k m
  unfolding retire
  retire-elsewhere i p j k m n = let other : (i == j) ≡ false = ground arith in rw other refl

  retire_all-none :
      (i : ℕ) (ps : List ℕ) (j : ℕ) (k : String) (m : ShardedLockManager T)
      → found_in j k m ≡ none
      → found_in j k (retire_all i ps m) ≡ none
  unfolding retire_all
  retire_all-none i [] j k m h = h
  retire_all-none i (p ∷ ps) j k m h =
      retire_all-none i ps j k (retire i p m) (retire-none i p j k m h)

  clean_shards-none :
      (n i : ℕ) (now : ℤ) (j : ℕ) (k : String) (m : ShardedLockManager T)
      → found_in j k m ≡ none
      → found_in j k (clean_shards n i now m) ≡ none
  unfolding clean_shards
  clean_shards-none zero i now j k m h = h
  clean_shards-none (suc n) i now j k m h =
      clean_shards-none n (suc i) now j k _
        (retire_all-none i (collect now m (m.shards i).locks) j k m h)

  retire_all-gone :
      (i : ℕ) (ps : List ℕ) (p : ℕ) (k : String) (m : ShardedLockManager T)
      → In p ps
      → Distinct ps
      → (m.object p).key ≡ k
      → found_in i k (retire_all i ps m) ≡ none
  unfolding retire_all
  retire_all-gone i [] p k m here d e = absurd here
  retire_all-gone i (q ∷ ps) p k m (inl z) d e =
      retire_all-none i ps i k (retire i q m)
        (retire-gone i q k m (ap (λ x. (m.object x).key) (sym z) ∙ e))
  retire_all-gone i (q ∷ ps) p k m (inr there) d e =
      retire_all-gone i ps p k (retire i q m) there d.1
        (ap (λ l. l.key) (retire-other i q m p (λ z. d.0 (subst (λ x. In x ps) (sym z) there))) ∙ e)

  collect-In :
      (now : ℤ) (m : ShardedLockManager T) (r : List (String × ℕ)) (k : String) (p : ℕ)
      → InTable k p r
      → is_idle now (m.object p) ≡ true
      → In p (collect now m r)
  unfolding collect
  collect-In now m [] k p here h = absurd here
  collect-In now m ((j, q) ∷ r) k p (inl (a, b)) h =
      let idle : is_idle now (m.object q) ≡ true =
        subst (λ x. is_idle now (m.object x) ≡ true) b h in
      rw (collect, idle) (inl b)
  collect-In now m ((j, q) ∷ r) k p (inr there) h = elim (Bool-cases (is_idle now (m.object q))) [
    | inl idle ↦ rw (collect, idle) (inr (collect-In now m r k p there h))
    | inr busy ↦ rw (collect, busy) (collect-In now m r k p there h)
  ]

  -- The cleanup of another shard leaves the object and its place.
  retire_all-elsewhere :
      (i : ℕ) (ps : List ℕ) (j p : ℕ) (k : String) (m : ShardedLockManager T)
      → i ≢ j
      → ¬ (In p ps)
      → ((retire_all i ps m).object p ≡ m.object p)
        × (found_in j k (retire_all i ps m) ≡ found_in j k m)
  unfolding retire_all
  retire_all-elsewhere i [] j p k m n out = (refl, refl)
  retire_all-elsewhere i (q ∷ ps) j p k m n out =
      let (a, b) = retire_all-elsewhere i ps j p k (retire i q m) n (λ z. out (inr z)) in
      (a ∙ retire-other i q m p (λ z. out (inl (sym z))), b ∙ retire-elsewhere i q j k m n)

  clean_shards-gone :
      (n i : ℕ) (now : ℤ) (j : ℕ) (k : String) (p : ℕ) (m : ShardedLockManager T)
      → IsSound m
      → found_in j k m ≡ some p
      → is_idle now (m.object p) ≡ true
      → i ≤ j
      → j < i + n
      → found_in j k (clean_shards n i now m) ≡ none
  unfolding clean_shards
  clean_shards-gone zero i now j k p m s e h a b = absurd (omega (arith, a, b))
  clean_shards-gone (suc n) i now j k p m s e h a b =
      let ps = collect now m (m.shards i).locks in
      let here = lookup-InTable k p (m.shards j).locks e in
      elim (Bool-cases (i == j)) [
        | inl same ↦
            let j_i : j ≡ i = ground arith in
            let first : InTable k p (m.shards i).locks =
              subst (λ x. InTable k p (m.shards x).locks) j_i here in
            subst (λ x. found_in x k (clean_shards n (suc i) now (retire_all i ps m)) ≡ none)
              (sym j_i)
              (clean_shards-none n (suc i) now i k (retire_all i ps m) (
                retire_all-gone i ps p k m (collect-In now m (m.shards i).locks k p first h)
                  (collect-Distinct now m (m.shards i).locks (s.single i)) (s.named j k p here).0))
        | inr other ↦
            let n_i_j : i ≢ j = λ z. ground arith in
            let out : ¬ (In p ps) = λ z.
              let (k', there) = collect-InTable now m (m.shards i).locks p z in
              let both : some i ≡ some j = sym (s.named i k' p there).1 ∙ (s.named j k p here).1 in
              n_i_j (ground (arith, both)) in
            let (o, f) = retire_all-elsewhere i ps j p k m n_i_j out in
            clean_shards-gone n (suc i) now j k p (retire_all i ps m)
              (clean_shard-IsSound i now m s) (f ∙ e) (ap (is_idle now) o ∙ h)
              (omega (arith, a, n_i_j)) (omega (arith, b))
      ]

  -- What a cleanup leaves besides: the numbers of the manager, and free objects, which stay free.
  abbrev Calm : ShardedLockManager T → ShardedLockManager T → Type 0
  Calm m m' =
      (m'.next ≡ m.next)
      × (m'.shard_mask ≡ m.shard_mask)
      × ((q : ℕ) → (m.object q).unlocked ≡ true → (m'.object q).unlocked ≡ true)

  retire-Calm : (i p : ℕ) (m : ShardedLockManager T) → Calm m (retire i p m)
  unfolding retire reset
  retire-Calm i p m = (refl, refl, λ q h. ground arith)

  Calm-trans : (l m n : ShardedLockManager T) → Calm l m → Calm m n → Calm l n
  Calm-trans l m n a b = (b.0 ∙ a.0, b.1 ∙ a.1, λ q h. b.2 q (a.2 q h))

  retire_all-Calm : (i : ℕ) (ps : List ℕ) (m : ShardedLockManager T) → Calm m (retire_all i ps m)
  unfolding retire_all
  retire_all-Calm i [] m = (refl, refl, λ q h. h)
  retire_all-Calm i (p ∷ ps) m =
      Calm-trans m (retire i p m) (retire_all i ps (retire i p m)) (retire-Calm i p m)
        (retire_all-Calm i ps (retire i p m))

  clean_shards-Calm :
      (n i : ℕ) (now : ℤ) (m : ShardedLockManager T) → Calm m (clean_shards n i now m)
  unfolding clean_shards
  clean_shards-Calm zero i now m = (refl, refl, λ q h. h)
  clean_shards-Calm (suc n) i now m =
      let m' = retire_all i (collect now m (m.shards i).locks) m in
      Calm-trans m m' (clean_shards n (suc i) now m')
        (retire_all-Calm i (collect now m (m.shards i).locks) m)
        (clean_shards-Calm n (suc i) now m')

  -- A cleanup takes an idle object out of the table, although it has one reference, and leaves it free.
  pub perform_cleanup-gone :
      (now : ℤ) (k : String) (p : ℕ) (m : ShardedLockManager T)
      → IsSound m
      → shard_index m.shard_mask k < m.shard_count
      → table k m ≡ some p
      → (m.object p).unlocked ≡ true
      → (m.object p).ref_count ≡ 1
      → (table k (perform_cleanup now m) ≡ none)
        × (((perform_cleanup now m).object p).unlocked ≡ true)
        × ((perform_cleanup now m).next ≡ m.next)
  unfolding perform_cleanup table
  perform_cleanup-gone now k p m s b e u one =
      let (next, mask, free) = clean_shards-Calm m.shard_count 0 now m in
      let idle : is_idle now (m.object p) ≡ true = unfold is_idle to_int32 in rw (u, one) refl in
      let gone =
        clean_shards-gone m.shard_count 0 now (shard_index m.shard_mask k) k p m s e idle
          (omega arith) (omega (arith, b)) in
      (
        subst (λ x. found_in (shard_index x k) k (clean_shards m.shard_count 0 now m) ≡ none)
            (sym mask) gone,
        free p u,
        next,
      )
