-- ===== src/Interface/Contract.antt =====
-- What the `Lock` interface of lock.go promises, whatever is behind it, and what a wrapper has to do to
-- keep such promises.
use x_ailock.Base.{
  ℤ, pos, ◌<ℤ◌, ◌≤ℤ◌, String, Bool, true, false, Option, none, some, List, ◌≡◌, sym, ◌∙◌, ap, subst,
}
use x_ailock.Errors.{GoError, nil}
use x_ailock.Config.{LockOption}
use x_ailock.Interface.{Method, Lock, RwLock}

-- A method that returns, with `P` of the state that it leaves and of its result.
abbrev pub Returns : {S A : Type 0} → Method S A → (S → A → Type 0) → S → Type 0
Returns {S} {A} method P s = (t : S) × (a : A) × (method s ≡ some (t, a)) × P t a

value_of : {A : Type 0} → A → Option A → A
value_of a none = a
value_of a (some b) = b

-- What is promised of a method holds of its result.
pub Returns-result :
    {S A : Type 0} (method : Method S A) (P : S → A → Type 0) (s t : S) (a : A)
    → Returns method P s
    → method s ≡ some (t, a)
    → P t a
unfolding value_of
Returns-result method P s t a (t', a', e, p) q =
    subst (λ x. P x.0 x.1) (ap (value_of (t, a)) (sym e ∙ q)) p

-- The result of a Boolean and an error, when the error is nil.
abbrev pub IfTrue : Type 0 → Bool × GoError → Type 0
IfTrue P (b, err) = err ≡ nil → b ≡ true → P

abbrev pub IfFalse : Type 0 → Bool × GoError → Type 0
IfFalse P (b, err) = err ≡ nil → b ≡ false → P

-- Every method returns, and without an error it is true to what it says: `Lock`, under options that are
-- usable, and `TryLock`, if it succeeds, leave the lock held under their options; `Unlock` frees it, which `Freed` says of the states around it;
-- `IsLocked` tells whether it is locked; an extension that succeeds leaves it locked, if it is by at
-- least `least`; and the key is always the same.
pub record IsHonest {S : Type 0} (Usable Held : List LockOption → S → Type 0) (Locked : S → Type 0)
    (Freed : S → S → Type 0) (least : ℤ) (key : String) (l : Lock S) : Type 0 where
  pub locks :
      (opts : List LockOption) (s : S)
      → Usable opts s
      → Returns (l.lock opts) (λ t err. err ≡ nil → Held opts t) s
  pub tries :
      (opts : List LockOption) (s : S) → Returns (l.try_lock opts) (λ t a. IfTrue (Held opts t) a) s
  pub frees : (s : S) → Returns l.unlock (λ t err. err ≡ nil → Freed s t) s
  pub extends :
      (ttl : ℤ) (s : S) → least ≤ℤ ttl → Returns (l.extend ttl) (λ t a. IfTrue (Locked t) a) s
  pub tells :
      (s : S) → Returns l.is_locked (λ t a. IfTrue (Locked t) a × IfFalse (¬ (Locked t)) a) s
  pub measures : (s : S) → Returns l.get_ttl (λ t a. Unit {0}) s
  pub names : (s : S) → Returns l.get_key (λ t k. k ≡ key) s
  pub values : (s : S) → Returns l.get_value (λ t v. Unit {0}) s

-- The same for a read-write lock. `RLock` and `TryRLock` succeed only without a writer, `WLock` and `TryWLock`
-- only as the sole user of the lock; `WUnlock` without an error leaves no writer, and the two queries are true.
pub record IsHonestRw {S : Type 0} (Usable : List LockOption → S → Type 0)
    (Reading Writing : S → Type 0) (key : String) (l : RwLock S) : Type 0 where
  pub reads :
      (opts : List LockOption) (s : S)
      → Usable opts s
      → Returns (l.rlock opts) (λ t err. err ≡ nil → ¬ (Writing t)) s
  pub tries_read :
      (opts : List LockOption) (s : S)
      → Returns (l.try_rlock opts) (λ t a. IfTrue (¬ (Writing t)) a) s
  pub leaves : (s : S) → Returns l.runlock (λ t err. Unit {0}) s
  pub writes :
      (opts : List LockOption) (s : S)
      → Usable opts s
      → Returns (l.wlock opts) (λ t err. err ≡ nil → Writing t × ¬ (Reading t)) s
  pub tries_write :
      (opts : List LockOption) (s : S)
      → Returns (l.try_wlock opts) (λ t a. IfTrue (Writing t × ¬ (Reading t)) a) s
  pub frees : (s : S) → Returns l.wunlock (λ t err. err ≡ nil → ¬ (Writing t)) s
  pub counts : (s : S) → Returns l.get_read_count (λ t a. pos 0 <ℤ a.0 → Reading t) s
  pub tells :
      (s : S)
      → Returns l.is_write_locked (λ t a. IfTrue (Writing t) a × IfFalse (¬ (Writing t)) a) s
  pub names : (s : S) → Returns l.get_key (λ t k. k ≡ key) s

-- A read-write lock does what it promises for others: `TryRLock` succeeds only where there was no writer,
-- and `TryWLock` only where there was neither a reader nor a writer, its own included.
pub record IsExclusiveRw {S : Type 0} (Reading Writing : S → Type 0) (l : RwLock S) : Type 0 where
  pub joins :
      (opts : List LockOption) (s : S)
      → Returns (l.try_rlock opts) (λ t a. IfTrue (¬ (Writing s)) a) s
  pub enters :
      (opts : List LockOption) (s : S)
      → Returns (l.try_wlock opts) (λ t a. IfTrue (¬ (Reading s) × ¬ (Writing s)) a) s

module _ {S M : Type 0} where
  -- A method with one more state, which returns when another does, with its result.
  abbrev pub Lifted : {A : Type 0} → Method (S × M) A → Method S A → Type 0
  Lifted {A} f g =
      (s t : S) (m : M) (a : A) → g s ≡ some (t, a) → (n : M) × (f (s, m) ≡ some ((t, n), a))

  pub Lifted-Returns :
      {A : Type 0} (f : Method (S × M) A) (g : Method S A) {P : S → A → Type 0}
      → Lifted f g
      → (s : S × M) → Returns g P s.0
      → Returns f (λ t. P t.0) s
  Lifted-Returns f g lifted s (t, a, e, p) = let (n, q) = lifted s.0 t s.1 a e in ((t, n), a, q, p)

  -- A lock over two states that has, method by method, the behaviour of one over the first.
  pub record IsLifted (above : Lock (S × M)) (below : Lock S) : Type 0 where
    pub lock : (opts : List LockOption) → Lifted (above.lock opts) (below.lock opts)
    pub try_lock : (opts : List LockOption) → Lifted (above.try_lock opts) (below.try_lock opts)
    pub unlock : Lifted above.unlock below.unlock
    pub extend : (ttl : ℤ) → Lifted (above.extend ttl) (below.extend ttl)
    pub is_locked : Lifted above.is_locked below.is_locked
    pub get_ttl : Lifted above.get_ttl below.get_ttl
    pub get_key : Lifted above.get_key below.get_key
    pub get_value : Lifted above.get_value below.get_value

  pub IsLifted-IsHonest :
      {Usable Held : List LockOption → S → Type 0} {Locked : S → Type 0} {Freed : S → S → Type 0}
      {least : ℤ} {key : String} (above : Lock (S × M)) (below : Lock S)
      → IsLifted above below
      → IsHonest Usable Held Locked Freed least key below
      → IsHonest
          (λ opts s. Usable opts s.0)
          (λ opts s. Held opts s.0)
          (λ s. Locked s.0)
          (λ s t. Freed s.0 t.0)
          least
          key
          above
  IsLifted-IsHonest above below l h = record {
    locks = λ opts s u.
        Lifted-Returns (above.lock opts) (below.lock opts) (l.lock opts) s (h.locks opts s.0 u);
    tries = λ opts s.
        Lifted-Returns (above.try_lock opts) (below.try_lock opts) (l.try_lock opts) s
          (h.tries opts s.0);
    frees = λ s. Lifted-Returns above.unlock below.unlock l.unlock s (h.frees s.0);
    extends = λ ttl s p.
        Lifted-Returns (above.extend ttl) (below.extend ttl) (l.extend ttl) s (h.extends ttl s.0 p);
    tells = λ s. Lifted-Returns above.is_locked below.is_locked l.is_locked s (h.tells s.0);
    measures = λ s. Lifted-Returns above.get_ttl below.get_ttl l.get_ttl s (h.measures s.0);
    names = λ s. Lifted-Returns above.get_key below.get_key l.get_key s (h.names s.0);
    values = λ s. Lifted-Returns above.get_value below.get_value l.get_value s (h.values s.0);
  }
