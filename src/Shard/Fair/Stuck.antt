-- ===== src/Shard/Fair/Stuck.antt =====
-- Who is served by a local fair lock: the waiting in their order, and nobody behind an entry whose
-- owner does not come back.
use x_ailock.Base.{
  ℤ, String, Bool, true, false, ◌||◌, List, [], ◌∷◌, ◌++◌, map, ◌≡◌, ◌≢◌, refl, arith, eq_iff,
  eq_refl,
}
use mathlib.Core.List.{append-nil, append_assoc}
use x_ailock.Errors.{GoError, nil}
use x_ailock.Config.{LockConfig}
use x_ailock.Shard.Fair.{FairLock, with_queue, try_lock, unlock}

-- An attempt with the instants that it reads.
pub record Attempt : Type 0 where
  pub now : ℤ
  pub later : ℤ
  pub config : LockConfig

abbrev pub attempt : Attempt → FairLock → FairLock × Bool × GoError
attempt a l = try_lock a.now a.later a.config l

-- The object after some attempts, and whether one of them succeeded.
pub attempts : List Attempt → FairLock → FairLock × Bool
attempts [] l = (l, false)
attempts (a ∷ cs) l =
    let (l', later) = attempts cs (attempt a l).0 in (l', (attempt a l).1 || later)

abbrev pub values : List Attempt → List String
values = map λ a. a.config.value

abbrev pub Strangers : String → List Attempt → Type 0
Strangers v [] = Unit {0}
Strangers v (a ∷ cs) = (a.config.value ≢ v) × Strangers v cs

stranger_waits :
    (v : String) (q : List String) (a : Attempt) (l : FairLock)
    → l.unlocked ≡ true
    → l.content.queue ≡ v ∷ q
    → a.config.value ≢ v
    → attempt a l ≡ (with_queue (v ∷ (q ++ a.config.value ∷ [])) l, false, nil)
unfolding try_lock
stranger_waits v q a l u e n = ground (arith, eq_iff v a.config.value)

-- A free lock with a front entry is refused to every other value: attempts with other values, however
-- many and however late, all fail and only lengthen the queue behind that entry. A retry loop whose
-- attempts each draw a new value is such a list of attempts.
pub others_never_served :
    (v : String) (q : List String) (cs : List Attempt) (l : FairLock)
    → l.unlocked ≡ true
    → l.content.queue ≡ v ∷ q
    → Strangers v cs
    → ((attempts cs l).1 ≡ false)
      × ((attempts cs l).0.unlocked ≡ true)
      × ((attempts cs l).0.content.queue ≡ v ∷ (q ++ values cs))
unfolding attempts
others_never_served v q [] l u e s = (refl, u, ground (arith, append-nil q))
others_never_served v q (a ∷ cs) l u e s =
    let w = a.config.value ∷ [] in
    rw (stranger_waits v q a l u e s.0) (
      rw (← append_assoc q w (values cs))
        (others_never_served v (q ++ w) cs (with_queue (v ∷ (q ++ w)) l) u refl s.1))

-- The waiting, each at its own instants, take the lock and release it in turn.
pub serve : List Attempt → FairLock → FairLock × Bool
serve [] l = (l, true)
serve (a ∷ cs) l = elim ((attempt a l).1) [
  | true ↦ serve cs (unlock (attempt a l).0).0
  | false ↦ ((attempt a l).0, false)
]

served_first :
    (a : Attempt) (q : List String) (l : FairLock)
    → l.unlocked ≡ true
    → l.content.queue ≡ a.config.value ∷ q
    → ((attempt a l).1 ≡ true)
      × ((attempt a l).0.value ≡ a.config.value)
      × ((unlock (attempt a l).0).0.unlocked ≡ true)
      × ((unlock (attempt a l).0).0.content.queue ≡ q)
unfolding try_lock unlock
served_first a q l u e = ground (arith, eq_refl a.config.value)

-- When the waiting come back in the order of the queue, each with its own value, every one of them
-- takes the lock at its first attempt, and the queue is empty in the end.
pub serve_in_order :
    (cs : List Attempt) (l : FairLock)
    → l.unlocked ≡ true
    → l.content.queue ≡ values cs
    → ((serve cs l).1 ≡ true)
      × ((serve cs l).0.unlocked ≡ true)
      × ((serve cs l).0.content.queue ≡ [])
unfolding serve
serve_in_order [] l u e = (refl, u, e)
serve_in_order (a ∷ cs) l u e =
    let (taken, _, free, rest) = served_first a (values cs) l u e in
    rw (taken, serve) (serve_in_order cs (unlock (attempt a l).0).0 free rest)
