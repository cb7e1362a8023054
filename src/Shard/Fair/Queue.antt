-- ===== src/Shard/Fair/Queue.antt =====
-- The queue of a local fair lock: the holder stands first, entries leave at the front only and join
-- at the back only, and the waiting are served in their order.
use x_ailock.Base.{
  subst, ap, Thinned, Thinned-append, ℤ, String, true, List, [], ◌∷◌, ◌++◌, ◌≡◌, refl, sym, ◌∙◌,
  ◌⊎◌, inl, inr, arith, Bool-cases, eq_iff, eq_refl, str_eq,
}
use mathlib.Core.List.{append-nil, append_assoc}
use x_ailock.Config.{LockConfig}
use x_ailock.Shard.Lock.{extend, acquire}
use x_ailock.Shard.Fair.Turn.{free, over, held, try_lock-TryCase}
use x_ailock.Shard.Fair.{
  FairLock, drop_first, try_lock, unlock, is_locked, get_ttl, take_turn, release_expired, enqueue,
}

-- A call on the lock, with the instants that it reads.
pub data FairCall : Type 0 where
  tries : ℤ → ℤ → LockConfig → FairCall
  unlocks : FairCall
  checks : ℤ → FairCall
  asks : ℤ → ℤ → FairCall
  extends : ℤ → ℤ → FairCall

pub step : FairCall → FairLock → FairLock
step (tries now later config) l = (try_lock now later config l).0
step unlocks l = (unlock l).0
step (checks now) l = (is_locked now l).0
step (asks now later) l = (get_ttl now later l).0
step (extends now ttl) l = (extend now ttl l).0

pub run : List FairCall → FairLock → FairLock
run [] l = l
run (c ∷ cs) l = run cs (step c l)

abbrev pub IsFirst : String → List String → Type 0
IsFirst v [] = ⊥
IsFirst v (x ∷ q) = x ≡ v

-- A lock is free, or its value stands first in the queue.
abbrev pub HeadHolds : FairLock → Type 0
HeadHolds l = (l.unlocked ≡ true) ⊎ IsFirst l.value l.content.queue

IsFirst-append : (v w : String) (q : List String) → IsFirst v q → IsFirst v (q ++ w ∷ [])
IsFirst-append v w [] h = absurd h
IsFirst-append v w (x ∷ q) h = h

take_turn-HeadHolds :
    (later : ℤ) (config : LockConfig) (l : FairLock) (q : List String)
    → l.content.queue ≡ q
    → l.unlocked ≡ true
    → HeadHolds (take_turn later config l).0
unfolding take_turn enqueue acquire
take_turn-HeadHolds later config l [] e u = ground (arith, eq_refl config.value)
take_turn-HeadHolds later config l (v ∷ q) e u = ground (arith, eq_iff v config.value)

enqueue-HeadHolds : (v : String) (l : FairLock) → HeadHolds l → HeadHolds (enqueue v l)
unfolding enqueue
enqueue-HeadHolds v l (inl a) = inl a
enqueue-HeadHolds v l (inr f) = inr (IsFirst-append l.value v l.content.queue f)

try_lock-HeadHolds :
    (now later : ℤ) (config : LockConfig) (l : FairLock)
    → HeadHolds l
    → HeadHolds (try_lock now later config l).0
try_lock-HeadHolds now later config l h = elim (try_lock-TryCase now later config l) [
  | free u e ↦ rw e (take_turn-HeadHolds later config l l.content.queue refl u)
  | over u e ↦ rw e (
      take_turn-HeadHolds later config (release_expired l) (release_expired l).content.queue refl
        (unfold release_expired in refl))
  | held u e ↦ rw e (enqueue-HeadHolds config.value l h)
]

-- Every call keeps it so that a lock which is not marked as free has its holder's value at the front of
-- the queue.
pub step-HeadHolds : (c : FairCall) (l : FairLock) → HeadHolds l → HeadHolds (step c l)
unfolding step
step-HeadHolds (tries now later config) l h = try_lock-HeadHolds now later config l h
step-HeadHolds unlocks l h = unfold unlock in ground arith
step-HeadHolds (checks now) l h = unfold is_locked in ground arith
step-HeadHolds (asks now later) l h = unfold get_ttl in ground arith
step-HeadHolds (extends now ttl) l h = unfold extend in ground arith

-- From one queue to a later one, while some values arrive: those that join do so at the back and in the order
-- of their arrival, and then some entries leave at the front.
pub data Fifo (arrived q q' : List String) : Type 0 where
  fifo :
      (gone joined : List String)
      → Thinned arrived joined
      → q ++ joined ≡ gone ++ q'
      → Fifo arrived q q'

Fifo-trans : {a b q r s : List String} → Fifo a q r → Fifo b r s → Fifo (a ++ b) q s
Fifo-trans {a} {b} {q} {r} {s} (fifo g j t e) (fifo g' j' t' e') =
    fifo (g ++ g') (j ++ j') (Thinned-append a j b j' t t') (
      sym (append_assoc q j j')
      ∙ ap (λ x. x ++ j') e
      ∙ append_assoc g r j'
      ∙ ap (λ x. g ++ x) e'
      ∙ sym (append_assoc g g' s))

Fifo-refl : (q : List String) → Fifo [] q q
Fifo-refl q = fifo [] [] tt (append-nil q)

take_turn-Fifo :
    (later : ℤ) (config : LockConfig) (l : FairLock) (q : List String)
    → l.content.queue ≡ q
    → Fifo (config.value ∷ []) q (take_turn later config l).0.content.queue
unfolding take_turn enqueue acquire
take_turn-Fifo later config l [] e = fifo [] (config.value ∷ []) (inl (refl, tt)) (ground arith)
take_turn-Fifo later config l (v ∷ q) e = elim (Bool-cases (str_eq v config.value)) [
  | inl same ↦ fifo [] [] tt (ground (arith, append-nil (v ∷ q)))
  | inr other ↦ fifo [] (config.value ∷ []) (inl (refl, tt)) (ground arith)
]

drop_first-Fifo : (q : List String) → Fifo [] q (drop_first q)
drop_first-Fifo [] = fifo [] [] tt refl
drop_first-Fifo (v ∷ q) = fifo (v ∷ []) [] tt (ground (arith, append-nil q))

release_expired-Fifo : (l : FairLock) → Fifo [] l.content.queue (release_expired l).content.queue
unfolding release_expired
release_expired-Fifo l = drop_first-Fifo l.content.queue

try_lock-Fifo :
    (now later : ℤ) (config : LockConfig) (l : FairLock)
    → Fifo (config.value ∷ []) l.content.queue (try_lock now later config l).0.content.queue
try_lock-Fifo now later config l = elim (try_lock-TryCase now later config l) [
  | free u e ↦ rw e (take_turn-Fifo later config l l.content.queue refl)
  | over u e ↦ rw e (
      Fifo-trans (release_expired-Fifo l)
        (take_turn-Fifo later config (release_expired l) (release_expired l).content.queue refl))
  | held u e ↦ rw e (fifo [] (config.value ∷ []) (inl (refl, tt)) (unfold enqueue in refl))
]

-- Whether a call leaves the queue as it is, or takes its front entry off.
step_kept_or_dropped : (q q' : List String) → (q' ≡ q) ⊎ (q' ≡ drop_first q) → Fifo [] q q'
step_kept_or_dropped q q' (inl e) = subst (Fifo [] q) (sym e) (Fifo-refl q)
step_kept_or_dropped q q' (inr e) = subst (Fifo [] q) (sym e) (drop_first-Fifo q)

-- The values of the attempts, in their order.
abbrev pub arrival : FairCall → List String
arrival (tries now later config) = config.value ∷ []
arrival unlocks = []
arrival (checks now) = []
arrival (asks now later) = []
arrival (extends now ttl) = []

abbrev pub arrivals : List FairCall → List String
arrivals [] = []
arrivals (c ∷ cs) = arrival c ++ arrivals cs

step-Fifo :
    (c : FairCall) (l : FairLock) → Fifo (arrival c) l.content.queue (step c l).content.queue
unfolding step
step-Fifo (tries now later config) l = try_lock-Fifo now later config l
step-Fifo unlocks l = step_kept_or_dropped _ _ (unfold unlock in ground arith)
step-Fifo (checks now) l = step_kept_or_dropped _ _ (unfold is_locked in ground arith)
step-Fifo (asks now later) l = step_kept_or_dropped _ _ (unfold get_ttl in ground arith)
step-Fifo (extends now ttl) l = step_kept_or_dropped _ _ (unfold extend in ground arith)

-- First come, first served: over any history of calls, what joins the queue are values of the attempts, in the
-- order of the attempts and at the back, and entries leave the queue at its front only.
pub run-Fifo :
    (cs : List FairCall) (l : FairLock)
    → Fifo (arrivals cs) l.content.queue (run cs l).content.queue
unfolding run
run-Fifo [] l = Fifo-refl l.content.queue
run-Fifo (c ∷ cs) l = Fifo-trans (step-Fifo c l) (run-Fifo cs (step c l))

-- Over any history, too, a lock that is not marked as free has its holder's value at the front.
pub run-HeadHolds : (cs : List FairCall) (l : FairLock) → HeadHolds l → HeadHolds (run cs l)
unfolding run
run-HeadHolds [] l h = h
run-HeadHolds (c ∷ cs) l h = run-HeadHolds cs (step c l) (step-HeadHolds c l h)
