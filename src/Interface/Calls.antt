-- ===== src/Interface/Calls.antt =====
-- The calls that a client makes through the interfaces of lock.go, their replies, and runs of them.
use mathlib.Core.Option
use x_ailock.Base.{ℤ, String, Bool, none, some, List, [], ◌∷◌}
use x_ailock.Errors.{GoError}
use x_ailock.Config.{LockOption}
use x_ailock.Interface.{Method, Lock, RwLock, FairLock}

-- What the methods return, a reply for each type of result.
pub data Reply : Type 0 where
  returns : GoError → Reply
  answers : Bool → GoError → Reply
  measures : ℤ → GoError → Reply
  lists : List String → GoError → Reply
  names : String → Reply

pub data LockCall : Type 0 where
  locks : List LockOption → LockCall
  tries : List LockOption → LockCall
  releases : LockCall
  extends_by : ℤ → LockCall
  asks_locked asks_ttl asks_key asks_value : LockCall

pub data RwCall : Type 0 where
  rlocks : List LockOption → RwCall
  tries_rlock : List LockOption → RwCall
  runlocks : RwCall
  wlocks : List LockOption → RwCall
  tries_wlock : List LockOption → RwCall
  wunlocks asks_read_count asks_write_locked asks_rw_key : RwCall

-- The calls of a fair lock: those of a lock, and those on its queue.
pub data FairCall : Type 0 where
  common : LockCall → FairCall
  asks_position asks_length asks_info : FairCall

abbrev pub answer : Bool × GoError → Reply
answer a = answers a.0 a.1

abbrev pub measure : ℤ × GoError → Reply
measure a = measures a.0 a.1

abbrev pub listing : List String × GoError → Reply
listing a = lists a.0 a.1

-- The three interfaces, and for each the calls on it.
pub data Kind : Type 0 where
  simple read_write fair : Kind

abbrev pub LockOf : Kind → Type 0 → Type 0
LockOf simple S = Lock S
LockOf read_write S = RwLock S
LockOf fair S = FairLock S

abbrev pub CallOf : Kind → Type 0
CallOf simple = LockCall
CallOf read_write = RwCall
CallOf fair = FairCall

module _ {S : Type 0} where
  abbrev pub replies : {A : Type 0} → (A → Reply) → Method S A → Method S Reply
  replies f call s = Option.map (λ r. (r.0, f r.1)) (call s)

  unfoldable pub call_lock : Lock S → LockCall → Method S Reply
  call_lock l (locks opts) = replies returns (l.lock opts)
  call_lock l (tries opts) = replies answer (l.try_lock opts)
  call_lock l releases = replies returns l.unlock
  call_lock l (extends_by ttl) = replies answer (l.extend ttl)
  call_lock l asks_locked = replies answer l.is_locked
  call_lock l asks_ttl = replies measure l.get_ttl
  call_lock l asks_key = replies names l.get_key
  call_lock l asks_value = replies names l.get_value

  unfoldable pub call_rw_lock : RwLock S → RwCall → Method S Reply
  call_rw_lock l (rlocks opts) = replies returns (l.rlock opts)
  call_rw_lock l (tries_rlock opts) = replies answer (l.try_rlock opts)
  call_rw_lock l runlocks = replies returns l.runlock
  call_rw_lock l (wlocks opts) = replies returns (l.wlock opts)
  call_rw_lock l (tries_wlock opts) = replies answer (l.try_wlock opts)
  call_rw_lock l wunlocks = replies returns l.wunlock
  call_rw_lock l asks_read_count = replies measure l.get_read_count
  call_rw_lock l asks_write_locked = replies answer l.is_write_locked
  call_rw_lock l asks_rw_key = replies names l.get_key

  -- The methods that a fair lock shares with a lock, which a `FairLock` value offers as a `Lock`.
  abbrev pub fair_as_lock : FairLock S → Lock S
  fair_as_lock l = record {
    lock = l.lock;
    try_lock = l.try_lock;
    unlock = l.unlock;
    extend = l.extend;
    is_locked = l.is_locked;
    get_ttl = l.get_ttl;
    get_key = l.get_key;
    get_value = l.get_value;
  }

  unfoldable pub call_fair_lock : FairLock S → FairCall → Method S Reply
  unfolding call_lock
  call_fair_lock l (common c) = call_lock (fair_as_lock l) c
  call_fair_lock l asks_position = replies measure l.get_queue_position
  call_fair_lock l asks_length = replies measure l.get_queue_length
  call_fair_lock l asks_info = replies listing l.get_queue_info

  unfoldable pub perform : (k : Kind) → LockOf k S → CallOf k → Method S Reply
  unfolding call_lock call_rw_lock call_fair_lock
  perform simple l c = call_lock l c
  perform read_write l c = call_rw_lock l c
  perform fair l c = call_fair_lock l c

  -- A run of calls, as long as each returns.
  unfoldable pub run : {C : Type 0} → (C → Method S Reply) → List C → Method S (List Reply)
  run call [] s = some (s, [])
  run call (c ∷ cs) s = elim (call c s) [
    | none ↦ none
    | some (t, a) ↦ Option.map (λ r. (r.0, a ∷ r.1)) (run call cs t)
  ]
