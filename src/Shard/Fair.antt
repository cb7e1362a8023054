-- ===== src/Shard/Fair.antt =====
-- sharded_lock.go, the methods of the fair kind, and the queries of local_fair.go.
pub mod Queue
pub mod Stuck
pub mod Turn
use x_ailock.Base.{
  ℕ, suc, ◌+◌, ℤ, pos, negsuc, ◌+ℤ◌, ltb_ℤ, String, Bool, true, false, not, ◌&&◌, ◌||◌, Option,
  none, some, List, [], ◌∷◌, ◌++◌, length, if◌then◌else◌, str_eq,
}
use x_ailock.Errors.{GoError, nil, lock, new_lock_not_found_error}
use x_ailock.Config.{LockConfig}
use x_ailock.Shard.Lock.{ShardedLock, acquire, expired_error, until}

pub record FairLockData : Type 0 where
  pub queue : List String

abbrev pub FairLock : Type 0
FairLock = ShardedLock FairLockData

abbrev pub with_queue : List String → FairLock → FairLock
with_queue q l = record l { content = record { queue = q } }

-- `queue[1:]` under its test for an empty queue.
abbrev pub drop_first : List String → List String
drop_first [] = []
drop_first (v ∷ q) = q

-- `len(queue) > 0 && queue[0] != value`.
abbrev pub another_first : String → List String → Bool
another_first value [] = false
another_first value (v ∷ q) = not (str_eq v value)

-- `len(queue) == 0 || queue[0] != value`.
abbrev pub not_first : String → List String → Bool
not_first value [] = true
not_first value (v ∷ q) = not (str_eq v value)

pub enqueue : String → FairLock → FairLock
enqueue value l = with_queue (l.content.queue ++ value ∷ []) l

pub release_expired : FairLock → FairLock
release_expired l = with_queue (drop_first l.content.queue) (record l { unlocked = true })

-- The front of the queue decides, once nobody holds the lock.
pub take_turn : ℤ → LockConfig → FairLock → FairLock × Bool × GoError
unfolding enqueue
take_turn later config l =
    if another_first config.value l.content.queue
    then (enqueue config.value l, false, nil)
    else let taken = acquire later config l in
      (
        with_queue
            (if not_first config.value l.content.queue
              then config.value ∷ l.content.queue
              else l.content.queue)
            taken,
        true,
        nil,
      )

unfoldable pub try_lock : ℤ → ℤ → LockConfig → FairLock → FairLock × Bool × GoError
unfolding take_turn acquire enqueue release_expired
try_lock now later config l =
    if l.unlocked
    then take_turn later config l
    else if ltb_ℤ l.expire_at now
    then take_turn later config (release_expired l)
    else (enqueue config.value l, false, nil)

unfoldable pub unlock : FairLock → FairLock × GoError
unfolding release_expired
unlock l =
    if l.unlocked then (l, lock (new_lock_not_found_error l.key)) else (release_expired l, nil)

unfoldable pub is_locked : ℤ → FairLock → FairLock × Bool × GoError
unfolding release_expired
is_locked now l =
    if l.unlocked
    then (l, false, nil)
    else if ltb_ℤ l.expire_at now
    then (release_expired l, false, nil)
    else (l, true, nil)

unfoldable pub get_ttl : ℤ → ℤ → FairLock → FairLock × ℤ × GoError
unfolding release_expired expired_error until
get_ttl now later l =
    if l.unlocked
    then (l, pos 0, lock (new_lock_not_found_error l.key))
    else if ltb_ℤ l.expire_at now
    then (release_expired l, pos 0, lock (expired_error l))
    else (l, until later l.expire_at, nil)

-- The loop of `GetQueuePosition`, from index `i`.
position_from : ℕ → String → List String → Option ℕ
position_from i value [] = none
position_from i value (v ∷ q) =
    if str_eq v value then some (i + 1) else position_from (i + 1) value q

unfoldable pub get_queue_position : FairLock → ℤ × GoError
unfolding position_from
get_queue_position l =
    if not l.unlocked && not (not_first l.value l.content.queue)
    then (pos 0, nil)
    else elim (position_from 0 l.value l.content.queue) [
      | none ↦ (negsuc 0, lock (new_lock_not_found_error l.key))
      | some i ↦ (pos i, nil)
    ]

unfoldable pub get_queue_length : FairLock → ℕ × GoError
get_queue_length l = (length l.content.queue, nil)

unfoldable pub get_queue_info : FairLock → List String × GoError
get_queue_info l = (l.content.queue, nil)
