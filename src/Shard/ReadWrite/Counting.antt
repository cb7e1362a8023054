-- ===== src/Shard/ReadWrite/Counting.antt =====
-- Readers and writers of a local read-write lock: what the counter says, and what it does not guard.
use x_ailock.Base.{
  ◌∙◌, ◌%◌, ◌*◌, ℕ, suc, ◌+◌, ◌-◌, ◌<◌, ◌^◌, ℤ, pos, true, false, none, List, [], ◌∷◌, ◌≡◌, ◌≢◌,
  ◌⊎◌, arith,
}
use x_ailock.Errors.{nil}
use x_ailock.Config.{LockConfig}
use x_ailock.Shard.Lock.Holding.{holder}
use x_ailock.Shard.ReadWrite.{RwLock, try_rlock, runlock, get_read_count, try_wlock}

-- A reader is admitted exactly when no writer holds the lock at that instant, and is counted; a
-- refusal changes nothing. Admission leaves the lock without a writer, and gives up the same place by
-- `RUnlock`.
pub try_rlock-holder :
    (now : ℤ) (l : RwLock)
    → l.content.readers < 2 ^ 31 - 1
    → let (l', success, err) = try_rlock now l in
      (err ≡ nil)
      × (((holder now l ≡ none)
            × (success ≡ true)
            × (holder now l' ≡ none)
            × ((get_read_count l').0 ≡ pos (l.content.readers + 1))
            × ((runlock l').0.content ≡ l.content))
          ⊎ ((holder now l ≢ none) × (success ≡ false) × (l' ≡ l)))
unfolding try_rlock get_read_count runlock
try_rlock-holder now l h = ground arith

-- Calls of readers, and how many of each kind a history has.
pub data ReaderCall : Type 0 where
  enters : ℤ → ReaderCall
  leaves : ReaderCall

pub reader_calls : List ReaderCall → RwLock → RwLock
reader_calls [] l = l
reader_calls (enters now ∷ cs) l = reader_calls cs (try_rlock now l).0
reader_calls (leaves ∷ cs) l = reader_calls cs (runlock l).0

abbrev pub entries : List ReaderCall → ℕ
entries [] = 0
entries (enters now ∷ cs) = suc (entries cs)
entries (leaves ∷ cs) = entries cs

abbrev pub exits : List ReaderCall → ℕ
exits [] = 0
exits (enters now ∷ cs) = exits cs
exits (leaves ∷ cs) = suc (exits cs)

enter_free :
    (now : ℤ) (l : RwLock)
    → l.unlocked ≡ true
    → ((try_rlock now l).0.content.readers ≡ (l.content.readers + 1) % 2 ^ 32)
      × ((try_rlock now l).0.unlocked ≡ true)
unfolding try_rlock
enter_free now l u = ground arith

leave_any :
    (l : RwLock)
    → ((runlock l).0.content.readers ≡ (l.content.readers + (2 ^ 32 - 1)) % 2 ^ 32)
      × ((runlock l).0.unlocked ≡ l.unlocked)
unfolding runlock
leave_any l = ground arith

-- On a lock that no writer has taken, the counter after any history of readers is the one before it
-- plus the entries less the exits, as 32 bits.
pub reader_calls-count :
    (cs : List ReaderCall) (l : RwLock)
    → l.unlocked ≡ true
    → l.content.readers < 2 ^ 32
    → (reader_calls cs l).content.readers
      ≡ (l.content.readers + entries cs + (2 ^ 32 - 1) * exits cs) % 2 ^ 32
unfolding reader_calls
reader_calls-count [] l u h = omega arith
reader_calls-count (enters now ∷ cs) l u h =
    let (e, f) = enter_free now l u in
    omega (arith, e, reader_calls-count cs (try_rlock now l).0 f (omega (arith, e)))
reader_calls-count (leaves ∷ cs) l u h =
    let (e, f) = leave_any l in
    omega (arith, e, reader_calls-count cs (runlock l).0 (f ∙ u) (omega (arith, e)))

reader_calls-unlocked :
    (cs : List ReaderCall) (l : RwLock) → l.unlocked ≡ true → (reader_calls cs l).unlocked ≡ true
unfolding reader_calls
reader_calls-unlocked [] l u = u
reader_calls-unlocked (enters now ∷ cs) l u =
    reader_calls-unlocked cs (try_rlock now l).0 (enter_free now l u).1
reader_calls-unlocked (leaves ∷ cs) l u =
    reader_calls-unlocked cs (runlock l).0 ((leave_any l).1 ∙ u)

writer_enters :
    (now later : ℤ) (config : LockConfig) (l : RwLock)
    → l.unlocked ≡ true
    → let (l', success, err) = try_wlock now later config l in
      (success ≡ true) × (l'.unlocked ≡ false) × (l'.content.readers ≡ l.content.readers)
unfolding try_wlock
writer_enters now later config l u = ground arith

-- The count keeps no writer out: after any history of readers of a lock that no writer has taken, a writer
-- takes it at its first attempt, and the count is still the one before plus the entries less the exits, as
-- 32 bits.
pub writer_joins_readers :
    (cs : List ReaderCall) (now later : ℤ) (config : LockConfig) (l : RwLock)
    → l.unlocked ≡ true
    → l.content.readers < 2 ^ 32
    → let (l', success, err) = try_wlock now later config (reader_calls cs l) in
      (success ≡ true)
      × (l'.unlocked ≡ false)
      × (l'.content.readers ≡ (l.content.readers + entries cs + (2 ^ 32 - 1) * exits cs) % 2 ^ 32)
writer_joins_readers cs now later config l u h =
    let (a, b, c) =
      writer_enters now later config (reader_calls cs l) (reader_calls-unlocked cs l u) in
    (a, b, c ∙ reader_calls-count cs l u h)
