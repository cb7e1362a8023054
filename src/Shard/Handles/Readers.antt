-- ===== src/Shard/Handles/Readers.antt =====
-- The handle of a local read-write lock does not keep the promises of its interface.
use x_ailock.Base.{ℤ, String, ◌<◌, ◌==◌, true, List, [], ◌≡◌, refl, sym, ◌∙◌, ap, arith, subst}
use x_ailock.Errors.{nil}
use x_ailock.Config.{LockOption, LockConfig, apply_lock_options}
use x_ailock.Interface.Contract.{IsHonestRw, IfTrue, Returns-result}
use x_ailock.Shard.Lock.{ShardedLock, try_lock}
use x_ailock.Shard.ReadWrite.{RwLockData, try_wlock}
use x_ailock.Shard.Manager.{handle_try_lock}
use x_ailock.Shard.Surroundings.{Surroundings}
use x_ailock.Shard.Blocking.{attempt_on}
use x_ailock.Shard.Blocking.Immediate.{IsOpen}
use x_ailock.Shard.Handles.{Handle, local_rw_lock, tries_on}

beside_readers :
    (now later : ℤ) (config : LockConfig) (l : ShardedLock RwLockData)
    → IsOpen now l
    → ((try_wlock now later config l).1 ≡ true)
      × ((try_wlock now later config l).2 ≡ nil)
      × ((try_wlock now later config l).0.content.readers ≡ l.content.readers)
unfolding try_wlock try_lock
beside_readers now later config l free = ground arith

module _ (u : Surroundings RwLockData) (h : Handle) where
  open u use {W, manager, now, meets, stays, unique}

  -- A reader is counted.
  abbrev pub Reading : W → Type 0
  Reading w = 0 < ((manager w).object h.object).content.readers

  -- An attempt to write on an object that is open succeeds and leaves the readers.
  write_beside :
      (opts : List LockOption) (w : W)
      → IsOpen (now (meets w)) ((manager (meets w)).object h.object)
      → let tried = attempt_on u try_wlock h.object opts w in
        (tried.1.0 ≡ true)
        × (tried.1.1 ≡ nil)
        × (((manager tried.0).object h.object).content.readers
            ≡ ((manager (meets w)).object h.object).content.readers)
  unfolding attempt_on handle_try_lock
  write_beside opts w free =
      let done = stays h.object (meets w) in
      let config = apply_lock_options (unique w) opts in
      let (success, err, kept) =
        beside_readers (now (meets w)) (now done) config ((manager done).object h.object)
          (subst (IsOpen (now (meets w))) (sym (u.stays_keeps h.object (meets w))) free) in
      let itself : (h.object == h.object) ≡ true = ground arith in
      (
        success,
        err,
        rw (u.manager_put _ done, itself)
            (kept ∙ ap (λ l. l.content.readers) (u.stays_keeps h.object (meets w))),
      )

  -- The handle of a local read-write lock does not keep the promises of an `RWLock`, whatever options are
  -- usable and whatever is taken for a writer: in a world where a reader is counted on an object that no
  -- writer holds, `TryWLock` succeeds beside the reader.
  pub local_rw_lock-not_IsHonestRw :
      (Usable : List LockOption → W → Type 0) (Writing : W → Type 0) (key : String) (w : W)
      → IsOpen (now (meets w)) ((manager (meets w)).object h.object)
      → Reading (meets w)
      → ¬ (IsHonestRw Usable Reading Writing key (local_rw_lock u h))
  unfolding local_rw_lock tries_on
  local_rw_lock-not_IsHonestRw Usable Writing key w free reading honest =
      let tried = attempt_on u try_wlock h.object [] w in
      let (success, err, kept) = write_beside [] w free in
      let (_, alone) =
        Returns-result ((local_rw_lock u h).try_wlock [])
          (λ t a. IfTrue (Writing t × ¬ (Reading t)) a) w tried.0 tried.1 (honest.tries_write [] w)
          refl err success in
      alone (rw kept reading)
