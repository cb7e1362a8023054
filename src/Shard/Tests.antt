-- ===== src/Shard/Tests.antt =====
-- Concrete lock objects.
use x_ailock.Base.{
  ℕ, pos, ◌+ℤ◌, String, true, false, none, some, List, [], ◌∷◌, ◌≡◌, ◌≢◌, refl, ◌⊎◌, arith, eq_iff,
}
use x_ailock.Errors.{nil}
use x_ailock.Config.{LockConfig, apply_lock_options}
use x_ailock.Shard.Lock.{ShardedLock, try_lock}
use x_ailock.Shard.Lock.Holding.{holder, try_lock-holder}
use x_ailock.Shard.Lock.Contention.{
  Contender, tries, checks, asks, contend_all, contenders_excluded,
}
use x_ailock.Shard.ReadWrite.{RwLock}
use x_ailock.Shard.Fair.{FairLock}
use x_ailock.Shard.Fair.Queue as FairQueue
use x_ailock.Shard.Fair.Queue.{HeadHolds, Fifo, run, run-HeadHolds, run-Fifo}
use x_ailock.Shard.Fair.Stuck.{Attempt, attempts, others_never_served}

abbrev config_for : String → LockConfig
unfolding apply_lock_options
config_for v = apply_lock_options v []

-- A lock that `owner` took at instant 0 for ten nanoseconds.
abbrev held : {T : Type 0} → T → ShardedLock T
held x = record {
  key = "orders";
  value = "owner";
  content = x;
  unlocked = false;
  ttl = pos 10;
  expire_at = pos 10;
  ref_count = 1;
  shard = some 3;
}

abbrev free : {T : Type 0} → T → ShardedLock T
free x = record (held x) { unlocked = true }

abbrev held_unit : ShardedLock (Unit {0})
held_unit = held tt

try_lock-holder_example :
    let (l', success, err) = try_lock (pos 7) (pos 7) (config_for "b") held_unit in
    (err ≡ nil)
    × (((holder (pos 7) held_unit ≡ none)
          × (success ≡ true)
          × (holder (pos 9) l' ≡ some ("b", pos 30_000_000_007)))
        ⊎ ((holder (pos 7) held_unit ≢ none) × (success ≡ false) × (l' ≡ held_unit)))
unfolding ◌+ℤ◌ config_for
try_lock-holder_example = try_lock-holder (pos 7) (pos 7) (config_for "b") held_unit (pos 9)

abbrev rivals : List Contender
rivals = tries (pos 1) (pos 1) (config_for "b") ∷ checks (pos 3) ∷ asks (pos 9) (pos 9) ∷ []

contenders_excluded_example : contend_all rivals held_unit ≡ (held_unit, false)
contenders_excluded_example = contenders_excluded rivals held_unit refl (omega arith)

abbrev with_readers : ℕ → RwLock
with_readers n = free (record { readers = n })

abbrev held_fair : FairLock
held_fair = held (record { queue = "owner" ∷ "b" ∷ [] })

abbrev fair_history : List FairQueue.FairCall
fair_history =
    FairQueue.tries (pos 2) (pos 2) (config_for "c")
    ∷ FairQueue.unlocks
    ∷ FairQueue.tries (pos 3) (pos 3) (config_for "b")
    ∷ []

run-Fifo_example :
    Fifo
      (FairQueue.arrivals fair_history)
      ("owner" ∷ "b" ∷ [])
      (run fair_history held_fair).content.queue
run-Fifo_example = run-Fifo fair_history held_fair

abbrev at_two : String → Attempt
at_two v = record { now = pos 2; later = pos 2; config = config_for v }

abbrev waiting : List String → FairLock
waiting q = free (record { queue = q })

others_never_served_example :
    let r = attempts (at_two "b" ∷ at_two "c" ∷ []) (waiting ("gone" ∷ [])) in
    (r.1 ≡ false) × (r.0.unlocked ≡ true) × (r.0.content.queue ≡ "gone" ∷ "b" ∷ "c" ∷ [])
unfolding config_for
others_never_served_example =
    others_never_served "gone" [] (at_two "b" ∷ at_two "c" ∷ []) (waiting ("gone" ∷ [])) refl refl
      (ground (arith, eq_iff "b" "gone"), (ground (arith, eq_iff "c" "gone"), tt))
