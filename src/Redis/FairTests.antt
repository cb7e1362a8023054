-- ===== src/Redis/FairTests.antt =====
-- The fair lock in Redis on a concrete server.
use x_ailock.Base.{
  ℕ, suc, ℤ, pos, pos_part, ◌+ℤ◌, ◌≤ℤ◌, none, some, List, [], ◌∷◌, Thinned, ◌≡◌, ◌≢◌, refl, ◌⊎◌,
  arith,
}
use x_ailock.Errors.{GoError}
use x_ailock.Redis.Server.{first, rest}
use x_ailock.Redis.Scripts.{fair_lock_acquire}
use x_ailock.Redis.Toy.{Store, empty, set_list, toy}
use x_ailock.Redis.Fair.{RedisFairLock, lock_fair, acquire_timeout_of}
use x_ailock.Redis.Fair.Holder as Holder
use x_ailock.Redis.Fair.Holder.{fair_requests_harmless}
use x_ailock.Redis.Fair.Order.{FairEvent, performs, passes, fair_history, fair_history-Thinned}
use x_ailock.Redis.Fair.Queue.{fair_lock_acquire-turn}
use x_ailock.Redis.Fair.Waiting.{FairEnded, lock_fair-FairEnded}
use x_ailock.Redis.Tests.{calm, whole, mine_differs, held}

-- A fair lock.
abbrev fair : RedisFairLock
fair = record { key = "orders"; queue_key = "orders:queue"; held_value = "mine" }

abbrev fair_owner : RedisFairLock
fair_owner = record { key = "orders"; queue_key = "orders:queue"; held_value = "theirs" }

-- The lock is free, and "mine" and "other" wait.
abbrev waiting : Store
waiting = set_list "orders:queue" ("mine" ∷ "other" ∷ []) empty

abbrev waiting_and_held : Store
waiting_and_held = set_list "orders:queue" ("mine" ∷ "other" ∷ []) held

fair_requests_harmless_example :
    toy.get "orders" (
      Holder.perform_all toy "orders" "orders:queue" refl
        (Holder.tries "mine" (some (pos 30)) none
          ∷ Holder.acquires "mine" (some (pos 30))
          ∷ Holder.releases "mine"
          ∷ Holder.extends "mine" (pos 0)
          ∷ Holder.cleans "theirs"
          ∷ [])
        held)
    ≡ some "theirs"
fair_requests_harmless_example =
    fair_requests_harmless toy "orders" "orders:queue" refl "theirs"
      (Holder.tries "mine" (some (pos 30)) none
        ∷ Holder.acquires "mine" (some (pos 30))
        ∷ Holder.releases "mine"
        ∷ Holder.extends "mine" (pos 0)
        ∷ Holder.cleans "theirs"
        ∷ [])
      held refl (tt, (tt, (mine_differs, (mine_differs, (tt, tt)))))

fair_lock_acquire-turn_example :
    let (s', reply) =
      fair_lock_acquire toy "orders" "orders:queue" "mine" (some (pos 30)) waiting in
    ((reply ≡ some (pos 1))
      × (toy.get "orders" waiting ≡ none)
      × (first (toy.list "orders:queue" waiting) ≡ some "mine")
      × (toy.get "orders" s' ≡ some "mine")
      × (toy.list "orders:queue" s' ≡ rest (toy.list "orders:queue" waiting)))
    ⊎ ((reply ≢ some (pos 1))
        × ((toy.get "orders" waiting ≢ none)
            ⊎ (first (toy.list "orders:queue" waiting) ≢ some "mine"))
        × (s' ≡ waiting))
fair_lock_acquire-turn_example =
    fair_lock_acquire-turn toy "orders" "orders:queue" refl "mine" (pos 30) waiting (omega arith)

lock_fair-FairEnded_example :
    (w' : Store × ℕ) × (e : GoError) × (deadline : ℤ) × (pos 0 +ℤ acquire_timeout_of whole
      ≤ℤ deadline)
    × (lock_fair toy calm (suc (suc (pos_part (acquire_timeout_of whole)))) whole fair (held, 0)
        ≡ some (w', e))
    × FairEnded toy calm
        (record fair { held_value = "mine" })
        (acquire_timeout_of whole)
        deadline
        w'
        e
lock_fair-FairEnded_example = lock_fair-FairEnded toy calm whole fair (held, 0) refl

-- A newcomer joins while the lock is held, the holder leaves, the front is served, and some time passes.
abbrev shift : List (FairEvent toy "orders" "orders:queue" refl)
shift =
    performs (Holder.tries "new" (some (pos 30)) (some (pos 60)))
    ∷ performs (Holder.releases "theirs")
    ∷ performs (Holder.acquires "mine" (some (pos 30)))
    ∷ passes 5
    ∷ []

fair_history-Thinned_example :
    Thinned ("mine" ∷ "other" ∷ "new" ∷ []) (
      toy.list "orders:queue"
        (fair_history toy "orders" "orders:queue" refl shift waiting_and_held))
fair_history-Thinned_example =
    fair_history-Thinned toy "orders" "orders:queue" refl shift waiting_and_held
