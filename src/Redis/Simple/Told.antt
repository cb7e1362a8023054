-- ===== src/Redis/Simple/Told.antt =====
-- What the success of a request says of the server.
use x_ailock.Base.{ℤ, pos, eq_ℤ, String, false, some, ◌≡◌, inl, inr, arith, Bool-cases}
use x_ailock.Errors.{nil}
use x_ailock.Interface.Contract.{IfTrue}
use x_ailock.Redis.Server.{Redis, Reply}
use x_ailock.Redis.Client.{Surroundings}
use x_ailock.Redis.Client.Delivered.{sent-value, sent-holds, Evaluated-cases}
use x_ailock.Redis.Simple.{replied_one, released}

module _ (r : Redis) (u : Surroundings r) where
  open r use {State}
  open u use {W, server, send}

  -- A release without an error comes from a run of the script that did not reply with 0.
  pub released-holds :
      (script : State → Reply State ℤ) (P : State → Type 0) (key operation : String) (w : W)
      → ((n : ℤ)
          → (script (server w)).1 ≡ some n
          → eq_ℤ n (pos 0) ≡ false
          → P (script (server w)).0)
      → released key operation (send script w).1 ≡ nil
      → P (server (send script w).0)
  released-holds script P key operation w holds z = elim (Evaluated-cases (send script w).1) [
    | inl (n, e) ↦
        let (ran, reply) = sent-value r u script w n e in
        elim (Bool-cases (eq_ℤ n (pos 0))) [
          | inl zero ↦ absurd (ground (arith, e, zero, z))
          | inr other ↦ rw ran (holds n reply other)
        ]
    | inr (x, e) ↦ absurd (ground (arith, e, z))
  ]

  -- A success comes from a run of the script that replied with 1.
  pub replied-holds :
      (script : State → Reply State ℤ) (P : State → Type 0) (operation : String) (w : W)
      → ((script (server w)).1 ≡ some (pos 1) → P (script (server w)).0)
      → IfTrue (P (server (send script w).0)) (replied_one operation (send script w).1)
  replied-holds script P operation w holds = elim (Evaluated-cases (send script w).1) [
    | inl (n, e) ↦ λ z b. sent-holds r u script P w n holds e (rw e at b)
    | inr (x, e) ↦ λ z b. absurd (ground (arith, e, b))
  ]
