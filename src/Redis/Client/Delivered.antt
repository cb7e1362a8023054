-- ===== src/Redis/Client/Delivered.antt =====
-- What a client may conclude from the reply to a request.
use x_ailock.Base.{ℤ, pos, eq_ℤ, true, some, ◌≡◌, refl, sym, ◌∙◌, ap, arith, ◌⊎◌, inl, inr}
use x_ailock.Errors.{GoError}
use x_ailock.Redis.Server.{
  Redis, Reply, Delivery, replied, request_lost, reply_lost, Evaluated, value, fault, eval,
}
use x_ailock.Redis.Client.{Surroundings}

pub Evaluated-cases :
    {A : Type 0} (x : Evaluated A) → ((a : A) × (x ≡ value a)) ⊎ ((e : GoError) × (x ≡ fault e))
Evaluated-cases (value a) = inl (a, refl)
Evaluated-cases (fault e) = inr (e, refl)

-- A value comes back only if the script has run and replied with it.
pub eval-value :
    {S A : Type 0} (d : Delivery) (f : S → Reply S A) (s : S) (a : A)
    → (eval d f s).1 ≡ value a
    → ((eval d f s).0 ≡ (f s).0) × ((f s).1 ≡ some a)
unfolding eval
eval-value replied f s a e = ground arith
eval-value (request_lost x) f s a e = ground arith
eval-value (reply_lost x) f s a e = ground arith

-- A request does nothing, or what its script does.
pub eval-state :
    {S A : Type 0} (d : Delivery) (f : S → Reply S A) (s : S)
    → ((eval d f s).0 ≡ s) ⊎ ((eval d f s).0 ≡ (f s).0)
unfolding eval
eval-state replied f s = ground arith
eval-state (request_lost x) f s = inl refl
eval-state (reply_lost x) f s = inr refl

module _ (r : Redis) (u : Surroundings r) where
  open r use {State, get}
  open u use {W, server, send}

  -- A reply came from a run of the script.
  pub sent-value :
      {A : Type 0} (f : State → Reply State A) (w : W) (a : A)
      → (send f w).1 ≡ value a
      → (server (send f w).0 ≡ (f (server w)).0) × ((f (server w)).1 ≡ some a)
  sent-value f w a e =
      let (d, states, answers) = u.send_delivers f w in
      let (ran, reply) = eval-value d f (server w) a (sym answers ∙ e) in (states ∙ ran, reply)

  -- A reply of 1 left what the script leaves with that reply.
  pub sent-holds :
      (f : State → Reply State ℤ) (P : State → Type 0) (w : W) (n : ℤ)
      → ((f (server w)).1 ≡ some (pos 1) → P (f (server w)).0)
      → (send f w).1 ≡ value n
      → eq_ℤ n (pos 1) ≡ true
      → P (server (send f w).0)
  sent-holds f P w n holds e one =
      let (ran, reply) = sent-value f w n e in
      let is_one : n ≡ pos 1 = ground (arith, one) in rw ran (holds (reply ∙ ap some is_one))
