-- ===== src/Redis/Client.antt =====
-- What a blocking `Lock` needs around it, which is not the package's own: the clock and the Redis client,
-- over a state of the world that contains the server.
pub mod Delivered
use x_ailock.Base.{ℤ, ◌+ℤ◌, ◌≤ℤ◌, ◌≡◌}
use x_ailock.Redis.Server.{Redis, Reply, Delivery, Evaluated, eval}

module _ (r : Redis) where
  open r use {State}

  -- The server that the client reaches, the clock, a request, which may be lost or its reply, and a
  -- sleep, in which other clients go on. A request is sent once, and no other client acts during it.
  pub record Surroundings : Type 1 where
    pub W : Type 0
    pub server : W → State
    pub now : W → ℤ
    pub send : {A : Type 0} → (State → Reply State A) → W → W × Evaluated A
    pub sleep : ℤ → W → W
    pub sleep_lasts : (d : ℤ) (w : W) → now w +ℤ d ≤ℤ now (sleep d w)
    pub send_forward : {A : Type 0} (f : State → Reply State A) (w : W) → now w ≤ℤ now (send f w).0
    pub send_delivers :
        {A : Type 0} (f : State → Reply State A) (w : W)
        → (d : Delivery) × (server (send f w).0 ≡ (eval d f (server w)).0)
          × ((send f w).1 ≡ (eval d f (server w)).1)
