-- ===== src/Redis/Server.antt =====
-- What the package relies on of a Redis server, which it does not implement: the commands that its
-- scripts call, as an interface with the behaviour that Redis documents for them, and the call `Eval`.
-- A key of a lock, a read count or a writer holds a string, and a key of a queue a list: they are
-- different keys. A command that Redis refuses is `none`, and changes nothing.
use x_ailock.Base.{
  ℕ, suc, ◌<◌, ◌^◌, ◌-◌, ◌/◌, ◌%◌, ◌==◌, ℤ, pos, negsuc, ◌≤ℤ◌, ◌<ℤ◌, String, Bool, true, false,
  Option, none, some, List, [], ◌∷◌, ◌++◌, ◌≡◌, ◌⊎◌, if◌then◌else◌, str_eq, sub_ℕ,
}
use x_ailock.Errors.{GoError, nil, foreign}

-- `drop_all v q` is `LREM key 0 v`: every entry equal to `v` goes.
unfoldable pub drop_all : String → List String → List String
drop_all v [] = []
drop_all v (x ∷ q) = if str_eq x v then drop_all v q else x ∷ drop_all v q

abbrev pub first : List String → Option String
first [] = none
first (v ∷ q) = some v

abbrev pub rest : List String → List String
rest [] = []
rest (v ∷ q) = q

abbrev pub is_some {ℓ} : {A : Type ℓ} → Option A → Bool
is_some none = false
is_some (some a) = true

-- The argument `d.Seconds()`, as Redis reads its text: an integer, if the duration is a whole number of
-- seconds, and else no integer. The division is exact; the source has a float64, which drops nanoseconds of
-- a duration of more than some months.
unfoldable pub seconds : ℤ → Option ℤ
seconds (pos n) = if n % 1_000_000_000 == 0 then some (pos (n / 1_000_000_000)) else none
seconds (negsuc n) =
    if suc n % 1_000_000_000 == 0 then some (sub_ℕ 0 (suc n / 1_000_000_000)) else none

-- An expiry that a command refuses: no integer, or one that is not positive.
pub data IsRefused : Option ℤ → Type 0 where
  no_integer : IsRefused none
  not_positive : (n : ℤ) → n ≤ℤ pos 0 → IsRefused (some n)

pub record Redis : Type 1 where
  pub State : Type 0
  -- GET, LRANGE 0 -1, EXISTS, TTL and PTTL.
  pub get : String → State → Option String
  pub list : String → State → List String
  pub exists : String → State → Bool
  pub ttl : String → State → ℤ
  pub pttl : String → State → ℤ
  -- SET with EX, and with NX too; the key at once holds the value for so many seconds.
  pub put : String → String → ℤ → State → State
  pub set_ex : String → String → Option ℤ → State → Option State
  pub set_nx_ex : String → String → Option ℤ → State → Option (State × Bool)
  -- EXPIRE and PEXPIRE, the latter with the reply that Redis gives.
  pub keep : String → ℤ → State → State
  pub expire : String → Option ℤ → State → Option State
  pub pexpire : String → ℤ → State → State × Bool
  pub del : String → State → State
  pub incr : String → State → State
  pub decr : String → State → State
  pub rpush : String → String → State → State
  pub lpop : String → State → State
  pub lrem : String → String → State → State
  -- Milliseconds pass, in which keys may expire.
  pub elapse : ℕ → State → State
  -- Lua's tonumber on the text of a natural number, and that text; a count never goes below 1, since the
  -- scripts delete it instead.
  pub to_number : String → Option ℕ
  pub of_number : ℕ → String
  pub to_number-of_number : (n : ℕ) → to_number (of_number n) ≡ some n
  pub exists-get : (k : String) (s : State) → exists k s ≡ is_some (get k s)
  pub get-put :
      (k j v : String) (n : ℤ) (s : State)
      → get j (put k v n s) ≡ (if str_eq k j then some v else get j s)
  pub list-put : (k j v : String) (n : ℤ) (s : State) → list j (put k v n s) ≡ list j s
  pub set_ex_accepted :
      (k v : String) (n : ℤ) (s : State) → pos 0 <ℤ n → set_ex k v (some n) s ≡ some (put k v n s)
  pub set_ex_refused :
      (k v : String) (t : Option ℤ) (s : State) → IsRefused t → set_ex k v t s ≡ none
  pub set_nx_ex_accepted :
      (k v : String) (n : ℤ) (s : State)
      → pos 0 <ℤ n
      → set_nx_ex k v (some n) s
        ≡ (if is_some (get k s) then some (s, false) else some (put k v n s, true))
  pub set_nx_ex_refused :
      (k v : String) (t : Option ℤ) (s : State) → IsRefused t → set_nx_ex k v t s ≡ none
  pub get-keep : (k j : String) (n : ℤ) (s : State) → get j (keep k n s) ≡ get j s
  pub list-keep : (k j : String) (n : ℤ) (s : State) → list j (keep k n s) ≡ list j s
  pub get-del :
      (k j : String) (s : State) → get j (del k s) ≡ (if str_eq k j then none else get j s)
  pub list-del :
      (k j : String) (s : State) → list j (del k s) ≡ (if str_eq k j then [] else list j s)
  pub expire_accepted :
      (k : String) (n : ℤ) (s : State) → pos 0 <ℤ n → expire k (some n) s ≡ some (keep k n s)
  pub expire_past :
      (k : String) (n : ℤ) (s : State) → n ≤ℤ pos 0 → expire k (some n) s ≡ some (del k s)
  pub expire_refused : (k : String) (s : State) → expire k none s ≡ none
  pub pexpire_accepted :
      (k : String) (n : ℤ) (s : State)
      → pos 0 <ℤ n
      → (get k (pexpire k n s).0 ≡ get k s) × ((pexpire k n s).1 ≡ exists k s)
  pub get-pexpire :
      (k j : String) (n : ℤ) (s : State)
      → (get j (pexpire k n s).0 ≡ get j s)
        ⊎ ((k ≡ j) × (n ≤ℤ pos 0) × (get j (pexpire k n s).0 ≡ none))
  pub list-pexpire :
      (k j : String) (n : ℤ) (s : State)
      → (list j (pexpire k n s).0 ≡ list j s) ⊎ ((k ≡ j) × (list j (pexpire k n s).0 ≡ []))
  pub get-incr_new :
      (k : String) (s : State) → get k s ≡ none → get k (incr k s) ≡ some (of_number 1)
  pub get-incr :
      (k : String) (n : ℕ) (s : State)
      → n < 2 ^ 63 - 1
      → get k s ≡ some (of_number n)
      → get k (incr k s) ≡ some (of_number (suc n))
  pub get-decr :
      (k : String) (n : ℕ) (s : State)
      → get k s ≡ some (of_number (suc n))
      → get k (decr k s) ≡ some (of_number n)
  pub get-incr_other : (k j : String) (s : State) → str_eq k j ≡ false → get j (incr k s) ≡ get j s
  pub get-decr_other : (k j : String) (s : State) → str_eq k j ≡ false → get j (decr k s) ≡ get j s
  pub list-rpush :
      (k j v : String) (s : State)
      → list j (rpush k v s) ≡ (if str_eq k j then list j s ++ v ∷ [] else list j s)
  pub list-lpop :
      (k j : String) (s : State)
      → list j (lpop k s) ≡ (if str_eq k j then rest (list j s) else list j s)
  pub list-lrem :
      (k j v : String) (s : State)
      → list j (lrem k v s) ≡ (if str_eq k j then drop_all v (list j s) else list j s)
  pub get-rpush : (k j v : String) (s : State) → str_eq k j ≡ false → get j (rpush k v s) ≡ get j s
  pub get-lpop : (k j : String) (s : State) → get j (lpop k s) ≡ get j s
  pub get-lrem : (k j v : String) (s : State) → get j (lrem k v s) ≡ get j s
  pub get-elapse :
      (d : ℕ) (k : String) (s : State)
      → (get k (elapse d s) ≡ get k s) ⊎ (get k (elapse d s) ≡ none)
  pub list-elapse :
      (d : ℕ) (k : String) (s : State)
      → (list k (elapse d s) ≡ list k s) ⊎ (list k (elapse d s) ≡ [])

-- What becomes of a request: the reply comes, the request is lost, or the reply is lost after the
-- script has run.
pub data Delivery : Type 0 where
  replied : Delivery
  request_lost : GoError → Delivery
  reply_lost : GoError → Delivery

-- A script's state and reply; `none` is an error reply, which keeps what the script has done so far.
abbrev pub Reply : Type 0 → Type 0 → Type 0
Reply S A = S × Option A

-- What `Eval` hands back: the reply's value, or an error.
pub data Evaluated (A : Type 0) : Type 0 where
  value : A → Evaluated A
  fault : GoError → Evaluated A

abbrev pub script_error : GoError
script_error = foreign "ERR" nil

abbrev pub reply_value : {S A : Type 0} → Reply S A → S × Evaluated A
reply_value (s, none) = (s, fault script_error)
reply_value (s, some a) = (s, value a)

unfoldable pub eval : {S A : Type 0} → Delivery → (S → Reply S A) → S → S × Evaluated A
eval replied script s = reply_value (script s)
eval (request_lost e) script s = (s, fault e)
eval (reply_lost e) script s = ((script s).0, fault e)
