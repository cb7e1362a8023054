-- ===== src/Redis/Scripts.antt =====
-- redis_scripts.go: the Lua scripts, each one step on the server. A reply of 1, 0 or -1 is an integer;
-- a table is the tuple of its entries.
use x_ailock.Base.{
  ℕ, ◌+◌, ltb, ℤ, pos, negsuc, String, Bool, true, false, not, ◌&&◌, Option, none, some, List, [],
  ◌∷◌, if◌then◌else◌, str_eq, length,
}
use x_ailock.Redis.Server.{Redis, Reply, first, is_some}

-- `redis.call("GET", …) == ARGV[1]`, where a missing key is no text.
abbrev pub equals : Option String → String → Bool
equals none v = false
equals (some w) v = str_eq w v

abbrev pub bit : Bool → ℤ
bit true = pos 1
bit false = pos 0

-- The index of a value in a list, from index `i`, as the loop over `ipairs` finds it; -1 if none.
unfoldable pub index_from : ℕ → String → List String → ℤ
index_from i v [] = negsuc 0
index_from i v (w ∷ q) = if str_eq w v then pos i else index_from (i + 1) v q

-- The replies of a command that Redis may refuse.
abbrev pub or_refused : {S : Type 0} → S → Option S → ℤ → Reply S ℤ
or_refused s none n = (s, none)
or_refused s (some s') n = (s', some n)

abbrev pub or_not_set : {S : Type 0} → S → Option (S × Bool) → Reply S ℤ
or_not_set s none = (s, none)
or_not_set s (some (s', done)) = (s', some (bit done))

module _ (r : Redis) where
  open r use {
    State, get, list, exists, ttl, pttl, set_ex, set_nx_ex, expire, pexpire, del, incr, decr, rpush,
    lpop, lrem, to_number,
  }

  unfoldable pub simple_lock_acquire : String → String → Option ℤ → State → Reply State ℤ
  simple_lock_acquire key value ttl_arg s = or_not_set s (set_nx_ex key value ttl_arg s)

  unfoldable pub simple_lock_release : String → String → State → Reply State ℤ
  simple_lock_release key value s =
      if equals (get key s) value then (del key s, some (pos 1)) else (s, some (pos 0))

  unfoldable pub simple_lock_extend : String → String → Option ℤ → State → Reply State ℤ
  simple_lock_extend key value ttl_arg s =
      if equals (get key s) value
      then or_refused s (expire key ttl_arg s) (pos 1)
      else (s, some (pos 0))

  unfoldable pub simple_lock_status : String → State → Reply State (ℤ × ℤ)
  simple_lock_status key s =
      (s, some (if exists key s then (pos 1, ttl key s) else (pos 0, negsuc 0)))

  unfoldable pub rw_lock_acquire_read : String → String → Option ℤ → State → Reply State ℤ
  rw_lock_acquire_read read_key write_key ttl_arg s =
      if not (exists write_key s)
      then or_refused (incr read_key s) (expire read_key ttl_arg (incr read_key s)) (pos 1)
      else (s, some (pos 0))

  -- A count that is no number makes the comparison an error.
  unfoldable pub count_down : String → Option ℕ → State → Reply State ℤ
  count_down read_key none s = (s, none)
  count_down read_key (some count) s =
      if ltb 1 count then (decr read_key s, some (pos 1)) else (del read_key s, some (pos 1))

  unfoldable pub rw_lock_release_read : String → State → Reply State ℤ
  unfolding count_down
  rw_lock_release_read read_key s = elim (get read_key s) [
    | none ↦ (s, some (pos 0))
    | some t ↦ count_down read_key (to_number t) s
  ]

  unfoldable pub rw_lock_acquire_write : String → String → String → Option ℤ → State → Reply State ℤ
  rw_lock_acquire_write read_key write_key value ttl_arg s =
      if not (exists read_key s) && not (exists write_key s)
      then or_refused s (set_ex write_key value ttl_arg s) (pos 1)
      else (s, some (pos 0))

  unfoldable pub rw_lock_release_write : String → String → State → Reply State ℤ
  rw_lock_release_write write_key value s =
      if equals (get write_key s) value then (del write_key s, some (pos 1)) else (s, some (pos 0))

  -- A table that starts with nil is the empty table: `none`.
  unfoldable pub rw_lock_status : String → String → State → Reply State (Option (ℕ × ℤ))
  rw_lock_status read_key write_key s = (
    s,
    some (elim (get read_key s) [
      | none ↦ some (0, bit (exists write_key s))
      | some t ↦ elim (to_number t) [ none ↦ none | some n ↦ some (n, bit (exists write_key s)) ]
    ]),
  )

  -- The last part of the two scripts that take a fair lock from the front of its queue.
  unfoldable pub take_front : String → String → String → Option ℤ → State → Reply State ℤ
  take_front key queue_key value ttl_arg s = elim (set_ex key value ttl_arg s) [
    | none ↦ (s, none)
    | some s' ↦ (lpop queue_key s', some (pos 1))
  ]

  unfoldable pub fair_lock_try_acquire :
      String → String → String → Option ℤ → Option ℤ → State → Reply State ℤ
  unfolding take_front
  fair_lock_try_acquire key queue_key value ttl_arg queue_ttl_arg s =
      if not (exists key s)
      then or_refused s (set_ex key value ttl_arg s) (pos 1)
      else elim (expire queue_key queue_ttl_arg (rpush queue_key value s)) [
        | none ↦ (rpush queue_key value s, none)
        | some s' ↦
            if equals (first (list queue_key s')) value && not (is_some (get key s'))
            then take_front key queue_key value ttl_arg s'
            else (s', some (negsuc 0))
      ]

  unfoldable pub fair_lock_acquire : String → String → String → Option ℤ → State → Reply State ℤ
  unfolding take_front
  fair_lock_acquire key queue_key value ttl_arg s =
      if not (equals (first (list queue_key s)) value)
      then (s, some (pos 0))
      else if not (is_some (get key s))
      then take_front key queue_key value ttl_arg s
      else (s, some (negsuc 0))

  unfoldable pub fair_lock_release : String → String → String → State → Reply State ℤ
  fair_lock_release key queue_key value s =
      if equals (get key s) value
      then (lrem queue_key value (del key s), some (pos 1))
      else (s, some (pos 0))

  unfoldable pub fair_lock_extend : String → String → ℤ → State → Reply State ℤ
  fair_lock_extend key value ms s =
      if equals (get key s) value
      then ((pexpire key ms s).0, some (bit (pexpire key ms s).1))
      else (s, some (pos 0))

  -- `value` is the optional argument.
  unfoldable pub fair_lock_status :
      String → String → Option String → State → Reply State (ℤ × ℤ × ℕ × ℤ)
  unfolding index_from
  fair_lock_status key queue_key value s = (
    s,
    some (
      bit (exists key s),
      (if exists key s then pttl key s else negsuc 0),
      length (list queue_key s),
      elim value [ none ↦ negsuc 0 | some v ↦ index_from 0 v (list queue_key s) ],
    ),
  )

  unfoldable pub fair_lock_cleanup : String → String → State → State
  fair_lock_cleanup queue_key value s = lrem queue_key value s
