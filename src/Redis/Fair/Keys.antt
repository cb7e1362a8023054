-- ===== src/Redis/Fair/Keys.antt =====
-- The two keys of a fair lock in Redis.
use Prim.Native.String.{◌++◌}
use text.Mathlib.TextLemmas.{append_cancel_left, append-nil}
use x_ailock.Base.{String, false, ◌≡◌, sym, ◌∙◌, arith, str_eq, eq_iff, inl, inr, Bool-cases}
use x_ailock.Redis.Fair.{new_redis_fair_lock}

-- The two keys of a handle differ.
pub queue_key-ne-key :
    (key : String)
    → str_eq (new_redis_fair_lock key).queue_key (new_redis_fair_lock key).key ≡ false
unfolding new_redis_fair_lock
queue_key-ne-key key = elim (Bool-cases (str_eq (key ++ ":queue") key)) [
  | inl same ↦
      let tails : ":queue" ≡ "" =
        append_cancel_left key ":queue" ""
          ((eq_iff (key ++ ":queue") key).0 same ∙ sym (append-nil key)) in
      absurd (ground (arith, tails, eq_iff ":queue" ""))
  | inr apart ↦ apart
]
