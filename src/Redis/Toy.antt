-- ===== src/Redis/Toy.antt =====
-- A small server for the tests, in which no key expires by itself and a number is written as a tally.
use Prim.Native.String.{◌++◌ as ◌joined◌}
use Prim.Native.String.{count}
use text.Mathlib.TextLemmas.{length-append}
use x_ailock.Base.{
  ℕ, zero, suc, ◌-◌, ℤ, pos, negsuc, ltb_ℤ, leb_ℤ, ◌<ℤ◌, ◌≤ℤ◌, String, Bool, true, false, Option,
  none, some, List, [], ◌∷◌, ◌++◌, ◌≡◌, refl, arith, if◌then◌else◌, str_eq, eq_iff, eq_refl, inl,
  inr, ◌⊎◌, Bool-cases,
}
use x_ailock.Redis.Server.{Redis, IsRefused, not_positive, is_some, rest, drop_all}

-- The strings and the lists by their keys.
pub record Store : Type 0 where
  pub strings : String → Option String
  pub lists : String → List String

abbrev pub empty : Store
empty = record { strings = λ k. none; lists = λ k. [] }

abbrev pub put : String → String → Store → Store
put k v s = record s { strings = λ j. if str_eq k j then some v else s.strings j }

abbrev pub set_list : String → List String → Store → Store
set_list k q s = record s { lists = λ j. if str_eq k j then q else s.lists j }

abbrev pub del : String → Store → Store
del k s = record {
  strings = λ j. if str_eq k j then none else s.strings j;
  lists = λ j. if str_eq k j then [] else s.lists j;
}

abbrev pub tally : ℕ → String
tally zero = ""
tally (suc n) = "1" joined tally n

pub count-tally : (n : ℕ) → count (tally n) ≡ n
count-tally zero = refl
count-tally (suc n) = ground (arith, length-append "1" (tally n), count-tally n)

pub less_one : (n : ℕ) → suc n - 1 ≡ n
less_one n = omega arith

abbrev pub count_of : Option String → ℕ
count_of none = zero
count_of (some t) = count t

abbrev pub accepted : Option ℤ → Bool
accepted none = false
accepted (some n) = ltb_ℤ (pos 0) n

abbrev pub set_nx : String → String → Option String → Store → Store × Bool
set_nx k v none s = (put k v s, true)
set_nx k v (some w) s = (s, false)

abbrev pub expire_in : String → Option ℤ → Store → Option Store
expire_in k none s = none
expire_in k (some n) s = some (if leb_ℤ n (pos 0) then del k s else s)

pub refused-accepted : (t : Option ℤ) → IsRefused t → accepted t ≡ false
refused-accepted none h = refl
refused-accepted (some n) (not_positive m h) = ground arith

pub set_nx-accepted :
    (k v : String) (n : ℤ) (s : Store)
    → pos 0 <ℤ n
    → (if accepted (some n) then some (set_nx k v (s.strings k) s) else none)
      ≡ (if is_some (s.strings k) then some (s, false) else some (put k v s, true))
set_nx-accepted k v n s h = ground arith

pub get-pexpire :
    (k j : String) (n : ℤ) (s : Store)
    → let s' = if leb_ℤ n (pos 0) then del k s else s in
      (s'.strings j ≡ s.strings j) ⊎ ((k ≡ j) × (n ≤ℤ pos 0) × (s'.strings j ≡ none))
get-pexpire k j n s = ground (arith, eq_iff k j)

pub list-pexpire :
    (k j : String) (n : ℤ) (s : Store)
    → let s' = if leb_ℤ n (pos 0) then del k s else s in
      (s'.lists j ≡ s.lists j) ⊎ ((k ≡ j) × (s'.lists j ≡ []))
list-pexpire k j n s = ground (arith, eq_iff k j)

-- An entry that is computed from the key's own.
pub at_key :
    {A : Type 0} (f : A → A) (g : String → A) (k j : String)
    → (if str_eq k j then f (g k) else g j) ≡ (if str_eq k j then f (g j) else g j)
at_key f g k j = elim (Bool-cases (str_eq k j)) [
  | inl e ↦ rw ((eq_iff k j).0 e) refl
  | inr e ↦ rw e refl
]

abbrev pub toy : Redis
toy = record {
  State = Store;
  get = λ k s. s.strings k;
  list = λ k s. s.lists k;
  exists = λ k s. is_some (s.strings k);
  ttl = λ k s. negsuc 0;
  pttl = λ k s. negsuc 0;
  put = λ k v n s. put k v s;
  set_ex = λ k v t s. if accepted t then some (put k v s) else none;
  set_nx_ex = λ k v t s. if accepted t then some (set_nx k v (s.strings k) s) else none;
  keep = λ k n s. s;
  expire = expire_in;
  pexpire = λ k n s. (if leb_ℤ n (pos 0) then del k s else s, is_some (s.strings k));
  del = del;
  incr = λ k s. put k (tally (suc (count_of (s.strings k)))) s;
  decr = λ k s. put k (tally (count_of (s.strings k) - 1)) s;
  rpush = λ k v s. set_list k (s.lists k ++ v ∷ []) s;
  lpop = λ k s. set_list k (rest (s.lists k)) s;
  lrem = λ k v s. set_list k (drop_all v (s.lists k)) s;
  elapse = λ d s. s;
  to_number = λ t. some (count t);
  of_number = tally;
  to_number-of_number = λ n. ground (arith, count-tally n);
  exists-get = λ k s. refl;
  get-put = λ k j v n s. refl;
  list-put = λ k j v n s. refl;
  set_ex_accepted = λ k v n s h. ground arith;
  set_ex_refused = λ k v t s h. rw (refused-accepted t h) refl;
  set_nx_ex_accepted = λ k v n s h. set_nx-accepted k v n s h;
  set_nx_ex_refused = λ k v t s h. rw (refused-accepted t h) refl;
  get-keep = λ k j n s. refl;
  list-keep = λ k j n s. refl;
  get-del = λ k j s. refl;
  list-del = λ k j s. refl;
  expire_accepted = λ k n s h. ground arith;
  expire_past = λ k n s h. ground arith;
  expire_refused = λ k s. refl;
  pexpire_accepted = λ k n s h. (ground arith, refl);
  get-pexpire = λ k j n s. get-pexpire k j n s;
  list-pexpire = λ k j n s. list-pexpire k j n s;
  get-incr_new = λ k s h. rw (eq_refl k, h) refl;
  get-incr = λ k n s b h. rw (eq_refl k, h, count-tally n) refl;
  get-decr = λ k n s h. rw (eq_refl k, h, count-tally (suc n), less_one n) refl;
  get-incr_other = λ k j s h. ground (arith, h);
  get-decr_other = λ k j s h. ground (arith, h);
  list-rpush = λ k j v s. at_key (λ q. q ++ v ∷ []) s.lists k j;
  list-lpop = λ k j s. at_key rest s.lists k j;
  list-lrem = λ k j v s. at_key (drop_all v) s.lists k j;
  get-rpush = λ k j v s h. refl;
  get-lpop = λ k j s. refl;
  get-lrem = λ k j v s. refl;
  get-elapse = λ d k s. inl refl;
  list-elapse = λ d k s. inl refl;
}
