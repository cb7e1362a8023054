-- ===== src/Redis/Fair/Order.antt =====
-- The queue of the fair lock in Redis over histories: entries leave from anywhere, and never change their
-- order.
use mathlib.Core.List.{append_assoc}
use x_ailock.Base.{
  ℕ, ℤ, pos, leb_ℤ, String, false, not, ◌&&◌, Option, none, some, List, [], ◌∷◌, ◌++◌, ◌≡◌, refl,
  sym, ◌∙◌, subst, inl, inr, arith, str_eq, eq_refl, Bool-cases, Option-cases, Thinned,
  Thinned-refl, Thinned-nil, Thinned-cons, Thinned-trans, Thinned-append, Thinned-more,
}
use x_ailock.Redis.Expiry.{Expiry-cases}
use x_ailock.Redis.Server.{Redis, first, rest, drop_all, is_some}
use x_ailock.Redis.Scripts.{
  fair_lock_try_acquire, fair_lock_acquire, fair_lock_release, fair_lock_extend, take_front, equals,
  or_refused,
}
use x_ailock.Redis.Fair.Holder.{
  Request, tries, acquires, releases, extends, cleans, perform, take_front_accepted,
  take_front_refused,
}

drop_all-Thinned : (v : String) (q : List String) → Thinned q (drop_all v q)
unfolding drop_all
drop_all-Thinned v [] = tt
drop_all-Thinned v (x ∷ q) = elim (Bool-cases (str_eq x v)) [
  | inl same ↦ rw same (Thinned-cons x q (drop_all v q) (drop_all-Thinned v q))
  | inr other ↦ rw other (inl (refl, drop_all-Thinned v q))
]

rest-Thinned : (q : List String) → Thinned q (rest q)
rest-Thinned [] = tt
rest-Thinned (v ∷ q) = Thinned-cons v q q (Thinned-refl q)

module _ (r : Redis) (k qk : String) (apart : str_eq qk k ≡ false) where
  open r use {State, get, list, put, lpop, rpush}

  -- In a step, entries may go from the queue, but none joins, and none changes its place.
  abbrev Keeps : State → State → Type 0
  Keeps s s' = Thinned (list qk s) (list qk s')

  -- One value joins, at the back.
  abbrev Joins : String → State → State → Type 0
  Joins v s s' = Thinned (list qk s ++ v ∷ []) (list qk s')

  thins : (s s' : State) (p : List String) → list qk s' ≡ p → Thinned (list qk s) p → Keeps s s'
  thins s s' p e t = subst (Thinned (list qk s)) (sym e) t

  same : (s s' : State) → list qk s' ≡ list qk s → Keeps s s'
  same s s' e = thins s s' (list qk s) e (Thinned-refl (list qk s))

  cleared : (s s' : State) → list qk s' ≡ [] → Keeps s s'
  cleared s s' e = thins s s' [] e (Thinned-nil (list qk s))

  put-Keeps : (j v : String) (m : ℤ) (s : State) → Keeps s (put j v m s)
  put-Keeps j v m s = same s (put j v m s) (r.list-put j qk v m s)

  rpush-Joins : (v : String) (s : State) → Joins v s (rpush qk v s)
  rpush-Joins v s =
      let e : list qk (rpush qk v s) ≡ list qk s ++ v ∷ [] =
        ground (arith, r.list-rpush qk qk v s, eq_refl qk) in
      subst (Thinned (list qk s ++ v ∷ [])) (sym e) (Thinned-refl (list qk s ++ v ∷ []))

  lrem-Keeps : (v : String) (s : State) → Keeps s (r.lrem qk v s)
  lrem-Keeps v s =
      thins s (r.lrem qk v s) (drop_all v (list qk s))
        (ground (arith, r.list-lrem qk qk v s, eq_refl qk)) (drop_all-Thinned v (list qk s))

  del-Keeps : (j : String) (s : State) → Keeps s (r.del j s)
  del-Keeps j s = elim (Bool-cases (str_eq j qk)) [
    | inl e ↦ cleared s (r.del j s) (rw (r.list-del j qk s, e) refl)
    | inr e ↦ same s (r.del j s) (rw (r.list-del j qk s, e) refl)
  ]

  take_front-Keeps : (v : String) (t : Option ℤ) (s : State) → Keeps s (take_front r k qk v t s).0
  take_front-Keeps v t s = elim (Expiry-cases t) [
    | inl h ↦ rw (take_front_refused r k qk apart v t s h) (same s s refl)
    | inr (m, e, p) ↦
        rw (e, take_front_accepted r k qk apart v m s p)
          (thins s (lpop qk (put k v m s)) (rest (list qk s))
            (ground (arith, r.list-lpop qk qk (put k v m s), r.list-put k qk v m s, eq_refl qk))
            (rest-Thinned (list qk s)))
  ]

  expire-Keeps : (t : Option ℤ) (s s' : State) → r.expire qk t s ≡ some s' → Keeps s s'
  expire-Keeps none s s' e = absurd (ground (arith, r.expire_refused qk s))
  expire-Keeps (some m) s s' e = elim (Bool-cases (leb_ℤ m (pos 0))) [
    | inl past ↦
        let z : some s' ≡ some (r.del qk s) = sym e ∙ r.expire_past qk m s (ground arith) in
        subst (Keeps s) (ground (arith, z)) (del-Keeps qk s)
    | inr future ↦
        let z : some s' ≡ some (r.keep qk m s) = sym e ∙ r.expire_accepted qk m s (ground arith) in
        subst (Keeps s) (ground (arith, z)) (same s (r.keep qk m s) (r.list-keep qk qk m s))
  ]

  or_refused-Keeps :
      (v : String) (t : Option ℤ) (s : State) → Keeps s (or_refused s (r.set_ex k v t s) (pos 1)).0
  or_refused-Keeps v t s = elim (Expiry-cases t) [
    | inl h ↦ rw (r.set_ex_refused k v t s h) (same s s refl)
    | inr (m, e, p) ↦ rw (e, r.set_ex_accepted k v m s p) (put-Keeps k v m s)
  ]

  try_acquire-Joins :
      (v : String) (t qt : Option ℤ) (s : State)
      → Joins v s (fair_lock_try_acquire r k qk v t qt s).0
  unfolding fair_lock_try_acquire
  try_acquire-Joins v t qt s = elim (Bool-cases (r.exists k s)) [
    | inr free ↦
        rw (fair_lock_try_acquire, free)
          (Thinned-more (list qk s) _ (v ∷ []) (or_refused-Keeps v t s))
    | inl taken ↦ elim (Option-cases (r.expire qk qt (rpush qk v s))) [
      | inl e ↦ rw (fair_lock_try_acquire, taken, e) (rpush-Joins v s)
      | inr (s', e) ↦
          let there : Joins v s s' =
            Thinned-trans _ _ _ (rpush-Joins v s) (expire-Keeps qt (rpush qk v s) s' e) in
          elim (Bool-cases (equals (first (list qk s')) v && not (is_some (get k s')))) [
            | inl turn ↦
                rw (fair_lock_try_acquire, taken, e, turn)
                  (Thinned-trans _ _ _ there (take_front-Keeps v t s'))
            | inr wait ↦ rw (fair_lock_try_acquire, taken, e, wait) there
          ]
    ]
  ]

  acquire-Keeps :
      (v : String) (t : Option ℤ) (s : State) → Keeps s (fair_lock_acquire r k qk v t s).0
  unfolding fair_lock_acquire
  acquire-Keeps v t s = elim (Bool-cases (equals (first (list qk s)) v)) [
    | inr behind ↦ rw (fair_lock_acquire, behind) (same s s refl)
    | inl front ↦ elim (Bool-cases (is_some (get k s))) [
      | inl held ↦ rw (fair_lock_acquire, front, held) (same s s refl)
      | inr free ↦ rw (fair_lock_acquire, front, free) (take_front-Keeps v t s)
    ]
  ]

  release-Keeps : (v : String) (s : State) → Keeps s (fair_lock_release r k qk v s).0
  unfolding fair_lock_release
  release-Keeps v s = elim (Bool-cases (equals (get k s) v)) [
    | inl own ↦
        rw (fair_lock_release, own) (Thinned-trans _ _ _ (del-Keeps k s) (lrem-Keeps v (r.del k s)))
    | inr other ↦ rw (fair_lock_release, other) (same s s refl)
  ]

  extend-Keeps : (v : String) (ms : ℤ) (s : State) → Keeps s (fair_lock_extend r k v ms s).0
  unfolding fair_lock_extend
  extend-Keeps v ms s = elim (Bool-cases (equals (get k s) v)) [
    | inl own ↦
        rw (fair_lock_extend, own)
          (elim (r.list-pexpire k qk ms s) [
            | inl e ↦ same s (r.pexpire k ms s).0 e
            | inr (z, e) ↦ cleared s (r.pexpire k ms s).0 e
          ])
    | inr other ↦ rw (fair_lock_extend, other) (same s s refl)
  ]

  kept : (q p vs : List String) → Thinned q p → Thinned (q ++ vs) (p ++ vs)
  kept q p vs t = Thinned-append q p vs vs t (Thinned-refl vs)

  -- A script, or milliseconds that pass, in which keys may expire.
  pub data FairEvent : Type 0 where
    performs : Request r k qk apart → FairEvent
    passes : ℕ → FairEvent

  pub fair_history : List FairEvent → State → State
  fair_history [] s = s
  fair_history (performs q ∷ es) s = fair_history es (perform r k qk apart q s)
  fair_history (passes d ∷ es) s = fair_history es (r.elapse d s)

  abbrev pub arrival : Request r k qk apart → List String → List String
  arrival (tries v t qt) vs = v ∷ vs
  arrival (acquires v t) vs = vs
  arrival (releases v) vs = vs
  arrival (extends v ms) vs = vs
  arrival (cleans v) vs = vs

  -- The values of the attempts with `TryLock`, in their order.
  abbrev pub arrivals : List FairEvent → List String
  arrivals [] = []
  arrivals (performs q ∷ es) = arrival q (arrivals es)
  arrivals (passes d ∷ es) = arrivals es

  perform-Thinned :
      (q : Request r k qk apart) (s : State) (vs : List String)
      → Thinned (list qk s ++ arrival q vs) (list qk (perform r k qk apart q s) ++ vs)
  unfolding perform
  perform-Thinned (tries v t qt) s vs =
      subst (λ p. Thinned p (list qk (perform r k qk apart (tries v t qt) s) ++ vs))
        (append_assoc (list qk s) (v ∷ []) vs)
        (Thinned-append _ _ vs vs (try_acquire-Joins v t qt s) (Thinned-refl vs))
  perform-Thinned (acquires v t) s vs = kept _ _ vs (acquire-Keeps v t s)
  perform-Thinned (releases v) s vs = kept _ _ vs (release-Keeps v s)
  perform-Thinned (extends v ms) s vs = kept _ _ vs (extend-Keeps v ms s)
  perform-Thinned (cleans v) s vs = kept _ _ vs (lrem-Keeps v s)

  -- Over any history of the scripts of one fair lock, with any values and expiries, in which keys expire
  -- too: the queue is what is left of the queue at the start followed by the values of the attempts with
  -- `TryLock` since, in the order in which they came. So entries may go from anywhere, but those that
  -- wait never change their order.
  pub fair_history-Thinned :
      (es : List FairEvent) (s : State)
      → Thinned (list qk s ++ arrivals es) (list qk (fair_history es s))
  unfolding fair_history
  fair_history-Thinned [] s = Thinned-more (list qk s) (list qk s) [] (Thinned-refl (list qk s))
  fair_history-Thinned (performs q ∷ es) s =
      Thinned-trans _ _ _ (perform-Thinned q s (arrivals es))
        (fair_history-Thinned es (perform r k qk apart q s))
  fair_history-Thinned (passes d ∷ es) s =
      Thinned-trans _ _ _
        (kept _ _ (arrivals es) (elim (r.list-elapse d qk s) [
          | inl e ↦ same s (r.elapse d s) e
          | inr e ↦ cleared s (r.elapse d s) e
        ]))
        (fair_history-Thinned es (r.elapse d s))
