-- ===== src/Queue/Bound.antt =====
-- bounded_queue.h: how many items the queue holds, and what a closed queue does.
use khadas_yolov8n_multithre.Prelude.{
  drop_first, length-drop_first, ℕ, ◌≤◌, ◌<◌, ◌≡◌, refl, Bool, true, false, not, some, List, [],
  ◌∷◌, ◌++◌, ◌∙◌, arith, leb, length, length-append, if◌then◌else◌,
}
use khadas_yolov8n_multithre.Queue.{
  BoundedQueue, DropPolicy, drop_oldest, drop_newest, push, push_full, pop_front, pop, take_front,
  close, Op, pushes, pops, closes, step, run,
}

-- The capacity is not zero, and the queue keeps to it.
pub record IsBounded {ℓ} {A : Type ℓ} (q : BoundedQueue A) : Type 0 where
  pub room : 0 < q.capacity
  pub within : length q.items ≤ q.capacity

module _ {ℓ} {A : Type ℓ} where
  -- The contents that a push should leave.
  abbrev pub kept : DropPolicy → Bool → ℕ → List A → A → List A
  kept p true c xs x = xs
  kept drop_oldest false c xs x =
      if leb c (length xs) then drop_first xs ++ (x ∷ []) else xs ++ (x ∷ [])
  kept drop_newest false c xs x = if leb c (length xs) then xs else xs ++ (x ∷ [])

  -- Whether a push should report that nothing was lost.
  abbrev pub accepted : Bool → ℕ → List A → Bool
  accepted closed c xs = if closed then false else not (leb c (length xs))

  push_fields :
      (p : DropPolicy) (closed : Bool) (c : ℕ) (xs : List A) (x : A)
      → 0 < c
      → push (record { capacity = c; policy = p; closed = closed; items = xs }) x
        ≡ some (
          record { capacity = c; policy = p; closed = closed; items = kept p closed c xs x },
          accepted closed c xs,
        )
  unfolding push push_full pop_front
  push_fields p true c xs x h = refl
  push_fields drop_oldest false c [] x h = ground arith
  push_fields drop_oldest false c (y ∷ ys) x h = ground arith
  push_fields drop_newest false c xs x h = ground arith

  push_lem :
      (q : BoundedQueue A) (x : A)
      → 0 < q.capacity
      → push q x
        ≡ some (
          record q { items = kept q.policy q.closed q.capacity q.items x },
          accepted q.closed q.capacity q.items,
        )
  push_lem q x h = push_fields q.policy q.closed q.capacity q.items x h

  length-kept :
      (p : DropPolicy) (closed : Bool) (c : ℕ) (xs : List A) (x : A)
      → 0 < c
      → length xs ≤ c
      → length (kept p closed c xs x) ≤ c
  length-kept p true c xs x h k = k
  length-kept drop_oldest false c xs x h k = ground (
    arith,
    length-append (drop_first xs) (x ∷ []),
    length-append xs (x ∷ []),
    length-drop_first xs,
  )
  length-kept drop_newest false c xs x h k = ground (arith, length-append xs (x ∷ []))

  abbrev pub first : List A → List A
  first [] = []
  first (x ∷ xs) = x ∷ []

  -- What a call should leave, and what it should hand out.
  abbrev pub after : BoundedQueue A → Op A → BoundedQueue A × List A
  after q (pushes x) = (record q { items = kept q.policy q.closed q.capacity q.items x }, [])
  after q pops = (record q { items = drop_first q.items }, first q.items)
  after q closes = (record q { closed = true }, [])

  pop_fields :
      (p : DropPolicy) (closed : Bool) (c : ℕ) (xs : List A)
      → let q : BoundedQueue A = record { capacity = c; policy = p; closed = closed; items = xs } in
        step q pops ≡ some (after q pops)
  unfolding step pop take_front
  pop_fields p true c [] = refl
  pop_fields p false c [] = refl
  pop_fields p true c (x ∷ xs) = refl
  pop_fields p false c (x ∷ xs) = refl

  pub step_lem : (q : BoundedQueue A) (o : Op A) → 0 < q.capacity → step q o ≡ some (after q o)
  unfolding step close
  step_lem q (pushes x) h = rw (push_lem q x h, step)
  step_lem q pops h = pop_fields q.policy q.closed q.capacity q.items
  step_lem q closes h = refl

  length-drop_first-le : (xs : List A) → length (drop_first xs) ≤ length xs
  length-drop_first-le xs = omega (arith, length-drop_first xs)

  after-IsBounded : (q : BoundedQueue A) (o : Op A) → IsBounded q → IsBounded (after q o).0
  after-IsBounded q (pushes x) v = record {
    room = v.room;
    within = length-kept q.policy q.closed q.capacity q.items x v.room v.within;
  }
  after-IsBounded q pops v = record {
    room = v.room;
    within = omega (arith, length-drop_first-le q.items, v.within);
  }
  after-IsBounded q closes v = record { room = v.room; within = v.within }

  capacity-after : (q : BoundedQueue A) (o : Op A) → (after q o).0.capacity ≡ q.capacity
  capacity-after q (pushes x) = refl
  capacity-after q pops = refl
  capacity-after q closes = refl

  -- In a queue with room, no schedule of calls runs into undefined behaviour: it runs to its end,
  -- and the queue never holds more than its capacity, which does not change.
  pub run-IsBounded :
      (q : BoundedQueue A) (os : List (Op A))
      → IsBounded q
      → (r : BoundedQueue A × List A) × (run q os ≡ some r)
        × IsBounded r.0
        × (r.0.capacity ≡ q.capacity)
  unfolding run
  run-IsBounded q [] v = ((q, []), refl, v, refl)
  run-IsBounded q (o ∷ os) v =
      let (r, e, b, c) = run-IsBounded (after q o).0 os (after-IsBounded q o v) in
      ((r.0, (after q o).1 ++ r.1), rw (step_lem q o v.room, run, e), b, c ∙ capacity-after q o)

  -- Once closed, a queue takes no more items: every push is refused and changes nothing, under
  -- either policy and at any fill.
  push-closed : (q : BoundedQueue A) (x : A) → q.closed ≡ true → push q x ≡ some (q, false)
  unfolding push
  push-closed q x e = rw (e, push)
