-- ===== src/Queue/Latest.antt =====
-- bounded_queue.h: which items a producer alone leaves in the queue, by the drop policy.
use khadas_yolov8n_multithre.Prelude.{
  ℕ, suc, ◌-◌, ◌≤◌, ◌<◌, ◌≡◌, false, some, List, [], ◌∷◌, ◌++◌, map, inl, inr, Bool-cases, tests,
  arith, leb, length, length-append, take, length-take, drop, length-drop, append-nil, append_assoc,
}
use khadas_yolov8n_multithre.Queue.{
  BoundedQueue, DropPolicy, drop_oldest, drop_newest, new, pushes, run,
}
use khadas_yolov8n_multithre.Prelude.{
  drop_first-drop, drop-append, drop-nil, take-nil, take_all, take-append,
}
use khadas_yolov8n_multithre.Queue.Bound.{kept, step_lem}

module _ {ℓ} {A : Type ℓ} where
  -- One push onto the last `c` items of `ys` gives the last `c` of `ys ++ [x]`.
  kept_latest :
      (c : ℕ) (ys : List A) (x : A)
      → 0 < c
      → kept drop_oldest false c (drop (length ys - c) ys) x
        ≡ drop (length (ys ++ (x ∷ [])) - c) (ys ++ (x ∷ []))
  kept_latest c ys x h = elim (Bool-cases (leb c (length (drop (length ys - c) ys)))) [
    | inl full ↦
        let grown : length (ys ++ (x ∷ [])) - c ≡ suc (length ys - c) =
          omega (tests, full, length-append ys (x ∷ []), length-drop (length ys - c) ys) in
        rw (
          full,
          grown,
          drop-append (suc (length ys - c)) ys (x ∷ [])
              (omega (tests, full, length-drop (length ys - c) ys)),
          drop_first-drop (length ys - c) ys,
        )
    | inr room ↦
        let before : length ys - c ≡ 0 = omega (tests, room, length-drop (length ys - c) ys) in
        let grown : length (ys ++ (x ∷ [])) - c ≡ 0 =
          omega (tests, room, length-append ys (x ∷ []), length-drop (length ys - c) ys) in
        rw (room, before, grown)
  ]

  kept_first :
      (c : ℕ) (ys : List A) (x : A)
      → kept drop_newest false c (take c ys) x ≡ take c (ys ++ (x ∷ []))
  kept_first c ys x = elim (Bool-cases (leb c (length (take c ys)))) [
    | inl full ↦ rw (full, take-append c ys (x ∷ []) (omega (tests, full, length-take c ys)))
    | inr room ↦
        let short : suc (length ys) ≤ c = omega (tests, room, length-take c ys) in
        rw (
          room,
          take_all c ys (omega arith),
          take_all c (ys ++ (x ∷ [])) (omega (arith, length-append ys (x ∷ []))),
        )
  ]

  holding : DropPolicy → ℕ → List A → BoundedQueue A
  holding p c xs = record { capacity = c; policy = p; closed = false; items = xs }

  run_latest :
      (c : ℕ) (ys xs : List A)
      → 0 < c
      → run (holding drop_oldest c (drop (length ys - c) ys)) (map pushes xs)
        ≡ some (holding drop_oldest c (drop (length (ys ++ xs) - c) (ys ++ xs)), [])
  unfolding run holding
  run_latest c ys [] h = rw append-nil
  run_latest c ys (x ∷ xs) h = rw (
    step_lem (holding drop_oldest c (drop (length ys - c) ys)) (pushes x) h,
    run,
    kept_latest c ys x h,
    run_latest c (ys ++ (x ∷ [])) xs h,
    append_assoc ys (x ∷ []) xs,
  )

  run_first :
      (c : ℕ) (ys xs : List A)
      → 0 < c
      → run (holding drop_newest c (take c ys)) (map pushes xs)
        ≡ some (holding drop_newest c (take c (ys ++ xs)), [])
  unfolding run holding
  run_first c ys [] h = rw append-nil
  run_first c ys (x ∷ xs) h = rw (
    step_lem (holding drop_newest c (take c ys)) (pushes x) h,
    run,
    kept_first c ys x,
    run_first c (ys ++ (x ∷ [])) xs h,
    append_assoc ys (x ∷ []) xs,
  )

  -- Under `kDropOldest` a new queue that only receives pushes holds the last `capacity` of the
  -- items pushed, in their order. Under `kDropNewest` it holds the first `capacity` of them.
  pub run-new :
      (c : ℕ) (xs : List A)
      → 0 < c
      → (run (new c drop_oldest) (map pushes xs)
          ≡ some (record (new c drop_oldest) { items = drop (length xs - c) xs }, []))
        × (run (new c drop_newest) (map pushes xs)
            ≡ some (record (new c drop_newest) { items = take c xs }, []))
  unfolding new holding
  run-new c xs h = (rw drop-nil at (run_latest c [] xs h), rw take-nil at (run_first c [] xs h))
