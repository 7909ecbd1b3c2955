-- ===== src/Queue/Order.antt =====
-- bounded_queue.h: the order of delivery, for any number of producers and consumers.
use mathlib.Core.List.{Sublist, append_assoc, append-nil, sublist-append_left}
use mathlib.Core.List.Sublist
use khadas_yolov8n_multithre.Prelude.{
  drop_first, ℕ, ◌<◌, ◌≡◌, refl, Bool, true, false, Option, none, some, List, [], ◌∷◌, ◌++◌, leb,
  length, subst, if◌then◌else◌,
}
use khadas_yolov8n_multithre.Queue.{
  BoundedQueue, DropPolicy, drop_oldest, drop_newest, Op, pushes, pops, closes, prepend, run,
}
use khadas_yolov8n_multithre.Queue.Bound.{kept, first, after, step_lem}

module _ {ℓ} {A : Type ℓ} where
  -- The items that the producers offered, in the order of their calls.
  abbrev pub offered : List (Op A) → List A
  offered [] = []
  offered (pushes x ∷ os) = x ∷ offered os
  offered (pops ∷ os) = offered os
  offered (closes ∷ os) = offered os

  drop_first-sublist : (xs : List A) → Sublist (drop_first xs) xs
  drop_first-sublist [] = Sublist.refl []
  drop_first-sublist (x ∷ xs) = Sublist.cons x (Sublist.refl xs)

  first-drop_first : (xs : List A) → first xs ++ drop_first xs ≡ xs
  first-drop_first [] = refl
  first-drop_first (x ∷ xs) = refl

  kept-sublist :
      (p : DropPolicy) (closed : Bool) (c : ℕ) (xs : List A) (x : A)
      → Sublist (kept p closed c xs x) (xs ++ (x ∷ []))
  kept-sublist p true c xs x = sublist-append_left xs (x ∷ [])
  kept-sublist drop_oldest false c xs x = by_test (leb c (length xs))
    where
      by_test :
          (b : Bool)
          → Sublist (if b then drop_first xs ++ (x ∷ []) else xs ++ (x ∷ [])) (xs ++ (x ∷ []))
      by_test true = Sublist.append (drop_first-sublist xs) (Sublist.refl (x ∷ []))
      by_test false = Sublist.refl (xs ++ (x ∷ []))
  kept-sublist drop_newest false c xs x = by_test (leb c (length xs))
    where
      by_test : (b : Bool) → Sublist (if b then xs else xs ++ (x ∷ [])) (xs ++ (x ∷ []))
      by_test true = sublist-append_left xs (x ∷ [])
      by_test false = Sublist.refl (xs ++ (x ∷ []))

  after-sublist :
      (q : BoundedQueue A) (o : Op A)
      → Sublist ((after q o).1 ++ (after q o).0.items) (q.items ++ offered (o ∷ []))
  after-sublist q (pushes x) = kept-sublist q.policy q.closed q.capacity q.items x
  after-sublist q pops = rw (first-drop_first q.items, append-nil) (Sublist.refl q.items)
  after-sublist q closes = rw append-nil (Sublist.refl q.items)

  offered-cons : (o : Op A) (os : List (Op A)) → offered (o ∷ os) ≡ offered (o ∷ []) ++ offered os
  offered-cons (pushes x) os = refl
  offered-cons pops os = refl
  offered-cons closes os = refl

  prepend_cases :
      (out : List A) {outs : List A} {q : BoundedQueue A} (m : Option (BoundedQueue A × List A))
      → prepend out m ≡ some (q, outs)
      → (rest : List A) × (m ≡ some (q, rest)) × (outs ≡ out ++ rest)
  unfolding prepend
  prepend_cases out none e = absurd (cc)
  prepend_cases out (some (r, rest)) e = (rest, cc, cc)

  capacity-after : (q : BoundedQueue A) (o : Op A) → (after q o).0.capacity ≡ q.capacity
  capacity-after q (pushes x) = refl
  capacity-after q pops = refl
  capacity-after q closes = refl

  -- Whatever the interleaving, a schedule that runs delivers items in the order in which they were
  -- pushed, each at most as often as it was pushed: what was delivered, followed by what is left,
  -- is a subsequence of what was there followed by what was offered.
  pub run-sublist :
      (q : BoundedQueue A) (os : List (Op A)) (q' : BoundedQueue A) (outs : List A)
      → 0 < q.capacity
      → run q os ≡ some (q', outs)
      → Sublist (outs ++ q'.items) (q.items ++ offered os)
  unfolding run
  run-sublist q [] q' outs h e = rw append-nil (final (q', outs) (cc))
    where
      final : (r : BoundedQueue A × List A) → (q, []) ≡ r → Sublist (r.1 ++ r.0.items) q.items
      final r p = subst (λ r. Sublist (r.1 ++ r.0.items) q.items) p (Sublist.refl q.items)
  run-sublist q (o ∷ os) q' outs h e =
      let (rest, e', split) =
        prepend_cases (after q o).1 (run (after q o).0 os) (rw (step_lem q o h, run) at e) in
      let later = run-sublist (after q o).0 os q' rest (rw (capacity-after q o) h) e' in
      rw (split, append_assoc, offered-cons o os)
        (Sublist.trans (Sublist.append (Sublist.refl (after q o).1) later) (regroup o))
    where
      regroup :
          (o : Op A)
          → Sublist
              ((after q o).1 ++ ((after q o).0.items ++ offered os))
              (q.items ++ (offered (o ∷ []) ++ offered os))
      regroup o =
          rw
            (
              ← append_assoc (after q o).1 (after q o).0.items (offered os),
              ← append_assoc q.items (offered (o ∷ [])) (offered os),
            )
            (Sublist.append (after-sublist q o) (Sublist.refl (offered os)))
