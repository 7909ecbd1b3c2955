-- ===== src/Postprocess/Sort/Order.antt =====
-- The whole sort: it ends, and gives the pairs in the order of falling scores.
use mathlib.Core.List.Perm
use khadas_yolov8n_multithre.Prelude.{
  ℕ, zero, suc, ◌-◌, ◌≤◌, ◌<◌, ◌≡◌, refl, sym, subst, ◌∙◌, inl, inr, true, some, List, Perm, arith,
  ltb, length, set, Bool-cases, tests,
}
use khadas_yolov8n_multithre.Prelude.Float.{Float32}
use khadas_yolov8n_multithre.Postprocess.Sort.{Scored, at, quick_sort_indice_inverse}
use khadas_yolov8n_multithre.Postprocess.Sort.Hole.{Keeps, SameOutside}
use khadas_yolov8n_multithre.Postprocess.Sort.Partition.{Numbers, Split, partition-Split}

module _ (fl : Float32) where
  open fl use {F, le, le_trans}

  -- `b` is `a` with the segment from `left` to `stop` put in the order of falling scores.
  pub record IsSortOf (left stop : ℕ) (a b : List (Scored fl)) : Type 0 where
    pub size : length b ≡ length a
    pub falling : (i j : ℕ) → left ≤ i → i < j → j < stop → le (at fl b j).0 (at fl b i).0 ≡ true
    pub same : SameOutside fl a b left stop
    pub keeps : Keeps fl a b left stop
    pub perm : Perm b a

  -- A change inside a segment keeps what holds of a larger one.
  Keeps-widen :
      (left stop l r : ℕ) (a b : List (Scored fl))
      → left ≤ l
      → r ≤ stop
      → SameOutside fl a b l r
      → Keeps fl a b l r
      → Keeps fl a b left stop
  Keeps-widen left stop l r a b lo hi same keeps q h i from upto = elim (Bool-cases (ltb i l)) [
    | inl before ↦ ground (arith, same i (inl (omega tests)), h i from upto)
    | inr from' ↦ elim (Bool-cases (ltb i r)) [
      | inr behind ↦ ground (arith, same i (inr (omega tests)), h i from upto)
      | inl inside ↦
          keeps q (λ k c d. h k (omega arith) (omega arith)) i (omega tests) (omega tests)
    ]
  ]

  module _ (left stop m : ℕ) (a c d e : List (Scored fl)) (held : left < stop)
      (room : stop ≤ length a) (numbers : Numbers fl a left stop)
      (split : Split fl left stop a held room numbers m c) (first : IsSortOf left m c d)
      (second : IsSortOf (suc m) stop d e) where
    abbrev key : F
    key = (at fl a left).0

    at_pivot : at fl e m ≡ at fl a left
    at_pivot = second.same m (inl (omega arith)) ∙ first.same m (inr (omega arith)) ∙ split.pivot

    upper : (i : ℕ) → left ≤ i → i ≤ m → le key (at fl e i).0 ≡ true
    upper i lo hi = elim (Bool-cases (ltb i m)) [
      | inl inside ↦
          let kept = first.keeps (λ x. le key x) split.above i lo (omega tests) in
          subst (λ x. le key x.0 ≡ true) (sym (second.same i (inl (omega arith)))) kept
      | inr end ↦
          let met : m ≡ i = omega tests in
          subst (λ k. le key (at fl e k).0 ≡ true) met
            (subst (λ x. le key x.0 ≡ true) (sym at_pivot) (numbers left (omega arith) held))
    ]

    lower : (i : ℕ) → m < i → i < stop → le (at fl e i).0 key ≡ true
    lower =
        second.keeps (λ x. le x key)
          λ k lo hi.
            subst (λ x. le x.0 key ≡ true) (sym (first.same k (inr (omega arith))))
              (split.below k lo hi)

    -- Both halves sorted, `key` between them.
    halves_falling : (i j : ℕ) → left ≤ i → i < j → j < stop → le (at fl e j).0 (at fl e i).0 ≡ true
    halves_falling i j lo between hi = elim (Bool-cases (ltb j m)) [
      | inl left_half ↦ ground (
        arith,
        second.same i (inl (omega tests)),
        second.same j (inl (omega tests)),
        first.falling i j lo between (omega tests),
      )
      | inr not_left ↦ elim (Bool-cases (ltb m i)) [
        | inl right_half ↦ second.falling i j (omega tests) between hi
        | inr not_right ↦ elim (Bool-cases (ltb m j)) [
          | inl apart ↦ le_trans _ _ _ (lower j (omega tests) hi) (upper i lo (omega tests))
          | inr met ↦
              let here : m ≡ j = omega tests in
              subst (λ k. le (at fl e k).0 (at fl e i).0 ≡ true) here
                (subst (λ x. le x.0 (at fl e i).0 ≡ true) (sym at_pivot) (upper i lo (omega arith)))
        ]
      ]
    ]

    halves-IsSortOf : IsSortOf left stop a e
    halves-IsSortOf = record {
      size = second.size ∙ first.size ∙ split.size;
      falling = halves_falling;
      same = λ i out. elim out [
        | inl before ↦
            second.same i (inl (omega (arith, split.from)))
            ∙ first.same i (inl before)
            ∙ split.same i (inl before)
        | inr behind ↦
            second.same i (inr behind)
            ∙ first.same i (inr (omega (arith, split.upto)))
            ∙ split.same i (inr behind)
      ];
      keeps = λ q h.
          Keeps-widen left stop (suc m) stop d e (omega (arith, split.from)) (omega arith)
            second.same second.keeps q
            (Keeps-widen left stop left m c d (omega arith) (omega (arith, split.upto)) first.same
              first.keeps q (split.keeps q h));
      perm = Perm.trans second.perm (Perm.trans first.perm split.perm);
    }

  -- On a segment without a NaN the sort returns, with one unit of fuel more than the segment is
  -- long, and gives the same pairs in the order of falling scores; outside the segment nothing
  -- changes.
  pub quick_sort_indice_inverse-IsSortOf :
      (fuel left stop : ℕ) (a : List (Scored fl))
      → stop - left < fuel
      → stop ≤ length a
      → Numbers fl a left stop
      → (b : List (Scored fl)) × (quick_sort_indice_inverse fl fuel left stop a ≡ some b)
        × IsSortOf left stop a b
  unfolding quick_sort_indice_inverse
  quick_sort_indice_inverse-IsSortOf zero left stop a enough room numbers = absurd (omega arith)
  quick_sort_indice_inverse-IsSortOf (suc fuel) left stop a enough room numbers =
      elim (Bool-cases (ltb (suc left) stop)) [
        | inr short ↦ (
          a,
          rw short,
          record {
            size = refl;
            falling = λ i j lo between hi. absurd (omega tests);
            same = λ i out. refl;
            keeps = λ q h. h;
            perm = Perm.refl a;
          },
        )
        | inl long ↦
            let held : left < stop = omega tests in
            let (m, b, parted, split) = partition-Split fl left stop a held room numbers in
            let c = set b m (at fl a left) in
            let (d, sorted1, first) =
              quick_sort_indice_inverse-IsSortOf fuel left m c (omega (arith, split.upto))
                (omega (arith, split.upto, split.size))
                (λ i lo hi. split.keeps (λ x. le x x) numbers i lo (omega (arith, split.upto))) in
            let (e, sorted2, second) =
              quick_sort_indice_inverse-IsSortOf fuel (suc m) stop d
                (omega (arith, split.from, split.upto)) (omega (arith, first.size, split.size))
                (λ i lo hi.
                  subst (λ x. le x.0 x.0 ≡ true) (sym (first.same i (inr (omega arith))))
                    (split.keeps (λ x. le x x) numbers i (omega (arith, split.from)) hi)) in
            (
              e,
              rw (long, parted, sorted1, sorted2),
              halves-IsSortOf left stop m a c d e held room numbers split first second,
            )
      ]
