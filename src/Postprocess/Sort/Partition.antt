-- ===== src/Postprocess/Sort/Partition.antt =====
-- The loop of the sort around `key`: it ends, and parts the segment into what is not below `key` and
-- what is not above it.
use mathlib.Core.List.Perm
use khadas_yolov8n_multithre.Prelude.{
  ℕ, zero, suc, ◌-◌, ◌≤◌, ◌<◌, ◌≡◌, refl, subst, ◌∙◌, inl, inr, true, some, List, ◌∷◌, Perm, arith,
  ltb, length, set, get_or-set, length-set, Bool-cases, tests,
}
use khadas_yolov8n_multithre.Prelude.Float.{Float32}
use khadas_yolov8n_multithre.Postprocess.Sort.{Scored, at, scan_high, scan_low, partition}
use khadas_yolov8n_multithre.Postprocess.Sort.Scan.{
  ScannedHigh, scan_high-ScannedHigh, ScannedLow, scan_low-ScannedLow,
}
use khadas_yolov8n_multithre.Postprocess.Sort.Hole.{
  Keeps, SameOutside, hole-perm, fill-perm, Keeps-set, SameOutside-set,
}

module _ (fl : Float32) where
  open fl use {F, lit, le, le_total}

  -- No score of the segment is a NaN.
  abbrev pub Numbers : List (Scored fl) → ℕ → ℕ → Type 0
  Numbers a left stop = (i : ℕ) → left ≤ i → i < stop → le (at fl a i).0 (at fl a i).0 ≡ true

  -- The segment of `a0` from `left` to `stop`, whose first pair is held in `key`.
  module _ (left stop : ℕ) (a0 : List (Scored fl)) (held : left < stop) (room : stop ≤ length a0)
      (numbers : Numbers a0 left stop) where
    abbrev kp : Scored fl
    kp = at fl a0 left

    record Parting (hole low high : ℕ) (a : List (Scored fl)) : Type 0 where
      size : length a ≡ length a0
      from : left ≤ low
      ordered : low ≤ high
      upto : high < stop
      at_hole : (low ≤ hole) × (hole ≤ high)
      above : (i : ℕ) → left ≤ i → i < low → le kp.0 (at fl a i).0 ≡ true
      below : (i : ℕ) → high < i → i < stop → le (at fl a i).0 kp.0 ≡ true
      same : SameOutside fl a0 a left stop
      keeps : Keeps fl a0 a left stop
      perm : Perm (kp ∷ a) (at fl a hole ∷ a0)

    start-Parting : Parting left left (stop - 1) a0
    start-Parting = record {
      size = refl;
      from = omega arith;
      ordered = omega arith;
      upto = omega arith;
      at_hole = omega arith;
      above = λ i b c. absurd (omega arith);
      below = λ i b c. absurd (omega arith);
      same = λ i o. refl;
      keeps = λ q h. h;
      perm = Perm.refl _;
    }

    module _ (low high : ℕ) (a : List (Scored fl)) (p : Parting low low high a) (h : ℕ)
        (s : ScannedHigh fl kp.0 low a high h) where
      -- The first copy moves the hole up.
      up-Parting : Parting h low h (set a low (at fl a h))
      up-Parting =
          let got =
            λ (i : ℕ). get_or-set a low i (at fl a h) (lit 0 1, 0) (omega (arith, p.size)) in
          record {
            size = length-set a low (at fl a h) ∙ p.size;
            from = p.from;
            ordered = s.from;
            upto = omega (arith, s.upto, p.upto);
            at_hole = omega (arith, s.from);
            above = λ i b c. ground (arith, got i, p.above i);
            below = λ i b c. ground (arith, got i, p.below i, s.passed i, s.from);
            same =
                SameOutside-set fl left stop a0 a low (at fl a h) p.from
                  (omega (arith, p.upto, p.ordered)) (omega (arith, p.size)) p.same;
            keeps =
                Keeps-set fl left stop a0 a low (at fl a h) p.from
                  (omega (arith, p.upto, p.ordered)) (omega (arith, p.size)) p.keeps
                  (λ q n.
                    p.keeps q n h (omega (arith, p.from, s.from)) (omega (arith, p.upto, s.upto)));
            perm = hole-perm fl kp a a0 low h (omega (arith, p.upto, p.ordered, p.size)) p.perm;
          }

      -- A round that starts moves the bounds towards one another, as `key` is no NaN.
      module _ (l : ℕ) (t : ScannedLow fl kp.0 h (set a low (at fl a h)) low l) where
        progress : low < high → h - l < high - low
        progress more = elim s.stopped [
          | inl met ↦ omega (arith, t.from, p.ordered)
          | inr big ↦
              let number : le (at fl a h).0 (at fl a h).0 ≡ true =
                p.keeps (λ x. le x x) numbers h (omega (arith, p.from, s.from))
                  (omega (arith, p.upto, s.upto)) in
              let at_least = le_total _ _ number (numbers left (omega arith) held) big in
              elim t.stopped [
                | inl met ↦ omega (arith, t.from, s.upto, more)
                | inr small ↦
                    let got =
                      get_or-set a low l (at fl a h) (lit 0 1, 0)
                        (omega (arith, p.upto, p.ordered, p.size)) in
                    let moved : low < l = ground (arith, got, at_least, small, t.from) in
                    omega (arith, moved, t.upto, s.upto)
              ]
        ]

    -- The second copy moves the hole down.
    down-Parting :
        (low h : ℕ) (a : List (Scored fl)) (l : ℕ)
        → Parting h low h a
        → ScannedLow fl kp.0 h a low l
        → Parting l l h (set a h (at fl a l))
    down-Parting low h a l p t =
        let inside : h < length a = omega (arith, p.upto, p.size) in
        let got = λ (i : ℕ). get_or-set a h i (at fl a l) (lit 0 1, 0) inside in
        record {
          size = length-set a h (at fl a l) ∙ p.size;
          from = omega (arith, p.from, t.from);
          ordered = t.upto;
          upto = p.upto;
          at_hole = omega (arith, t.upto);
          above = λ i b c. ground (arith, got i, p.above i, t.passed i, t.upto);
          below = λ i b c. ground (arith, got i, p.below i);
          same =
              SameOutside-set fl left stop a0 a h (at fl a l) (omega (arith, p.from, p.ordered))
                p.upto (omega (arith, p.size)) p.same;
          keeps =
              Keeps-set fl left stop a0 a h (at fl a l) (omega (arith, p.from, p.ordered)) p.upto
                (omega (arith, p.size)) p.keeps
                (λ q n.
                  p.keeps q n l (omega (arith, p.from, t.from)) (omega (arith, p.upto, t.upto)));
          perm = hole-perm fl kp a a0 h l inside p.perm;
        }

    -- With fuel for the distance the loop ends, and its bounds have met.
    partition-Parting :
        (fuel low high : ℕ) (a : List (Scored fl))
        → high - low < fuel
        → Parting low low high a
        → (m : ℕ) × (b : List (Scored fl)) × (partition fl kp.0 fuel low high a ≡ some (m, b))
          × Parting m m m b
    unfolding partition
    partition-Parting zero low high a f p = absurd (omega arith)
    partition-Parting (suc fuel) low high a f p = elim (Bool-cases (ltb low high)) [
      | inr end ↦
          let met : high ≡ low = omega (tests, p.ordered) in
          (low, a, rw end refl, subst (λ h. Parting low low h a) met p)
      | inl more ↦
          let s = scan_high-ScannedHigh fl kp.0 low a high p.ordered in
          let h = scan_high fl kp.0 low a high in
          let a' = set a low (at fl a h) in
          let t = scan_low-ScannedLow fl kp.0 h a' (h - low) low (omega (arith, s.from)) in
          let l = scan_low fl kp.0 h a' (h - low) low in
          rw more (
            partition-Parting fuel l h (set a' h (at fl a' l))
              (omega (arith, progress low high a p h s l t (omega tests)))
              (down-Parting low h a' l (up-Parting low high a p h s) t))
    ]

    -- What a round of the sort has when `key` is back in place, at `m`.
    pub record Split (m : ℕ) (b : List (Scored fl)) : Type 0 where
      pub size : length b ≡ length a0
      pub from : left ≤ m
      pub upto : m < stop
      pub pivot : at fl b m ≡ kp
      pub above : (i : ℕ) → left ≤ i → i < m → le kp.0 (at fl b i).0 ≡ true
      pub below : (i : ℕ) → m < i → i < stop → le (at fl b i).0 kp.0 ≡ true
      pub same : SameOutside fl a0 b left stop
      pub keeps : Keeps fl a0 b left stop
      pub perm : Perm b a0

    pub partition-Split :
        (m : ℕ) × (b : List (Scored fl)) × (partition fl kp.0 stop left (stop - 1) a0 ≡ some (m, b))
        × Split m (set b m kp)
    partition-Split =
        let (m, b, e, p) = partition-Parting stop left (stop - 1) a0 (omega arith) start-Parting in
        let inside : m < length b = omega (arith, p.upto, p.size) in
        let got = λ (i : ℕ). get_or-set b m i kp (lit 0 1, 0) inside in
        (
          m,
          b,
          e,
          record {
            size = length-set b m kp ∙ p.size;
            from = p.from;
            upto = p.upto;
            pivot = ground (arith, got m);
            above = λ i c d. ground (arith, got i, p.above i);
            below = λ i c d. ground (arith, got i, p.below i);
            same =
                SameOutside-set fl left stop a0 b m kp p.from p.upto (omega (arith, p.size)) p.same;
            keeps =
                Keeps-set fl left stop a0 b m kp p.from p.upto (omega (arith, p.size)) p.keeps
                  (λ q n. n left (omega arith) held);
            perm = fill-perm fl kp b a0 m inside p.perm;
          },
        )
