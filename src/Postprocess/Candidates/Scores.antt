-- ===== src/Postprocess/Candidates/Scores.antt =====
-- The class scan of a cell, and how many candidates there can be.
use khadas_yolov8n_multithre.Prelude.{
  ℕ, zero, suc, ◌+◌, ◌*◌, ◌≤◌, ◌<◌, ◌∙◌, ◌≡◌, refl, sym, ap, subst, ◌⊎◌, inl, inr, true, false,
  ◌&&◌, Option, none, some, some-injective, List, [], ◌∷◌, arith, length, length-append, get_elem?,
  if-cases,
}
use khadas_yolov8n_multithre.Prelude.Int.{ℤ, pos, pos_part, neg_part, ◌≤ℤ◌, ltb_ℤ, leb_ℤ}
use khadas_yolov8n_multithre.Prelude.Float.{Float32}
use khadas_yolov8n_multithre.Postprocess.{best_class}
use khadas_yolov8n_multithre.Postprocess.Candidates.{
  Candidate, with_candidate, process_row, process_rows, process,
}

abbrev pub Below : ℤ → ℤ → Type 0
Below a b = pos_part a + neg_part b < pos_part b + neg_part a

passes : (thres b p : ℤ) → (leb_ℤ thres p && ltb_ℤ b p) ≡ true → (thres ≤ℤ p) × Below b p
passes thres b p h = ground arith

fails : (thres b p : ℤ) → (leb_ℤ thres p && ltb_ℤ b p) ≡ false → thres ≤ℤ p → p ≤ℤ b
fails thres b p h t = ground arith

-- The result names a class from `k` on, and has its score, which is better than `best`.
abbrev pub Later : ℤ → ℕ → List ℤ → ℤ × Option ℕ → ℤ × Option ℕ → Type 0
Later thres k ps best r =
    (i : ℕ) × (r.1 ≡ some (k + i)) × (get_elem? ps i ≡ some r.0) × (thres ≤ℤ r.0) × Below best.0 r.0

-- What the scan of scores from class `k` on makes of the best score so far.
record Scanned (thres : ℤ) (k : ℕ) (ps : List ℤ) (best r : ℤ × Option ℕ) : Type 0 where
  grows : best.0 ≤ℤ r.0
  bounds : (i : ℕ) (p : ℤ) → get_elem? ps i ≡ some p → thres ≤ℤ p → p ≤ℤ r.0
  source : (r ≡ best) ⊎ Later thres k ps best r

-- A score that is taken, before the scan of the others.
taken-Scanned :
    (thres : ℤ) (k : ℕ) (p : ℤ) (ps : List ℤ) (best r : ℤ × Option ℕ)
    → thres ≤ℤ p
    → Below best.0 p
    → Scanned thres (suc k) ps (p, some k) r
    → Scanned thres k (p ∷ ps) best r
taken-Scanned thres k p ps best r t b v = record {
  grows = omega (arith, b, v.grows);
  bounds = bounds;
  source = source v.source;
}
  where
    bounds : (i : ℕ) (q : ℤ) → get_elem? (p ∷ ps) i ≡ some q → thres ≤ℤ q → q ≤ℤ r.0
    bounds zero q h u = subst (λ x. x ≤ℤ r.0) (some-injective _ _ h) v.grows
    bounds (suc i) q h u = v.bounds i q h u

    source :
        (r ≡ (p, some k)) ⊎ Later thres (suc k) ps (p, some k) r
        → (r ≡ best) ⊎ Later thres k (p ∷ ps) best r
    source (inl e) =
        let same : p ≡ r.0 = ap (λ x. x.0) (sym e) in
        let here : k ≡ k + 0 = omega arith in
        inr (
          0,
          ap (λ x. x.1) e ∙ ap some here,
          ap some same,
          subst (λ x. thres ≤ℤ x) same t,
          subst (λ x. Below best.0 x) same b,
        )
    source (inr (i, c, g, u, l)) =
        let there : suc k + i ≡ k + suc i = omega arith in
        inr (suc i, c ∙ ap some there, g, u, omega (arith, b, l))

-- A score that is passed over.
skipped-Scanned :
    (thres : ℤ) (k : ℕ) (p : ℤ) (ps : List ℤ) (best r : ℤ × Option ℕ)
    → (thres ≤ℤ p → p ≤ℤ best.0)
    → Scanned thres (suc k) ps best r
    → Scanned thres k (p ∷ ps) best r
skipped-Scanned thres k p ps best r low v = record {
  grows = v.grows;
  bounds = bounds;
  source = source v.source;
}
  where
    bounds : (i : ℕ) (q : ℤ) → get_elem? (p ∷ ps) i ≡ some q → thres ≤ℤ q → q ≤ℤ r.0
    bounds zero q h u =
        let same : p ≡ q = some-injective _ _ h in
        subst (λ x. x ≤ℤ r.0) same
          (omega (arith, v.grows, low (subst (λ x. thres ≤ℤ x) (sym same) u)))
    bounds (suc i) q h u = v.bounds i q h u

    source : (r ≡ best) ⊎ Later thres (suc k) ps best r → (r ≡ best) ⊎ Later thres k (p ∷ ps) best r
    source (inl e) = inl e
    source (inr (i, c, g, u, l)) =
        let there : suc k + i ≡ k + suc i = omega arith in inr (suc i, c ∙ ap some there, g, u, l)

scan-Scanned :
    (thres : ℤ) (k : ℕ) (ps : List ℤ) (best : ℤ × Option ℕ)
    → Scanned thres k ps best (best_class thres k ps best)
unfolding best_class
scan-Scanned thres k [] best = record {
  grows = omega arith;
  bounds = λ i p h t. absurd (cc h);
  source = inl refl;
}
scan-Scanned thres k (p ∷ ps) best =
    if-cases (λ b. Scanned thres k (p ∷ ps) best (best_class thres (suc k) ps b))
      (leb_ℤ thres p && ltb_ℤ best.0 p) (p, some k) best
      (λ e.
        let (t, b) = passes thres best.0 p e in
        taken-Scanned thres k p ps best _ t b (scan-Scanned thres (suc k) ps (p, some k)))
      (λ e.
        skipped-Scanned thres k p ps best _ (fails thres best.0 p e)
          (scan-Scanned thres (suc k) ps best))

-- The class scan of a cell: the score that it ends with bounds every score that reaches the
-- threshold, and is 0 with no class, or the positive score, from the threshold on, of the class
-- that it names.
pub best_class-Scanned :
    (thres : ℤ) (ps : List ℤ)
    → let r = best_class thres 0 ps (pos 0, none) in
      ((i : ℕ) (p : ℤ) → get_elem? ps i ≡ some p → thres ≤ℤ p → p ≤ℤ r.0)
      × ((r ≡ (pos 0, none)) ⊎ Later thres 0 ps (pos 0, none) r)
best_class-Scanned thres ps = let v = scan-Scanned thres 0 ps (pos 0, none) in (v.bounds, v.source)

module _ (fl : Float32) where
  open fl use {F}

  length-with_candidate :
      (o : Option (Candidate F)) (rest : List (Candidate F))
      → length (with_candidate fl o rest) ≤ 1 + length rest
  unfolding with_candidate
  length-with_candidate none rest = omega arith
  length-with_candidate (some c) rest = omega arith

  length-process_row :
      (thres zp : ℤ) (scale : F) (stride grid_w i j n : ℕ) (input : List ℤ)
      → length (process_row fl thres zp scale stride grid_w i j n input) ≤ n
  unfolding process_row
  length-process_row thres zp scale stride grid_w i j zero input = omega arith
  length-process_row thres zp scale stride grid_w i j (suc n) input =
      let rest = process_row fl thres zp scale stride grid_w i (j + 1) n input in
      omega (
        arith,
        length-with_candidate _ rest,
        length-process_row thres zp scale stride grid_w i (j + 1) n input,
      )

  length-process_rows :
      (thres zp : ℤ) (scale : F) (stride grid_w i n : ℕ) (input : List ℤ)
      → length (process_rows fl thres zp scale stride grid_w i n input) ≤ n * grid_w
  unfolding process_rows
  length-process_rows thres zp scale stride grid_w i zero input = omega arith
  length-process_rows thres zp scale stride grid_w i (suc n) input =
      let row = process_row fl thres zp scale stride grid_w i 0 grid_w input in
      let rest = process_rows fl thres zp scale stride grid_w (i + 1) n input in
      omega (
        arith,
        length-append row rest,
        length-process_row thres zp scale stride grid_w i 0 grid_w input,
        length-process_rows thres zp scale stride grid_w (i + 1) n input,
      )

  -- A tensor gives at most one candidate for each cell of its grid, as the reserved space expects.
  length-process :
      (input : List ℤ) (grid_h grid_w stride : ℕ) (threshold : F) (zp : ℤ) (scale : F)
      → length (process fl input grid_h grid_w stride threshold zp scale) ≤ grid_h * grid_w
  unfolding process
  length-process input grid_h grid_w stride threshold zp scale =
      length-process_rows _ zp scale stride grid_w 0 grid_h input
