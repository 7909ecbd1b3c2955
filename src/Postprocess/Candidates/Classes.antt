-- ===== src/Postprocess/Candidates/Classes.antt =====
-- Every candidate has a class of the model.
use khadas_yolov8n_multithre.Prelude.{
  ℕ, zero, suc, ◌+◌, ◌*◌, ◌≤◌, ◌<◌, Option, none, some, List, [], ◌∷◌, ◌++◌, map, arith, ◌&&◌,
  if-cases, length, take, drop, length-take, Option-cases, inl, inr, subst,
}
use khadas_yolov8n_multithre.Prelude.Int.{ℤ, pos, ltb_ℤ, leb_ℤ}
use khadas_yolov8n_multithre.Prelude.Float.{Float32}
use khadas_yolov8n_multithre.Postprocess.{best_class, obj_class_num}
use khadas_yolov8n_multithre.Postprocess.Selection.{AllClasses}
use khadas_yolov8n_multithre.Postprocess.Candidates.{
  Candidate, candidate, with_candidate, process_row, process_rows, process, cell_size,
}

-- A class that is found is below `m`.
abbrev Under : ℕ → Option ℕ → Type 0
Under m none = Unit {0}
Under m (some id) = id < m

best_class-Under :
    (thres : ℤ) (m k : ℕ) (ps : List ℤ) (best : ℤ × Option ℕ)
    → k + length ps ≤ m
    → Under m best.1
    → Under m (best_class thres k ps best).1
unfolding best_class
best_class-Under thres m k [] best h u = u
best_class-Under thres m k (p ∷ ps) best h u =
    best_class-Under thres m (suc k) ps _ (omega (arith, h)) (
      if-cases (λ b. Under m b.1) (leb_ℤ thres p && ltb_ℤ best.0 p) (p, some k) best
        (λ _. omega (arith, h)) (λ _. u))

module _ (fl : Float32) where
  open fl use {F}

  abbrev pub classes : List (Candidate F) → List ℕ
  classes cs = map (λ c. c.class_id) cs

  pub append-AllClasses :
      (cs ds : List (Candidate F))
      → AllClasses (classes cs)
      → AllClasses (classes ds)
      → AllClasses (classes (cs ++ ds))
  append-AllClasses [] ds h k = k
  append-AllClasses (c ∷ cs) ds h k = (h.0, append-AllClasses cs ds h.1 k)

  with_candidate-AllClasses :
      (o : Option (Candidate F)) (rest : List (Candidate F))
      → Under obj_class_num (elim o [ none ↦ none | some c ↦ some (c.class_id) ])
      → AllClasses (classes rest)
      → AllClasses (classes (with_candidate fl o rest))
  unfolding with_candidate
  with_candidate-AllClasses none rest u h = h
  with_candidate-AllClasses (some c) rest u h = (u, h)

  candidate-Under :
      (thres zp : ℤ) (scale : F) (stride i j : ℕ) (cell : List ℤ)
      → Under obj_class_num (elim (candidate fl thres zp scale stride i j cell) [
        | none ↦ none
        | some c ↦ some (c.class_id)
      ])
  unfolding candidate
  candidate-Under thres zp scale stride i j cell =
      let best = best_class thres 0 (take obj_class_num cell) (pos 0, none) in
      let u : Under obj_class_num best.1 =
        best_class-Under thres obj_class_num 0 (take obj_class_num cell) (pos 0, none)
          (omega (arith, length-take obj_class_num cell)) tt in
      elim (Option-cases best.1) [
        | inl e ↦ rw e tt
        | inr (id, e) ↦ rw e (subst (Under obj_class_num) e u)
      ]

  process_row-AllClasses :
      (thres zp : ℤ) (scale : F) (stride grid_w i j n : ℕ) (input : List ℤ)
      → AllClasses (classes (process_row fl thres zp scale stride grid_w i j n input))
  unfolding process_row
  process_row-AllClasses thres zp scale stride grid_w i j zero input = tt
  process_row-AllClasses thres zp scale stride grid_w i j (suc n) input =
      with_candidate-AllClasses _ (process_row fl thres zp scale stride grid_w i (j + 1) n input)
        (candidate-Under thres zp scale stride i j
          (take cell_size (drop ((i * grid_w + j) * cell_size) input)))
        (process_row-AllClasses thres zp scale stride grid_w i (j + 1) n input)

  process_rows-AllClasses :
      (thres zp : ℤ) (scale : F) (stride grid_w i n : ℕ) (input : List ℤ)
      → AllClasses (classes (process_rows fl thres zp scale stride grid_w i n input))
  unfolding process_rows
  process_rows-AllClasses thres zp scale stride grid_w i zero input = tt
  process_rows-AllClasses thres zp scale stride grid_w i (suc n) input =
      append-AllClasses (process_row fl thres zp scale stride grid_w i 0 grid_w input)
        (process_rows fl thres zp scale stride grid_w (i + 1) n input)
        (process_row-AllClasses thres zp scale stride grid_w i 0 grid_w input)
        (process_rows-AllClasses thres zp scale stride grid_w (i + 1) n input)

  pub process-AllClasses :
      (input : List ℤ) (grid_h grid_w stride : ℕ) (threshold : F) (zp : ℤ) (scale : F)
      → AllClasses (classes (process fl input grid_h grid_w stride threshold zp scale))
  unfolding process
  process-AllClasses input grid_h grid_w stride threshold zp scale =
      process_rows-AllClasses _ zp scale stride grid_w 0 grid_h input
