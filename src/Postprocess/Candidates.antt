-- ===== src/Postprocess/Candidates.antt =====
-- `process` of yolov8n_cap_multithread/src/postprocess.cc: the candidates of one output tensor. The `double` steps of
-- `sigmoid` and `unsigmoid` are taken in the one floating type; an `int8_t` is an integer.
pub mod Scores
pub mod Classes
use khadas_yolov8n_multithre.Prelude.{
  ℕ, zero, suc, ◌+◌, ◌-◌, ◌*◌, Bool, true, false, Option, none, some, List, [], ◌∷◌, ◌++◌, take,
  drop, if◌then◌else◌,
}
use khadas_yolov8n_multithre.Prelude.Int.{ℤ, pos, negsuc, pos_part, ◌+ℤ◌, ◌-ℤ◌, ltb_ℤ, max_ℤ}
use khadas_yolov8n_multithre.Prelude.Float.{Float32}
use khadas_yolov8n_multithre.Postprocess.{Location, best_class, obj_class_num}

-- A box with its score and class, as `process` appends them to its three vectors.
pub record Candidate {ℓ} (F : Type ℓ) : Type ℓ where
  pub box : Location F
  pub prob : F
  pub class_id : ℕ

-- `x_max`, over the 64 values of a box
pub largest : ℤ → List ℤ → ℤ
largest m [] = m
largest m (x ∷ xs) = largest (if ltb_ℤ m x then x else m) xs

-- int8 values of one cell: the class scores, then four sides of 16 values
abbrev pub cell_size : ℕ
cell_size = obj_class_num + 4 * 16

module _ (fl : Float32) where
  open fl use {F, of_int, lit, add, sub, mul, div, exp, log, le, to_int, of_bits}

  pub sigmoid : F → F
  sigmoid x = div (lit 1 1) (add (lit 1 1) (exp (sub (lit 0 1) x)))

  pub unsigmoid : F → F
  unsigmoid y = mul (of_int (negsuc 0)) (log (sub (div (lit 1 1) y) (lit 1 1)))

  -- The bit pattern of a non-negative `int32_t`, read as a `float`.
  pub fast_expf : F → F
  fast_expf x =
      let i : ℤ = to_int (mul (lit 12102203 1) x) +ℤ pos 1065353216 in
      if ltb_ℤ (pos 0) i then of_bits (pos_part i) else lit 0 1

  pub clip : F → F → F → ℤ
  clip val low high = to_int (if le val low then low else if le high val then high else val)

  pub qnt_f32_to_affine : F → ℤ → F → ℤ
  unfolding clip
  qnt_f32_to_affine f32 zp scale =
      clip (add (div f32 scale) (of_int zp)) (of_int (negsuc 127)) (lit 127 1)

  pub deqnt_affine_to_f32 : ℤ → ℤ → F → F
  deqnt_affine_to_f32 q zp scale = mul (sub (of_int q) (of_int zp)) scale

  -- The inner loop of `decode_box4`, from value `k` of a side on: `output / sum` at its end.
  pub decode_side : ℤ → F → ℕ → F → F → List ℤ → F
  unfolding fast_expf
  decode_side x_max scale k sum output [] = div output sum
  decode_side x_max scale k sum output (x ∷ xs) =
      let e = fast_expf (mul (of_int (x -ℤ x_max)) scale) in
      decode_side x_max scale (k + 1) (add sum e) (add output (mul (of_int (pos k)) e)) xs

  pub side : List ℤ → F → ℕ → F
  unfolding decode_side largest
  side x scale s =
      decode_side (largest (negsuc 127) x) scale 0 (lit 0 1) (lit 0 1) (take 16 (drop (s * 16) x))

  -- The candidate of the cell in row `i` and column `j`, if a class passes the threshold.
  pub candidate : ℤ → ℤ → F → ℕ → ℕ → ℕ → List ℤ → Option (Candidate F)
  unfolding side sigmoid deqnt_affine_to_f32
  candidate thres zp scale stride i j cell =
      let dfl = drop obj_class_num cell in
      let col = add (of_int (pos j)) (lit 1 2) in
      let row = add (of_int (pos i)) (lit 1 2) in
      let step = of_int (pos stride) in
      let best = best_class thres 0 (take obj_class_num cell) (pos 0, none) in
      elim best.1 [
        | none ↦ none
        | some class_id ↦ some (record {
          box = record {
            xmin = mul (sub col (side dfl scale 0)) step;
            ymin = mul (sub row (side dfl scale 1)) step;
            xmax = mul (add col (side dfl scale 2)) step;
            ymax = mul (add row (side dfl scale 3)) step;
          };
          prob = sigmoid (deqnt_affine_to_f32 best.0 zp scale);
          class_id = class_id;
        })
      ]

  pub with_candidate : Option (Candidate F) → List (Candidate F) → List (Candidate F)
  with_candidate none rest = rest
  with_candidate (some c) rest = c ∷ rest

  -- The columns from `j` on, `n` of them, and the rows from `i` on.
  pub process_row : ℤ → ℤ → F → ℕ → ℕ → ℕ → ℕ → ℕ → List ℤ → List (Candidate F)
  unfolding candidate with_candidate
  process_row thres zp scale stride grid_w i j zero input = []
  process_row thres zp scale stride grid_w i j (suc n) input =
      with_candidate
        (candidate thres zp scale stride i j
          (take cell_size (drop ((i * grid_w + j) * cell_size) input)))
        (process_row thres zp scale stride grid_w i (j + 1) n input)

  pub process_rows : ℤ → ℤ → F → ℕ → ℕ → ℕ → ℕ → List ℤ → List (Candidate F)
  unfolding process_row
  process_rows thres zp scale stride grid_w i zero input = []
  process_rows thres zp scale stride grid_w i (suc n) input =
      process_row thres zp scale stride grid_w i 0 grid_w input
      ++ process_rows thres zp scale stride grid_w (i + 1) n input

  pub process : List ℤ → ℕ → ℕ → ℕ → F → ℤ → F → List (Candidate F)
  unfolding process_rows unsigmoid qnt_f32_to_affine
  process input grid_h grid_w stride threshold zp scale =
      process_rows (qnt_f32_to_affine (unsigmoid threshold) zp scale) zp scale stride grid_w 0
        grid_h input
