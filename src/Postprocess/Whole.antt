-- ===== src/Postprocess/Whole.antt =====
-- `post_process` of yolov8n_cap_multithread/src/postprocess.cc as a whole: three tensors, the sort, and the selection.
use mathlib.Core.List.Perm
use khadas_yolov8n_multithre.Prelude.{
  ℕ, zero, suc, ◌/◌, ◌<◌, ◌≤◌, ◌≡◌, refl, ap, true, false, Option, none, some, List, [], ◌∷◌, ◌++◌,
  map, arith, ◌==◌, if◌then◌else◌, length,
}
use khadas_yolov8n_multithre.Prelude.Int.{ℤ}
use khadas_yolov8n_multithre.Prelude.Float.{Float32}
use khadas_yolov8n_multithre.Frames.{DetectResultGroup}
use khadas_yolov8n_multithre.Postprocess.{select, zero_group, obj_class_num}
use khadas_yolov8n_multithre.Postprocess.Candidates.{Candidate, process}
use khadas_yolov8n_multithre.Postprocess.Candidates.Classes.{
  classes, append-AllClasses, process-AllClasses,
}
use khadas_yolov8n_multithre.Postprocess.Selection.{AllClasses, results-select}
use khadas_yolov8n_multithre.Postprocess.Labels.{load_label_name}
use khadas_yolov8n_multithre.Postprocess.Sort.{Scored, at, quick_sort_indice_inverse}
use khadas_yolov8n_multithre.Postprocess.Sort.Order.{IsSortOf, quick_sort_indice_inverse-IsSortOf}

-- An output tensor with its quantisation.
pub record Tensor {ℓ} (F : Type ℓ) : Type ℓ where
  pub input : List ℤ
  pub zp : ℤ
  pub scale : F

-- The static `init` and `labels`: none before the first call.
unfoldable pub init_labels : Option (List (List ℕ)) → Option (List ℕ) → List (List ℕ)
unfolding load_label_name
init_labels none file = load_label_name file
init_labels (some labels) file = labels

-- `deinitPostProcess`: `init` stays set, and every label becomes a null pointer.
pub deinit_post_process : Option (List (List ℕ)) → Option (List (List ℕ))
deinit_post_process none = none
deinit_post_process (some labels) = some []

-- What a call of `post_process` comes to: a group, a read through a null label, or, in the model only,
-- the end of the sort's fuel.
pub data Processed : Type 0 where
  processed : DetectResultGroup → Processed
  null_label : Processed
  out_of_fuel : Processed

unfoldable pub selected : Option DetectResultGroup → Processed
selected none = null_label
selected (some group) = processed group

module _ (fl : Float32) where
  open fl use {F, lit, le}

  -- `objProbs` and `indexArray`, the indices from `i` on
  pub scored : ℕ → List (Candidate F) → List (Scored fl)
  scored i [] = []
  scored i (c ∷ cs) = (c.prob, i) ∷ scored (suc i) cs

  -- The three calls of `process`, each appending to the same vectors.
  unfoldable pub candidates : ℕ → ℕ → F → Tensor F → Tensor F → Tensor F → List (Candidate F)
  candidates in_h in_w conf t0 t1 t2 =
      process fl t0.input (in_h / 8) (in_w / 8) 8 conf t0.zp t0.scale
      ++ (process fl t1.input (in_h / 16) (in_w / 16) 16 conf t1.zp t1.scale
          ++ process fl t2.input (in_h / 32) (in_w / 32) 32 conf t2.zp t2.scale)

  -- Behind the candidates.
  unfoldable pub finish : ℕ → ℕ → F → F → F → List (List ℕ) → List (Candidate F) → Processed
  unfolding scored selected
  finish in_h in_w threshold scale_w scale_h labels cs =
      let sorted : Processed =
        elim (quick_sort_indice_inverse fl (suc (length cs)) 0 (length cs) (scored 0 cs)) [
          | none ↦ out_of_fuel
          | some b ↦ selected (
              select fl in_h in_w threshold scale_w scale_h labels (map (λ c. c.box) cs)
                (map (λ c. c.class_id) cs) (map (λ p. p.0) b) (map (λ p. p.1) b))
        ] in
      if length cs == 0 then processed zero_group else sorted

  -- The labels that stay loaded, and the group.
  pub post_process :
      Option (List (List ℕ))
      → Option (List ℕ)
      → ℕ
      → ℕ
      → F
      → F
      → F
      → F
      → Tensor F
      → Tensor F
      → Tensor F
      → List (List ℕ) × Processed
  unfolding init_labels candidates finish
  post_process loaded file in_h in_w conf threshold scale_w scale_h t0 t1 t2 =
      let labels = init_labels loaded file in
      (
        labels,
        finish in_h in_w threshold scale_w scale_h labels (candidates in_h in_w conf t0 t1 t2),
      )

  candidates-AllClasses :
      (in_h in_w : ℕ) (conf : F) (t0 t1 t2 : Tensor F)
      → AllClasses (classes fl (candidates in_h in_w conf t0 t1 t2))
  unfolding candidates
  candidates-AllClasses in_h in_w conf t0 t1 t2 =
      let row = process-AllClasses fl in
      append-AllClasses fl _ _ (row t0.input (in_h / 8) (in_w / 8) 8 conf t0.zp t0.scale) (
        append-AllClasses fl _ _ (row t1.input (in_h / 16) (in_w / 16) 16 conf t1.zp t1.scale)
          (row t2.input (in_h / 32) (in_w / 32) 32 conf t2.zp t2.scale))

  -- No score is a NaN.
  abbrev pub AllNumbers : List (Candidate F) → Type 0
  AllNumbers [] = Unit {0}
  AllNumbers (c ∷ cs) = (le c.prob c.prob ≡ true) × AllNumbers cs

  length-scored : (i : ℕ) (cs : List (Candidate F)) → length (scored i cs) ≡ length cs
  unfolding scored
  length-scored i [] = refl
  length-scored i (c ∷ cs) = ap suc (length-scored (suc i) cs)

  scored-Numbers :
      (i : ℕ) (cs : List (Candidate F)) (k : ℕ)
      → AllNumbers cs
      → k < length cs
      → le (at fl (scored i cs) k).0 (at fl (scored i cs) k).0 ≡ true
  unfolding scored
  scored-Numbers i [] k n h = absurd (omega arith)
  scored-Numbers i (c ∷ cs) zero n h = n.0
  scored-Numbers i (c ∷ cs) (suc k) n h = scored-Numbers (suc i) cs k n.1 (omega arith)

  module _ (in_h in_w : ℕ) (threshold scale_w scale_h : F) (labels : List (List ℕ)) where
    -- The selection from candidates in the order of `b`.
    abbrev pub select_sorted : List (Candidate F) → List (Scored fl) → Option DetectResultGroup
    select_sorted cs b =
        select fl in_h in_w threshold scale_w scale_h labels (map (λ c. c.box) cs)
          (map (λ c. c.class_id) cs) (map (λ p. p.0) b) (map (λ p. p.1) b)

    select_sorted-nil : select_sorted [] [] ≡ some zero_group
    unfolding select
    select_sorted-nil = refl

    finish-select :
        (cs : List (Candidate F))
        → obj_class_num ≤ length labels
        → AllClasses (classes fl cs)
        → AllNumbers cs
        → (b : List (Scored fl)) × (group : DetectResultGroup) × (finish in_h in_w threshold scale_w
              scale_h labels cs
            ≡ processed group)
          × (select_sorted cs b ≡ some group)
          × IsSortOf fl 0 (length cs) (scored 0 cs) b
    unfolding finish scored selected
    finish-select [] enough ids n = (
      [],
      zero_group,
      refl,
      select_sorted-nil,
      record {
        size = refl;
        falling = λ i j lo between hi. absurd (omega arith);
        same = λ i out. refl;
        keeps = λ q h. h;
        perm = Perm.refl [];
      },
    )
    finish-select (c ∷ cs) enough ids n =
        let size = length-scored 0 (c ∷ cs) in
        let (b, sorted, order) =
          quick_sort_indice_inverse-IsSortOf fl (suc (length (c ∷ cs))) 0 (length (c ∷ cs))
            (scored 0 (c ∷ cs)) (omega arith) (omega (arith, size))
            (λ k lo hi. scored-Numbers 0 (c ∷ cs) k n hi) in
        let found : (suc (length cs) == 0) ≡ false = ground arith in
        let shown =
          results-select fl in_h in_w threshold scale_w scale_h labels (map (λ x. x.box) (c ∷ cs))
            (classes fl (c ∷ cs)) (map (λ p. p.0) b) (map (λ p. p.1) b) enough ids in
        (b, shown.0, rw (found, sorted) (ap selected shown.1), shown.1, order)

  -- If there is a label for each class of the model, and no candidate of the three tensors has a NaN
  -- for a score, the post-processing returns a group, with the labels loaded, at the first call
  -- only: the selection from a permutation of all candidates in the order of falling scores.
  pub post_process-select :
      (loaded : Option (List (List ℕ))) (file : Option (List ℕ)) (in_h in_w : ℕ)
      (conf threshold scale_w scale_h : F) (t0 t1 t2 : Tensor F)
      → obj_class_num ≤ length (init_labels loaded file)
      → AllNumbers (candidates in_h in_w conf t0 t1 t2)
      → let cs = candidates in_h in_w conf t0 t1 t2 in
        let labels = init_labels loaded file in
        (b : List (Scored fl)) × (group : DetectResultGroup) × (post_process loaded file in_h in_w
            conf threshold scale_w scale_h t0 t1 t2
          ≡ (labels, processed group))
        × (select_sorted in_h in_w threshold scale_w scale_h labels cs b ≡ some group)
        × IsSortOf fl 0 (length cs) (scored 0 cs) b
  unfolding post_process
  post_process-select loaded file in_h in_w conf threshold scale_w scale_h t0 t1 t2 enough n =
      let labels = init_labels loaded file in
      let cs = candidates in_h in_w conf t0 t1 t2 in
      let (b, group, e, picked, order) =
        finish-select in_h in_w threshold scale_w scale_h labels cs enough
          (candidates-AllClasses in_h in_w conf t0 t1 t2) n in
      (b, group, ap (λ p. (labels, p)) e, picked, order)
