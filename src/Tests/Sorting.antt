-- ===== src/Tests/Sorting.antt =====
-- The post-processing of yolov8n_cap_multithread, with concrete scores.
use khadas_yolov8n_multithre.Prelude.{
  ℕ, ◌≡◌, arith, true, Option, none, some, List, [], ◌∷◌, length, replicate,
}
use khadas_yolov8n_multithre.Prelude.Int.{ℤ, pos, leb_ℤ}
use khadas_yolov8n_multithre.Frames.{DetectResultGroup}
use khadas_yolov8n_multithre.Postprocess.Candidates.{Candidate}
use khadas_yolov8n_multithre.Postprocess.Sort.{at, quick_sort_indice_inverse}
use khadas_yolov8n_multithre.Postprocess.Sort.Order.{IsSortOf, quick_sort_indice_inverse-IsSortOf}
use khadas_yolov8n_multithre.Postprocess.Labels.{
  take_line, detect_end, read_line, more_lines, load_label_name, read_lines, written,
  read_lines-written,
}
use khadas_yolov8n_multithre.Postprocess.Whole.{
  Tensor, AllNumbers, candidates, scored, init_labels, processed, post_process, select_sorted,
  post_process-select,
}
use khadas_yolov8n_multithre.Tests.Fixed.{fixed}

abbrev scores : List (ℤ × ℕ)
scores = (pos 300, 0) ∷ (pos 900, 1) ∷ (pos 500, 2) ∷ (pos 900, 3) ∷ []

same_or_below : (z : ℤ) → leb_ℤ z z ≡ true
same_or_below z = ground arith

quick_sort_indice_inverse-IsSortOf_example :
    (b : List (ℤ × ℕ)) × (quick_sort_indice_inverse fixed 5 0 4 scores ≡ some b)
    × IsSortOf fixed 0 4 scores b
quick_sort_indice_inverse-IsSortOf_example =
    quick_sort_indice_inverse-IsSortOf fixed 5 0 4 scores (omega arith) (omega arith)
      (λ i lo hi. same_or_below (at fixed scores i).0)

read_lines-written_example :
    read_lines 2 (written ((85 ∷ 65 ∷ []) ∷ [] ∷ (86 ∷ []) ∷ [])) ≡ (85 ∷ 65 ∷ []) ∷ [] ∷ []
read_lines-written_example =
    read_lines-written 2 ((85 ∷ 65 ∷ []) ∷ [] ∷ (86 ∷ []) ∷ []) (omega arith) (omega arith)

-- Three tensors of a 32 by 32 model, with one score in each cell.
abbrev tensor : ℕ → Tensor ℤ
tensor n = record { input = replicate n (pos 60); zp = pos 0; scale = pos 10 }

numbers : (cs : List (Candidate ℤ)) → AllNumbers fixed cs
numbers [] = tt
numbers (c ∷ cs) = (same_or_below c.prob, numbers cs)

abbrev found : List (Candidate ℤ)
found = candidates fixed 32 32 (pos 450) (tensor 1040) (tensor 260) (tensor 65)

-- A label file with the one class.
abbrev file : Option (List ℕ)
file = some (85 ∷ 10 ∷ [])

post_process-select_example :
    (b : List (ℤ × ℕ)) × (group : DetectResultGroup) × (post_process fixed none file 32 32
        (pos 450)
        (pos 450)
        (pos 1000)
        (pos 1000)
        (tensor 1040)
        (tensor 260)
        (tensor 65)
      ≡ ((85 ∷ []) ∷ [], processed group))
    × (select_sorted fixed 32 32 (pos 450) (pos 1000) (pos 1000) ((85 ∷ []) ∷ []) found b
        ≡ some group)
    × IsSortOf fixed 0 (length found) (scored fixed 0 found) b
unfolding init_labels load_label_name read_lines more_lines read_line take_line detect_end
post_process-select_example =
    post_process-select fixed none file 32 32 (pos 450) (pos 450) (pos 1000) (pos 1000)
      (tensor 1040) (tensor 260) (tensor 65) (omega arith) (numbers found)
