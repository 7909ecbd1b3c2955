-- ===== src/Postprocess/Selection.antt =====
-- The results of a frame against a plain description: the kept boxes, and of these the first 64.
use khadas_yolov8n_multithre.Prelude.{
  ℕ, zero, suc, ◌-◌, ◌≤◌, ◌<◌, ◌≡◌, refl, get_elem?, sym, ap, Option, none, some, List, [], ◌∷◌,
  ◌++◌, map, min, arith, length, take, replicate, get_or, length-append, length-replicate,
  length-take, take-nil,
}
use khadas_yolov8n_multithre.Prelude.Float.{Float32}
use khadas_yolov8n_multithre.Frames.{DetectResult, DetectResultGroup}
use khadas_yolov8n_multithre.Postprocess.{
  Location, nms_classes, collect, with_result, group_of, labelled, detection, no_location, select,
  obj_numb_max_size, obj_class_num, top_k, zero_result,
}

-- The classes of the boxes are classes of the model.
abbrev pub AllClasses : List ℕ → Type 0
AllClasses [] = Unit {0}
AllClasses (id ∷ ids) = (id < obj_class_num) × AllClasses ids

class_at : (ids : List ℕ) (n : ℕ) → AllClasses ids → get_or ids n 0 < obj_class_num
class_at [] n h = omega arith
class_at (id ∷ ids) zero h = h.0
class_at (id ∷ ids) (suc n) h = class_at ids n h.1

label_at :
    (labels : List (List ℕ)) (i : ℕ)
    → i < length labels
    → get_elem? labels i ≡ some (get_or labels i [])
label_at [] i h = absurd (omega arith)
label_at (l ∷ labels) zero h = refl
label_at (l ∷ labels) (suc i) h = label_at labels i (omega arith)

module _ (fl : Float32) where
  open fl use {F}

  -- The boxes that are left, with the scores of their positions.
  abbrev pub kept_boxes : List (Option ℕ) → List F → List (ℕ × F)
  kept_boxes [] probs = []
  kept_boxes (o ∷ os) [] = []
  kept_boxes (none ∷ os) (p ∷ ps) = kept_boxes os ps
  kept_boxes (some n ∷ os) (p ∷ ps) = (n, p) ∷ kept_boxes os ps

  collect-kept_boxes :
      (room : ℕ) (result : ℕ → F → Option DetectResult) (plain : ℕ → F → DetectResult)
      (os : List (Option ℕ)) (ps : List F)
      → ((n : ℕ) (p : F) → result n p ≡ some (plain n p))
      → collect fl room result os ps
        ≡ some (take room (map (λ np. plain np.0 np.1) (kept_boxes os ps)))
  unfolding collect with_result
  collect-kept_boxes room result plain [] ps h = ap some (sym (take-nil room))
  collect-kept_boxes room result plain (o ∷ os) [] h = ap some (sym (take-nil room))
  collect-kept_boxes room result plain (none ∷ os) (p ∷ ps) h =
      collect-kept_boxes room result plain os ps h
  collect-kept_boxes zero result plain (some n ∷ os) (p ∷ ps) h =
      collect-kept_boxes zero result plain os ps h
  collect-kept_boxes (suc room) result plain (some n ∷ os) (p ∷ ps) h =
      rw (h n p, collect-kept_boxes room result plain os ps h) refl

  labelled-some :
      (result : List ℕ → DetectResult) (labels : List (List ℕ)) (i : ℕ)
      → i < length labels
      → labelled fl result (get_elem? labels i) ≡ some (result (get_or labels i []))
  unfolding labelled
  labelled-some result labels i h = rw (label_at labels i h) refl

  -- With a label for each class of the model, none is read through a null pointer: the group that
  -- `post_process` fills has 64 entries and a count of at most 64; its first `count` entries are
  -- the boxes that suppression keeps of the 200 best, each with the label of its class, in their
  -- order and as far as they fit, and the others are zero.
  pub results-select :
      (in_h in_w : ℕ) (threshold scale_w scale_h : F) (labels : List (List ℕ))
      (boxes : List (Location F)) (ids : List ℕ) (probs : List F) (order : List ℕ)
      → obj_class_num ≤ length labels
      → AllClasses ids
      → let valid : ℕ = min (length order) top_k in
        let kept =
          nms_classes fl obj_class_num 0 boxes
            (take valid ids)
            (map some (take valid order))
            threshold in
        let found = take obj_numb_max_size (
          map
            (λ np.
              detection fl in_h in_w scale_w scale_h
                (get_or labels (get_or ids np.0 0) [])
                (get_or boxes np.0 (no_location fl))
                np.1)
            (kept_boxes kept probs)) in
        (group : DetectResultGroup) × (select fl in_h in_w threshold scale_w scale_h labels boxes
            ids probs order
          ≡ some group)
        × (group.count ≤ obj_numb_max_size)
        × (length group.results ≡ obj_numb_max_size)
        × (group.count ≡ length found)
        × (group.results ≡ found ++ replicate (obj_numb_max_size - group.count) zero_result)
  unfolding select group_of
  results-select in_h in_w threshold scale_w scale_h labels boxes ids probs order enough classes =
      let valid : ℕ = min (length order) top_k in
      let kept =
        nms_classes fl obj_class_num 0 boxes (take valid ids) (map some (take valid order))
          threshold in
      let shown = λ (n : ℕ) (p : F) (label : List ℕ).
        detection fl in_h in_w scale_w scale_h label (get_or boxes n (no_location fl)) p in
      let result = λ (n : ℕ) (p : F). labelled fl (shown n p) (get_elem? labels (get_or ids n 0)) in
      let plain = λ (n : ℕ) (p : F). shown n p (get_or labels (get_or ids n 0) []) in
      let all = map (λ np. plain np.0 np.1) (kept_boxes kept probs) in
      let found = take obj_numb_max_size all in
      let e : collect fl obj_numb_max_size result kept probs ≡ some found =
        collect-kept_boxes obj_numb_max_size result plain kept probs (λ n p.
          labelled-some (shown n p) labels (get_or ids n 0)
            (omega (arith, enough, class_at ids n classes))) in
      let few : length found ≤ obj_numb_max_size =
        omega (arith, length-take obj_numb_max_size all) in
      (
        record {
          id = 0;
          count = length found;
          results = found ++ replicate (obj_numb_max_size - length found) zero_result;
        },
        ap (group_of fl) e,
        few,
        omega (
          arith,
          few,
          length-append found (replicate (obj_numb_max_size - length found) zero_result),
          length-replicate (obj_numb_max_size - length found) zero_result,
        ),
        refl,
        refl,
      )
