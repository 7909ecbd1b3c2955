-- ===== src/Postprocess.antt =====
-- yolov8n_cap_multithread/src/postprocess.cc: from the scored boxes to the detections of a frame. The order array
-- holds -1 for a suppressed box, here `none`; box `n` is entry `n` of the list of boxes. The `int`
-- loops over positions are recursion on the lists.
pub mod Candidates
pub mod Sort
pub mod Labels
pub mod Whole
pub mod Suppression
pub mod Selection
use khadas_yolov8n_multithre.Prelude.{
  ℕ, zero, suc, ◌+◌, ◌-◌, ◌<◌, Bool, true, false, Option, none, some, List, [], ◌∷◌, ◌++◌, map, ltb,
  leb, ◌==◌, ◌&&◌, if◌then◌else◌, length, take, drop, get_or, get_elem?, min, replicate,
}
use khadas_yolov8n_multithre.Prelude.Int.{ℤ, pos, ltb_ℤ, leb_ℤ}
use khadas_yolov8n_multithre.Prelude.Float.{Float32}
use khadas_yolov8n_multithre.Prelude.Text.{strncpy}
use khadas_yolov8n_multithre.Frames.{DetectResult, DetectResultGroup}

abbrev pub obj_class_num : ℕ
obj_class_num = 1

abbrev pub obj_numb_max_size : ℕ
obj_numb_max_size = 64

abbrev pub top_k : ℕ
top_k = 200

-- Four entries of `outputLocations`.
pub record Location {ℓ} (F : Type ℓ) : Type ℓ where
  pub xmin : F
  pub ymin : F
  pub xmax : F
  pub ymax : F

-- An entry of the zeroed group.
abbrev pub zero_result : DetectResult
zero_result = record {
  name = replicate 16 0;
  left = pos 0;
  right = pos 0;
  top = pos 0;
  bottom = pos 0;
  prop = 0;
}

-- `memset(group, 0, …)`
abbrev pub zero_group : DetectResultGroup
zero_group = record { id = 0; count = 0; results = replicate obj_numb_max_size zero_result }

-- `maxClassProbs` and `maxClassId`, over the scores of one cell from class `k` on
pub best_class : ℤ → ℕ → List ℤ → ℤ × Option ℕ → ℤ × Option ℕ
best_class thres k [] best = best
best_class thres k (p ∷ ps) best =
    best_class thres (suc k) ps (if leb_ℤ thres p && ltb_ℤ best.0 p then (p, some k) else best)

module _ (fl : Float32) where
  open fl use {F, of_int, lit, add, sub, mul, div, lt, le, fmin, fmax, bits, to_int}

  -- `CalculateOverlap`, its sums rounded to `float` throughout
  unfoldable pub calculate_overlap : Location F → Location F → F
  calculate_overlap a b =
      let w = fmax (lit 0 1) (add (sub (fmin a.xmax b.xmax) (fmax a.xmin b.xmin)) (lit 1 1)) in
      let h = fmax (lit 0 1) (add (sub (fmin a.ymax b.ymax) (fmax a.ymin b.ymin)) (lit 1 1)) in
      let i = mul w h in
      let area0 = mul (add (sub a.xmax a.xmin) (lit 1 1)) (add (sub a.ymax a.ymin) (lit 1 1)) in
      let area1 = mul (add (sub b.xmax b.xmin) (lit 1 1)) (add (sub b.ymax b.ymin) (lit 1 1)) in
      let u = sub (add area0 area1) i in if le u (lit 0 1) then lit 0 1 else div i u

  unfoldable pub no_location : Location F
  no_location = record { xmin = lit 0 1; ymin = lit 0 1; xmax = lit 0 1; ymax = lit 0 1 }

  unfoldable pub overlap_at : List (Location F) → ℕ → ℕ → F
  unfolding no_location calculate_overlap
  overlap_at boxes n m = calculate_overlap (get_or boxes n no_location) (get_or boxes m no_location)

  -- The inner loop of `nms`, behind position `i` with box `n`.
  unfoldable pub suppress : List (Location F) → F → ℕ → List (Option ℕ) → List (Option ℕ)
  suppress boxes threshold n [] = []
  suppress boxes threshold n (none ∷ os) = none ∷ suppress boxes threshold n os
  suppress boxes threshold n (some m ∷ os) =
      (if lt threshold (overlap_at boxes n m) then none else some m) ∷ suppress boxes threshold n os

  -- The outer loop, with the class ids and the order from position `i` on up to `validCount`.
  unfoldable pub nms : List (Location F) → List ℕ → List (Option ℕ) → ℕ → F → List (Option ℕ)
  nms boxes [] os filter threshold = os
  nms boxes (k ∷ ks) [] filter threshold = []
  nms boxes (k ∷ ks) (none ∷ os) filter threshold = none ∷ nms boxes ks os filter threshold
  nms boxes (k ∷ ks) (some i ∷ os) filter threshold =
      some i
      ∷ nms boxes ks (if k == filter then suppress boxes threshold i os else os) filter threshold

  -- `for (c = 0; c < OBJ_CLASS_NUM; c++)`, from class `c` on
  pub nms_classes : ℕ → ℕ → List (Location F) → List ℕ → List (Option ℕ) → F → List (Option ℕ)
  unfolding nms suppress
  nms_classes zero c boxes ids os threshold = os
  nms_classes (suc n) c boxes ids os threshold =
      nms_classes n (suc c) boxes ids (nms boxes ids os c threshold) threshold

  -- `clamp` and the scaling back, which truncates
  pub clamp : F → ℕ → ℤ
  clamp val max =
      if lt (of_int (pos 0)) val
      then (if lt val (of_int (pos max)) then to_int val else pos max)
      else pos 0

  pub scaled : F → ℕ → F → ℤ
  unfolding clamp
  scaled val max scale = to_int (div (of_int (clamp val max)) scale)

  -- A result with this label.
  pub detection : ℕ → ℕ → F → F → List ℕ → Location F → F → DetectResult
  unfolding scaled
  detection in_h in_w scale_w scale_h label b conf = record {
    name = strncpy 16 label;
    left = scaled b.xmin in_w scale_w;
    top = scaled b.ymin in_h scale_h;
    right = scaled b.xmax in_w scale_w;
    bottom = scaled b.ymax in_h scale_h;
    prop = bits conf;
  }

  -- `labels[id]` is a null pointer where no label is left, and then `strncpy` reads it: `none`.
  pub labelled : (List ℕ → DetectResult) → Option (List ℕ) → Option DetectResult
  labelled result none = none
  labelled result (some label) = some (result label)

  -- One more result in front.
  pub with_result : Option DetectResult → Option (List DetectResult) → Option (List DetectResult)
  with_result none rest = none
  with_result (some r) none = none
  with_result (some r) (some rs) = some (r ∷ rs)

  -- The loop that fills `group`: `room` results still fit, and the scores go with the positions.
  pub collect :
      ℕ → (ℕ → F → Option DetectResult) → List (Option ℕ) → List F → Option (List DetectResult)
  unfolding with_result
  collect room result [] probs = some []
  collect room result (o ∷ os) [] = some []
  collect room result (none ∷ os) (p ∷ ps) = collect room result os ps
  collect zero result (some n ∷ os) (p ∷ ps) = collect zero result os ps
  collect (suc room) result (some n ∷ os) (p ∷ ps) =
      with_result (result n p) (collect room result os ps)

  pub group_of : Option (List DetectResult) → Option DetectResultGroup
  group_of none = none
  group_of (some found) = some (record {
    id = 0;
    count = length found;
    results = found ++ replicate (obj_numb_max_size - length found) zero_result;
  })

  -- `post_process` behind the sort: the candidates' boxes and classes, and the scores and indices in
  -- the order of falling scores; `none` where a null label is read.
  pub select :
      ℕ
      → ℕ
      → F
      → F
      → F
      → List (List ℕ)
      → List (Location F)
      → List ℕ
      → List F
      → List ℕ
      → Option DetectResultGroup
  unfolding nms_classes collect detection labelled group_of
  select in_h in_w threshold scale_w scale_h labels boxes ids probs order =
      let valid : ℕ = min (length order) top_k in
      let kept =
        nms_classes obj_class_num 0 boxes (take valid ids) (map some (take valid order))
          threshold in
      group_of (
        collect obj_numb_max_size
          (λ n p.
            labelled
              (λ label. detection in_h in_w scale_w scale_h label (get_or boxes n no_location) p)
              (get_elem? labels (get_or ids n 0)))
          kept probs)
