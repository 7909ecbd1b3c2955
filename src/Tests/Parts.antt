-- ===== src/Tests/Parts.antt =====
-- The queue, the control plane and the post-processing of yolov8n_cap_multithread, on concrete values.
use khadas_yolov8n_multithre.Prelude.{none, get_elem?}
use khadas_yolov8n_multithre.Prelude.{
  ℕ, ◌+◌, ◌-◌, ◌*◌, ◌≤◌, ◌≡◌, refl, arith, true, false, Option, some, List, [], ◌∷◌, ◌++◌, map,
  take, length, replicate, get_or,
}
use khadas_yolov8n_multithre.Prelude.Int.{◌-ℤ◌, ◌+ℤ◌, ◌*ℤ◌, max_ℤ, min_ℤ, ℤ, pos, negsuc, ltb_ℤ}
use khadas_yolov8n_multithre.Stream.{Input, write_exact, and_then}
use khadas_yolov8n_multithre.Stream.Read.{flat}
use khadas_yolov8n_multithre.Wire.{le}
use khadas_yolov8n_multithre.Queue.{
  BoundedQueue, drop_oldest, drop_newest, new, pushes, pops, closes, Op, run,
}
use khadas_yolov8n_multithre.Queue.Bound.{IsBounded, run-IsBounded}
use khadas_yolov8n_multithre.Queue.Latest.{run-new}
use mathlib.Core.List.{Sublist}
use khadas_yolov8n_multithre.Queue.Order.{run-sublist}
use khadas_yolov8n_multithre.Control.{recv_msg, send_msg}
use khadas_yolov8n_multithre.Summarizer.Commands.{send_control, command_json, recv-send_control}
use khadas_yolov8n_multithre.Control.{blackout, parse_command}
use khadas_yolov8n_multithre.Frames.{DetectResult, DetectResultGroup}
use khadas_yolov8n_multithre.Postprocess.{
  Location, overlap_at, suppress, calculate_overlap, no_location, nms, nms_classes, detection,
  zero_result, select,
}
use khadas_yolov8n_multithre.Postprocess.Suppression.{nms-apart}
use khadas_yolov8n_multithre.Postprocess.Selection.{kept_boxes, results-select}
use khadas_yolov8n_multithre.Postprocess.{best_class}
use khadas_yolov8n_multithre.Postprocess.Candidates.Scores.{Later, best_class-Scanned}
use khadas_yolov8n_multithre.Prelude.{◌⊎◌}
use khadas_yolov8n_multithre.Prelude.Int.{◌≤ℤ◌}
use khadas_yolov8n_multithre.Tests.Fixed.{fixed}

abbrev queue : BoundedQueue ℕ
queue = record { capacity = 2; policy = drop_oldest; closed = false; items = 8 ∷ 9 ∷ [] }

abbrev calls : List (Op ℕ)
calls = pushes 1 ∷ pops ∷ pushes 2 ∷ closes ∷ pops ∷ pops ∷ []

run-IsBounded_example :
    (r : BoundedQueue ℕ × List ℕ) × (run queue calls ≡ some r) × IsBounded r.0 × (r.0.capacity ≡ 2)
run-IsBounded_example =
    run-IsBounded queue calls (record { room = omega arith; within = omega arith })

run-new_example :
    (run (new {A = ℕ} 2 drop_oldest) (map pushes (1 ∷ 2 ∷ 3 ∷ []))
      ≡ some (record (new 2 drop_oldest) { items = 2 ∷ 3 ∷ [] }, []))
    × (run (new {A = ℕ} 2 drop_newest) (map pushes (1 ∷ 2 ∷ 3 ∷ []))
        ≡ some (record (new 2 drop_newest) { items = 1 ∷ 2 ∷ [] }, []))
run-new_example = run-new 2 (1 ∷ 2 ∷ 3 ∷ []) (omega arith)

run-sublist_example : Sublist {A = ℕ} (9 ∷ 1 ∷ 2 ∷ []) (8 ∷ 9 ∷ 1 ∷ 2 ∷ [])
unfolding run
run-sublist_example =
    run-sublist queue calls (record queue { closed = true; items = [] }) (9 ∷ 1 ∷ 2 ∷ [])
      (omega arith) refl

-- Three boxes, the second nearly the first.
abbrev at : ℕ → Location ℤ
at x = record {
  xmin = pos (x * 1000);
  ymin = pos 0;
  xmax = pos ((x + 100) * 1000);
  ymax = pos 100000;
}

abbrev boxes : List (Location ℤ)
boxes = at 0 ∷ at 5 ∷ at 200 ∷ []

nms-apart_example : ltb_ℤ (pos 450) (overlap_at fixed boxes 0 2) ≡ false
unfolding nms suppress overlap_at calculate_overlap no_location ◌-ℤ◌ ◌+ℤ◌ ◌*ℤ◌ max_ℤ min_ℤ
nms-apart_example =
    nms-apart fixed boxes (pos 450) (0 ∷ 0 ∷ 0 ∷ []) (some 0 ∷ some 1 ∷ some 2 ∷ []) 0 0 2 0 2
      (omega arith) refl refl refl

abbrev kept : List (Option ℕ)
kept = nms_classes fixed 1 0 boxes (0 ∷ 0 ∷ 0 ∷ []) (some 0 ∷ some 1 ∷ some 2 ∷ []) (pos 450)

abbrev labels : List (List ℕ)
labels = (85 ∷ 65 ∷ 86 ∷ []) ∷ []

abbrev expected : List DetectResult
expected = take 64 (
    map
      (λ (np : ℕ × ℤ).
        detection fixed 640 640 (pos 1000) (pos 1000)
          (get_or labels (get_or (0 ∷ 0 ∷ 0 ∷ []) np.0 0) [])
          (get_or boxes np.0 (no_location fixed)) np.1)
      (kept_boxes fixed kept (pos 900 ∷ pos 800 ∷ pos 700 ∷ [])))

results-select_example :
    (group : DetectResultGroup) × (select fixed 640 640
        (pos 450)
        (pos 1000)
        (pos 1000)
        labels
        boxes
        (0 ∷ 0 ∷ 0 ∷ [])
        (pos 900 ∷ pos 800 ∷ pos 700 ∷ [])
        (0 ∷ 1 ∷ 2 ∷ [])
      ≡ some group)
    × (group.count ≤ 64)
    × (length group.results ≡ 64)
    × (group.count ≡ length expected)
    × (group.results ≡ expected ++ replicate (64 - group.count) zero_result)
results-select_example =
    results-select fixed 640 640 (pos 450) (pos 1000) (pos 1000) labels boxes (0 ∷ 0 ∷ 0 ∷ [])
      (pos 900 ∷ pos 800 ∷ pos 700 ∷ []) (0 ∷ 1 ∷ 2 ∷ []) (omega arith)
      (omega arith, (omega arith, (omega arith, tt)))

abbrev scores : List ℤ
scores = pos 3 ∷ pos 90 ∷ negsuc 5 ∷ pos 70 ∷ []

best_class-Scanned_example :
    let r = best_class (pos 50) 0 scores (pos 0, none) in
    ((i : ℕ) (p : ℤ) → get_elem? scores i ≡ some p → pos 50 ≤ℤ p → p ≤ℤ r.0)
    × ((r ≡ (pos 0, none)) ⊎ Later (pos 50) 0 scores (pos 0, none) r)
best_class-Scanned_example = best_class-Scanned (pos 50) scores

abbrev sends : List ℕ
sends = 3 ∷ 10 ∷ 90 ∷ []

recv-send_control_example :
    let sent = send_control true (command_json false) sends in
    (left : Input) × (recv_msg (sent.bytes ∷ []) ≡ some (command_json false, left))
    × (flat left ≡ [])
    × (parse_command (command_json false) ≡ blackout)
unfolding send_control command_json send_msg and_then write_exact le
recv-send_control_example =
    recv-send_control true false sends ((send_control true (command_json false) sends).bytes ∷ [])
      refl (omega arith, tt) refl
