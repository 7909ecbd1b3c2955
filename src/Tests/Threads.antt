-- ===== src/Tests/Threads.antt =====
-- src/main.cc and tools/event_summarizer.cc of yolov8n_cap_multithread, run.
use khadas_yolov8n_multithre.Prelude.{
  ap, length, ℕ, suc, ◌+◌, ◌≤◌, ◌≡◌, ◌≢◌, refl, arith, true, Bool, not, ◌==◌, List, [], ◌∷◌, ◌++◌,
  replicate,
}
use khadas_yolov8n_multithre.Prelude.Int.{pos}
use khadas_yolov8n_multithre.Prelude.Text.{c_str}
use khadas_yolov8n_multithre.Pipeline.{
  InferResult, empty_group, Outside, Event, main_runs, worker_runs, requests, start, run, fill,
}
use khadas_yolov8n_multithre.Pipeline.Slots.{held, is_slot, held-slot}
use khadas_yolov8n_multithre.Pipeline.Phase.{IsPhased}
use khadas_yolov8n_multithre.Pipeline.Reach.{run-IsPhased}
use khadas_yolov8n_multithre.Pipeline.Progress.{running-alive, blocked, Ready, blocked-Ready}
use khadas_yolov8n_multithre.Control.{blackout, same_text}
use khadas_yolov8n_multithre.Wire.{WireTrackSummary}
use khadas_yolov8n_multithre.Summarizer
use khadas_yolov8n_multithre.Summarizer.{
  Config, Tick, frame, timeout, new_machine, tick, any_drone, is_drone, cycle, active,
}
use khadas_yolov8n_multithre.Summarizer.Cooldown.{last_drone, last_drone-tick}
use khadas_yolov8n_multithre.Tests.Fixed.{fixed}

abbrev outside : Outside
outside = record { scale_w = 1; scale_h = 1; now_us = 5; init_ok = true; servers_ended = true }

-- Three frames are submitted, and a thread takes the first into RKNN while a blackout is asked for.
abbrev filling_up : List Event
filling_up = replicate 6 (main_runs outside)

abbrev in_rknn : List Event
in_rknn =
    filling_up
    ++ (worker_runs 0 empty_group 0 ∷ worker_runs 0 empty_group 0 ∷ requests blackout ∷ [])

-- The main thread has come to wait for a result.
abbrev awaiting_result : List Event
awaiting_result = replicate 8 (main_runs outside)

abbrev first_result : InferResult
first_result = record {
  buf_idx = 0;
  group = empty_group;
  frame_id = 0;
  capture_us = 5;
  infer_us = 0;
}

held-slot_example : held (is_slot 2) (run in_rknn start) ≡ 1
held-slot_example = held-slot 2 in_rknn

run-IsPhased_example : IsPhased (run in_rknn start)
run-IsPhased_example = run-IsPhased in_rknn

running-alive_example : (run in_rknn start).ctxs_alive ≡ true
unfolding run start
running-alive_example = running-alive in_rknn 0 first_result refl

blocked-Ready_example :
    ((n : ℕ)
      → (run awaiting_result start).main ≡ fill (suc n)
      → (run awaiting_result start).free_list ≢ [])
    × (blocked (run awaiting_result start) ≡ true → (i : ℕ) × Ready (run awaiting_result start) i)
blocked-Ready_example = blocked-Ready awaiting_result

-- "UAV", as a class name
abbrev uav : List ℕ
uav = 85 ∷ 65 ∷ 86 ∷ []

abbrev config : Config
config = record {
  devices = 33 ∷ 51 ∷ [];
  cooldown_ms = 30000;
  drone_class = uav;
  use_control = true;
  has_qwen = true;
}

abbrev drone : WireTrackSummary
drone = record {
  class_name = uav ++ replicate 13 0;
  track_id = 1;
  frames_seen = 5;
  first_seen_us = 0;
  last_seen_us = 9;
  duration_ms = 0;
  visibility = 1000;
  cx = pos 5;
  cy = pos 5;
  left = pos 0;
  top = pos 0;
  right = pos 9;
  bottom = pos 9;
  vx = 0;
  vy = 0;
  speed = 0;
  heading_deg = 0;
  accel = 0;
  loiter_score = 0;
  in_roi = 0;
  roi_entered = 0;
  roi_exited = 0;
  status = 1;
  reserved = replicate 4 0;
}

-- A drone is seen, leaves, and stays away.
abbrev episode : List Tick
episode =
    record { received = frame (drone ∷ []); now_ms = 1000; writes = true }
    ∷ record { received = frame []; now_ms = 2000; writes = true }
    ∷ []

abbrev late_round : Tick
late_round = record { received = timeout; now_ms = 40000; writes = true }

some_actions : {A : Type 0} → (xs : List A) (n : ℕ) → length xs ≡ n + 1 → xs ≢ []
some_actions [] n h = absurd (omega arith)
some_actions (x ∷ xs) n h = λ e. absurd (omega (arith, ap length e))

last_drone-tick_example : last_drone config 0 (episode ++ (late_round ∷ [])) + 30000 ≤ 40000
unfolding tick Summarizer.run new_machine any_drone is_drone cycle active same_text c_str
last_drone-tick_example =
    last_drone-tick fixed config episode late_round
      (omega arith, (omega arith, (omega arith, (omega arith, (omega arith, (omega arith, tt))))))
      (some_actions _ 5 refl)

-- Every command works but the fourth, which is the resume of the other device.
abbrev but_one : ℕ → Bool
but_one i = not (i == 3)
