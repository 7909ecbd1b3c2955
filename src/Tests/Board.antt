-- ===== src/Tests/Board.antt =====
-- The main loop's drawing, the camera, the outputs and the sockets of yolov8n_cap_multithread, on concrete runs.
use khadas_yolov8n_multithre.Prelude.{refl, ℕ, ◌≡◌, arith, true, false, none, some, List, [], ◌∷◌}
use khadas_yolov8n_multithre.Prelude.Int.{pos, negsuc}
use khadas_yolov8n_multithre.Frames.{DetectResultGroup}
use khadas_yolov8n_multithre.Drawing.Inside.{AllInside}
use khadas_yolov8n_multithre.Pipeline.Board.{width, height, draw_detections}
use khadas_yolov8n_multithre.Pipeline.Board.Shown.{draw_detections-AllInside}
use khadas_yolov8n_multithre.Camera.{
  Camera, closed, Plane, Device, load_mipi_camera, Frame, returns, captures_all,
}
use khadas_yolov8n_multithre.Camera.Shared.{IsQueued, captures_all-IsQueued}
use khadas_yolov8n_multithre.Display.Rtsp.{
  Step, configure, push_begin, push_end, deinit, off, rtsp_stream_init, run,
}
use khadas_yolov8n_multithre.Display.Rtsp.Balance.{IsBalanced, run-IsBalanced}
use khadas_yolov8n_multithre.Display.Window.{found_as, no_window, closed_after, closed_after_lem}
use khadas_yolov8n_multithre.Sockets.{Setup, Session, service_main}
use khadas_yolov8n_multithre.Sockets.Closed.{service_main-closed}

-- A detection that reaches over the left edge.
abbrev over_edge : DetectResultGroup
over_edge = record {
  id = 0;
  count = 1;
  results =
      record {
        name = 85 ∷ [];
        left = negsuc 9;
        right = pos 50;
        top = pos 20;
        bottom = pos 60;
        prop = 0;
      }
      ∷ [];
}

draw_detections-AllInside_example : AllInside width height (draw_detections over_edge)
draw_detections-AllInside_example = draw_detections-AllInside over_edge

-- Four buffers, and three frames.
abbrev plane : ℕ → Plane
plane a = record { query = true; mapped = some a; queue = true }

abbrev device : Device
device = record {
  opened = true;
  query_cap = true;
  captures = true;
  set_format = true;
  request_buffers = true;
  planes = plane 100 ∷ plane 200 ∷ plane 300 ∷ plane 400 ∷ [];
  stream_on = true;
}

abbrev loaded : Camera
loaded = record {
  is_open = true;
  starts = 100 ∷ 200 ∷ 300 ∷ 400 ∷ [];
  queued = 0 ∷ 1 ∷ 2 ∷ 3 ∷ [];
  index = 0;
  streaming = true;
}

abbrev frame_at : ℕ → Frame
frame_at b = record { dequeues = true; buffer = b; requeues = true }

captures_all-IsQueued_example :
    (c : Camera) × (captures_all (frame_at 0 ∷ frame_at 2 ∷ frame_at 0 ∷ []) loaded
      ≡ returns ((some 100, 0) ∷ (some 300, 0) ∷ (some 100, 0) ∷ [], c))
    × (c.starts ≡ loaded.starts)
    × IsQueued c
unfolding load_mipi_camera closed
captures_all-IsQueued_example =
    captures_all-IsQueued device loaded (frame_at 0 ∷ frame_at 2 ∷ frame_at 0 ∷ []) refl
      (refl, refl, omega arith, (refl, refl, omega arith, (refl, refl, omega arith, tt)))

-- A second client builds its pipeline during a push to the first one's.
abbrev steps : List Step
steps = configure 1 2 ∷ push_begin ∷ configure 3 4 ∷ push_end ∷ push_begin ∷ push_end ∷ deinit ∷ []

run-IsBalanced_example : IsBalanced (run steps (rtsp_stream_init off))
run-IsBalanced_example = run-IsBalanced steps

closed_after_lem_example :
    closed_after (found_as none true none none none) 3 ≡ record no_window { bad_join = true }
closed_after_lem_example = closed_after_lem (found_as none true none none none) 3

abbrev listening : Setup
listening = record { socket = some 3; bind = true; listen = true }

-- Connected at the second attempt; a consumer comes and goes, and another one stays.
abbrev first_session : Session
first_session = record {
  attempts =
      record { running = true; socket = some 4; connects = false }
      ∷ record { running = true; socket = some 4; connects = true }
      ∷ [];
  rounds =
      record { accepts = some 5; send_fails = false }
      ∷ record { accepts = none; send_fails = true }
      ∷ record { accepts = some 6; send_fails = false }
      ∷ [];
}

abbrev last_session : Session
last_session = record {
  attempts = record { running = false; socket = none; connects = false } ∷ [];
  rounds = [];
}

service_main-closed_example : service_main listening (first_session ∷ last_session ∷ []) ≡ []
service_main-closed_example = service_main-closed listening (first_session ∷ last_session ∷ [])
