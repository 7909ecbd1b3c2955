-- ===== src/Pipeline/Handshake.antt =====
-- The blackout and resume commands of src/ipc/unix_control_server.cc beside the pipeline of
-- src/main.cc: the one control thread begins a request, waits for its flag, and answers or gives up.
pub mod Flags
pub mod Sound
pub mod Honest
use khadas_yolov8n_multithre.Prelude.{ℕ, Bool, true, false, List, [], ◌∷◌, if◌then◌else◌}
use khadas_yolov8n_multithre.Control.{
  YoloControlState, Command, pause_yolo, resume_yolo, get_status, set_dump_enabled, shutdown,
  blackout, resume, unknown,
}
use khadas_yolov8n_multithre.Frames.{DetectResultGroup}
use khadas_yolov8n_multithre.Pipeline.{
  System, Outside, start, step, main_runs, worker_runs, requests,
}

-- Where the control thread is: between two requests, or in `wait_for`.
pub data Handler : Type 0 where
  idle : Handler
  in_blackout : Handler
  in_resume : Handler

-- `late` says that the wait of a resume has timed out.
pub record Controlled : Type 0 where
  pub system : System
  pub handler : Handler
  pub late : Bool

abbrev pub controlled : Controlled
controlled = record { system = start; handler = idle; late = false }

pub waits_for : Command → YoloControlState → Handler
waits_for blackout s = in_blackout
waits_for resume s = if s.blackout_active then in_resume else idle
waits_for _ s = idle

-- A request begins when the one before it has been answered.
pub begin_at : Handler → Command → Controlled → Controlled
unfolding waits_for step
begin_at idle c s = record s {
  system = step (requests c) s.system;
  handler = waits_for c s.system.state;
}
begin_at _ c s = s

-- The predicate of the wait.
pub sees : Handler → YoloControlState → Bool
sees idle s = false
sees in_blackout s = s.blackout_active
sees in_resume s = s.resume_done

pub is_resume : Handler → Bool
is_resume in_resume = true
is_resume _ = false

pub data Move : Type 0 where
  main_moves : Outside → Move
  worker_moves : ℕ → DetectResultGroup → ℕ → Move
  begins : Command → Move
  wakes : Move
  gives_up : Move

-- A wait ends with its flag set, or after its time, when the flag is tested again.
pub move : Move → Controlled → Controlled
unfolding begin_at sees is_resume step
move (main_moves o) s = record s { system = step (main_runs o) s.system }
move (worker_moves i group us) s = record s { system = step (worker_runs i group us) s.system }
move (begins c) s = begin_at s.handler c s
move wakes s = if sees s.handler s.system.state then record s { handler = idle } else s
move gives_up s =
    if sees s.handler s.system.state
    then s
    else if is_resume s.handler
    then record s { handler = idle; late = true }
    else record s { handler = idle }

unfoldable pub moves : List Move → Controlled → Controlled
unfolding move
moves [] s = s
moves (m ∷ ms) s = moves ms (move m s)
