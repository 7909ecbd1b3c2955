-- ===== src/Pipeline.antt =====
-- yolov8n_cap_multithread/src/main.cc: the frame-buffer pool, the two job queues, the inference
-- threads and the main loop with its blackout. One step of one thread at a time, in any order:
-- `step` takes the thread that runs and what it gets from outside; a blocked thread changes nothing.
-- A queue operation and a pool operation are each one step, and so are the tests and stores of the
-- flags between two of them.
pub mod Slots
pub mod Phase
pub mod Reach
pub mod Progress
pub mod Board
pub mod Handshake
use khadas_yolov8n_multithre.Prelude.{
  ℕ, zero, suc, ◌+◌, ◌-◌, ◌<◌, Bool, true, false, not, ◌&&◌, ◌||◌, Option, none, some, List, [],
  ◌∷◌, ◌++◌, ltb, ◌==◌, if◌then◌else◌, length, set, get_elem?, replicate, drop_first,
}
use khadas_yolov8n_multithre.Control.{YoloControlState, initial_state, Command, request}
use khadas_yolov8n_multithre.Frames.{DetectResultGroup, DetectionMessage}

abbrev pub n_threads : ℕ
n_threads = 3

abbrev pub n_buf : ℕ
n_buf = n_threads + 2

-- An `InferJob`; one with `buf_idx < 0` is the shutdown sentinel. Scales are `float` bit patterns.
pub data InferJob : Type 0 where
  job : (buf_idx scale_w scale_h frame_id capture_us : ℕ) → InferJob
  sentinel : InferJob

pub record InferResult : Type 0 where
  pub buf_idx : ℕ
  pub group : DetectResultGroup
  pub frame_id : ℕ
  pub capture_us : ℕ
  pub infer_us : ℕ

abbrev pub empty_group : DetectResultGroup
empty_group = record { id = 0; count = 0; results = [] }

-- Where an inference thread is: in `pop`, past it with a job, in RKNN and `post_process` with the
-- result under way, or returned.
pub data Worker : Type 0 where
  waiting : Worker
  popped : InferResult → Worker
  running : InferResult → Worker
  exited : Worker

-- Where the main thread is. `fill n` has `n` frames to capture and submit, `filling slot n` has
-- acquired a slot for the first of them; `awaiting` and `shown` hold the `start_time` of a round.
pub data Main : Type 0 where
  fill : ℕ → Main
  filling : ℕ → ℕ → Main
  top : Main
  awaiting : ℕ → Main
  shown : ℕ → InferResult → Main
  draining : Main
  dark : Main
  reviving : Main
  resuming : Main
  closing : Main
  stopping : ℕ → Main
  joining : Main
  ended : Main

pub record System : Type 0 where
  pub free_list : List ℕ
  pub infer_q : List InferJob
  pub result_q : List InferResult
  pub workers : List Worker
  pub main : Main
  pub in_flight : ℕ
  pub frame_counter : ℕ
  pub ctxs_alive : Bool
  pub published : List DetectionMessage
  pub state : YoloControlState

-- After `pool.init`, the contexts and the threads: the pipeline is to be filled.
unfoldable pub start : System
start = record {
  free_list = 0 ∷ 1 ∷ 2 ∷ 3 ∷ 4 ∷ [];
  infer_q = [];
  result_q = [];
  workers = replicate n_threads waiting;
  main = fill n_threads;
  in_flight = 0;
  frame_counter = 0;
  ctxs_alive = true;
  published = [];
  state = initial_state;
}

-- What the main thread gets from outside: the letterbox scales, the clock, and whether
-- `rknn_init` succeeds, and whether the control thread and the data thread have ended.
pub record Outside : Type 0 where
  pub scale_w : ℕ
  pub scale_h : ℕ
  pub now_us : ℕ
  pub init_ok : Bool
  pub servers_ended : Bool

-- `pool.acquire()`, which blocks on an empty list
pub acquire : List ℕ → ℕ → System → System
acquire [] n s = s
acquire (idx ∷ rest) n s = record s { free_list = rest; main = filling idx n }

-- the rest of `capture_and_submit`, and `++in_flight`
pub submit : Outside → ℕ → ℕ → System → System
submit o idx n s = record s {
  infer_q = s.infer_q ++ (job idx o.scale_w o.scale_h s.frame_counter o.now_us ∷ []);
  frame_counter = s.frame_counter + 1;
  state = record (s.state) { frame_id = s.frame_counter + 1 };
  in_flight = s.in_flight + 1;
  main = fill n;
}

-- The head of the loop: the two tests, and the flags reset on the way into a blackout.
pub loop_head : Outside → System → System
loop_head o s =
    if s.state.shutdown_requested
    then record s { main = closing }
    else if s.state.blackout_requested
    then record s {
      main = draining;
      state = record (s.state) { blackout_active = false; resume_done = false };
    }
    else record s { main = awaiting o.now_us }

-- `result_q.pop()` and `--in_flight`
pub await_result : List InferResult → ℕ → System → System
await_result [] start_us s = s
await_result (res ∷ rest) start_us s = record s {
  result_q = rest;
  in_flight = s.in_flight - 1;
  main = shown start_us res;
}

-- `data_pub.publish`, in the order of the calls, and `pool.release`; drawing and display only read
-- the slot that the main thread still holds.
pub recycle : ℕ → InferResult → System → System
recycle start_us res s = record s {
  published =
      s.published
      ++ (record { frame_id = res.frame_id; timestamp_us = start_us; group = res.group } ∷ []);
  free_list = s.free_list ++ (res.buf_idx ∷ []);
  main = fill 1;
}

-- One round of the draining loop
pub drain_round : List InferResult → System → System
drain_round [] s = s
drain_round (res ∷ rest) s = record s {
  result_q = rest;
  free_list = s.free_list ++ (res.buf_idx ∷ []);
  in_flight = s.in_flight - 1;
}

-- or, behind it, `rknn_destroy` and `blackout_active`
pub drain : System → System
unfolding drain_round
drain s =
    if s.in_flight == 0
    then record s {
      ctxs_alive = false;
      state = record (s.state) { blackout_active = true };
      main = dark;
    }
    else drain_round s.result_q s

-- The idle loop and what follows it up to the new contexts,
pub wait_resume : Outside → System → System
wait_resume o s =
    if s.state.shutdown_requested
    then record s { main = closing }
    else if not s.state.resume_requested
    then s
    else if not o.init_ok
    then record s { main = closing; state = record (s.state) { shutdown_requested = true } }
    else record s { ctxs_alive = true; main = reviving }

-- and, behind the stale camera frames, the handshake under the mutex.
pub handshake : System → System
handshake s = record s {
  main = resuming;
  state = record (s.state) {
    blackout_active = false;
    inference_enabled = true;
    resume_done = true;
  };
}

-- The consumed requests are cleared, and the pipeline is filled again.
pub clear_requests : System → System
clear_requests s = record s {
  main = fill n_threads;
  state = record (s.state) { blackout_requested = false; resume_requested = false };
}

-- Teardown: `ctrl_server.stop()` and `data_pub.stop()`, which join their threads,
pub stop_servers : Outside → System → System
stop_servers o s = if o.servers_ended then record s { main = stopping n_threads } else s

-- the sentinels, the joins, and the contexts.
pub stop : ℕ → System → System
stop zero s = record s { main = joining }
stop (suc n) s = record s { infer_q = s.infer_q ++ (sentinel ∷ []); main = stopping n }

pub all_exited : List Worker → Bool
all_exited [] = true
all_exited (exited ∷ ws) = all_exited ws
all_exited (_ ∷ ws) = false

pub join : System → System
unfolding all_exited
join s = if all_exited s.workers then record s { main = ended; ctxs_alive = false } else s

-- The lists that a blocking call waits on are read in the same step.
pub main_at : Main → Outside → System → System
unfolding acquire submit loop_head await_result recycle drain wait_resume handshake clear_requests
    stop_servers stop join
main_at (fill zero) o s = record s { main = top }
main_at (fill (suc n)) o s = acquire s.free_list n s
main_at (filling idx n) o s = submit o idx n s
main_at top o s = loop_head o s
main_at (awaiting t) o s = await_result s.result_q t s
main_at (shown t res) o s = recycle t res s
main_at draining o s = drain s
main_at dark o s = wait_resume o s
main_at reviving o s = handshake s
main_at resuming o s = clear_requests s
main_at closing o s = stop_servers o s
main_at (stopping n) o s = stop n s
main_at joining o s = join s
main_at ended o s = s

pub main_step : Outside → System → System
unfolding main_at
main_step o s = main_at s.main o s

-- `inference_thread`, of thread `i`: the pop of a job or a sentinel,
pub take_job : List InferJob → ℕ → System → System
take_job [] i s = s
take_job (sentinel ∷ rest) i s = record s { infer_q = rest; workers = set s.workers i exited }
take_job (job idx w h id us ∷ rest) i s = record s {
  infer_q = rest;
  workers = set s.workers i (
      popped (record {
        buf_idx = idx;
        group = empty_group;
        frame_id = id;
        capture_us = us;
        infer_us = 0;
      }));
}

-- the test of `inference_enabled`,
pub check_enabled : ℕ → InferResult → System → System
check_enabled i res s =
    if s.state.inference_enabled
    then record s { workers = set s.workers i (running res) }
    else record s { workers = set s.workers i waiting; result_q = s.result_q ++ (res ∷ []) }

-- and the end of inference and decoding, which found `group` in `us` microseconds.
pub finish : ℕ → InferResult → DetectResultGroup → ℕ → System → System
finish i res group us s = record s {
  workers = set s.workers i waiting;
  result_q = s.result_q ++ (record res { group = group; infer_us = us } ∷ []);
}

pub worker_at : Option Worker → ℕ → DetectResultGroup → ℕ → System → System
unfolding take_job check_enabled finish
worker_at none i group us s = s
worker_at (some waiting) i group us s = take_job s.infer_q i s
worker_at (some (popped res)) i group us s = check_enabled i res s
worker_at (some (running res)) i group us s = finish i res group us s
worker_at (some exited) i group us s = s

pub worker_step : ℕ → DetectResultGroup → ℕ → System → System
unfolding worker_at
worker_step i group us s = worker_at (get_elem? s.workers i) i group us s

-- Which thread runs next: the control thread stores what a request asks for.
pub data Event : Type 0 where
  main_runs : Outside → Event
  worker_runs : ℕ → DetectResultGroup → ℕ → Event
  requests : Command → Event

pub step : Event → System → System
unfolding main_step worker_step
step (main_runs o) s = main_step o s
step (worker_runs i group us) s = worker_step i group us s
step (requests c) s = record s { state = request c s.state }

-- A whole schedule.
unfoldable pub run : List Event → System → System
unfolding step
run [] s = s
run (e ∷ es) s = run es (step e s)
