-- ===== src/Summarizer.antt =====
-- yolov8n_cap_multithread/tools/event_summarizer.cc: the aggregate of an episode and the state machine that
-- runs the LLM once the scene has been clear for the cooldown. Sending a command, writing the
-- snapshot and running the model are actions, in their order; their results are inputs.
pub mod Cooldown
pub mod Commands
pub mod Cycles
pub mod Receive
use khadas_yolov8n_multithre.Prelude.{
  ℕ, zero, suc, ◌+◌, Bool, true, false, not, ◌&&◌, ◌||◌, Option, none, some, List, [], ◌∷◌, ◌++◌,
  map, ltb, leb, ◌==◌, if◌then◌else◌,
}
use khadas_yolov8n_multithre.Prelude.Int.{ℤ, pos}
use khadas_yolov8n_multithre.Prelude.Float.{Float32}
use khadas_yolov8n_multithre.Prelude.Text.{c_str}
use khadas_yolov8n_multithre.Prelude.Words.{sub64}
use khadas_yolov8n_multithre.Prelude.Maps.{lookup, insert}
use khadas_yolov8n_multithre.Wire.{WireTrackSummary}
use khadas_yolov8n_multithre.Control.{same_text}

pub record AggTrack {ℓ} (F : Type ℓ) : Type ℓ where
  pub class_name : List ℕ
  pub track_id : ℕ
  pub frames_seen : ℕ
  pub first_seen_us : ℕ
  pub last_seen_us : ℕ
  pub duration_ms : ℕ
  pub first_cx : ℤ
  pub first_cy : ℤ
  pub last_cx : ℤ
  pub last_cy : ℤ
  pub max_speed : F
  pub sum_heading_x : F
  pub sum_heading_y : F
  pub min_loiter : F
  pub max_loiter : F
  pub ever_in_roi : Bool
  pub roi_entered : Bool
  pub roi_exited : Bool
  pub first_set : Bool
  pub last_status : ℕ

pub data State : Type 0 where
  no_drone drone_present cooldown llm_window : State

-- The options: the device and the `--also-device`s, and what the others say.
pub record Config : Type 0 where
  pub devices : List ℕ
  pub cooldown_ms : ℕ
  pub drone_class : List ℕ
  pub use_control : Bool
  pub has_qwen : Bool

pub data Action : Type 0 where
  send_blackout : ℕ → Action
  snapshot : ℕ → Action
  run_qwen : Action
  send_resume : ℕ → Action

-- `RecvResult` with the frame; a `Disconnect` leaves the loop and changes none of the state.
pub data Received : Type 0 where
  frame : List WireTrackSummary → Received
  timeout : Received

-- A round of the loop: what was received, the clock then, and whether the snapshot gets written.
pub record Tick : Type 0 where
  pub received : Received
  pub now_ms : ℕ
  pub writes : Bool

pub record Machine {ℓ} (F : Type ℓ) : Type ℓ where
  pub agg : List (ℕ × AggTrack F)
  pub state : State
  pub present : Bool
  pub departed_ms : ℕ

unfoldable pub is_drone : Config → WireTrackSummary → Bool
is_drone c s = same_text c.drone_class (c_str s.class_name) && not (s.status == 2)

unfoldable pub active : State → Bool
active drone_present = true
active cooldown = true
active _ = false

unfoldable pub any_drone : Config → List WireTrackSummary → Bool
any_drone c [] = false
any_drone c (s ∷ ss) = is_drone c s || any_drone c ss

abbrev pub is_set : ℕ → Bool
is_set b = not (b == 0)

-- What the machine does in an LLM window.
unfoldable pub cycle : Config → ℕ → Bool → List Action
cycle c tracks writes =
    (if c.use_control then map send_blackout c.devices else [])
    ++ ((snapshot tracks ∷ (if writes && c.has_qwen then run_qwen ∷ [] else []))
        ++ (if c.use_control then map send_resume c.devices else []))

pub count_tracks {ℓ} : {A : Type ℓ} → List A → ℕ
count_tracks [] = 0
count_tracks (x ∷ xs) = suc (count_tracks xs)

module _ (fl : Float32) where
  open fl use {F, of_bits, lit, add, mul, div, cos, sin, lt}

  -- A new entry of the map.
  pub fresh_track : AggTrack F
  fresh_track = record {
    class_name = [];
    track_id = 0;
    frames_seen = 0;
    first_seen_us = 0;
    last_seen_us = 0;
    duration_ms = 0;
    first_cx = pos 0;
    first_cy = pos 0;
    last_cx = pos 0;
    last_cy = pos 0;
    max_speed = lit 0 1;
    sum_heading_x = lit 0 1;
    sum_heading_y = lit 0 1;
    min_loiter = lit 1 1;
    max_loiter = lit 0 1;
    ever_in_roi = false;
    roi_entered = false;
    roi_exited = false;
    first_set = false;
    last_status = 0;
  }

  pub larger : F → F → F
  larger a b = if lt b a then a else b

  pub smaller : F → F → F
  smaller a b = if lt a b then a else b

  pub radians : WireTrackSummary → F
  radians s =
      div (mul (of_bits s.heading_deg) (lit 314159265358979323846 100000000000000000000))
        (lit 180 1)

  pub merge : AggTrack F → WireTrackSummary → AggTrack F
  unfolding larger smaller radians
  merge a s = record {
    class_name = c_str s.class_name;
    track_id = s.track_id;
    frames_seen = if ltb a.frames_seen s.frames_seen then s.frames_seen else a.frames_seen;
    first_seen_us = if a.first_set then a.first_seen_us else s.first_seen_us;
    last_seen_us = s.last_seen_us;
    duration_ms = if ltb a.duration_ms s.duration_ms then s.duration_ms else a.duration_ms;
    first_cx = if a.first_set then a.first_cx else s.cx;
    first_cy = if a.first_set then a.first_cy else s.cy;
    last_cx = s.cx;
    last_cy = s.cy;
    max_speed = larger (of_bits s.speed) a.max_speed;
    sum_heading_x = add a.sum_heading_x (cos (radians s));
    sum_heading_y = add a.sum_heading_y (sin (radians s));
    min_loiter = smaller (of_bits s.loiter_score) a.min_loiter;
    max_loiter = larger (of_bits s.loiter_score) a.max_loiter;
    ever_in_roi = is_set s.in_roi || a.ever_in_roi;
    roi_entered = is_set s.roi_entered || a.roi_entered;
    roi_exited = is_set s.roi_exited || a.roi_exited;
    first_set = true;
    last_status = s.status;
  }

  pub entry_of : Option (AggTrack F) → AggTrack F
  unfolding fresh_track
  entry_of none = fresh_track
  entry_of (some a) = a

  pub update_aggregate : List (ℕ × AggTrack F) → WireTrackSummary → List (ℕ × AggTrack F)
  unfolding merge entry_of
  update_aggregate agg s = insert s.track_id (merge (entry_of (lookup s.track_id agg)) s) agg

  -- The loop over the records of a frame, in an active episode.
  pub aggregate : Config → List (ℕ × AggTrack F) → List WireTrackSummary → List (ℕ × AggTrack F)
  unfolding update_aggregate
  aggregate c agg [] = agg
  aggregate c agg (s ∷ ss) = aggregate c (if is_drone c s then update_aggregate agg s else agg) ss

  pub receive : Config → Received → Machine F → Machine F
  receive c (frame ss) m = record m {
    present = any_drone c ss;
    agg = if active m.state then aggregate c m.agg ss else m.agg;
  }
  receive c timeout m = m

  -- the `switch`
  pub switch : State → Config → ℕ → Machine F → Machine F
  switch no_drone c t m = if m.present then record m { agg = []; state = drone_present } else m
  switch drone_present c t m =
      if m.present then m else record m { departed_ms = t; state = cooldown }
  switch cooldown c t m =
      if m.present
      then record m { state = drone_present }
      else if leb c.cooldown_ms (sub64 t m.departed_ms)
      then record m { state = llm_window }
      else m
  switch llm_window c t m = m

  unfoldable pub new_machine : Machine F
  new_machine = record { agg = []; state = no_drone; present = false; departed_ms = 0 }

  -- the LLM window, if the state machine is in it
  pub window : State → Config → Bool → Machine F → Machine F × List Action
  window llm_window c writes m = (
    record m { agg = []; present = false; state = no_drone },
    cycle c (count_tracks m.agg) writes,
  )
  window _ c writes m = (m, [])

  unfoldable pub tick : Config → Tick → Machine F → Machine F × List Action
  unfolding receive switch window
  tick c x m =
      let got = receive c x.received m in
      let moved = switch got.state c x.now_ms got in window moved.state c x.writes moved

  unfoldable pub run : Config → List Tick → Machine F → Machine F
  unfolding tick
  run c [] m = m
  run c (x ∷ xs) m = run c xs (tick c x m).0
