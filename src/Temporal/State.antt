-- ===== src/Temporal/State.antt =====
-- yolov8n_cap_multithread/temporal/include/track_state.h and src/track_state.cc: the temporal state
-- of one track. `int` coordinates are unbounded; the unsigned counters wrap.
pub mod Counters
pub mod History
pub mod Regions
pub mod Loiter
use khadas_yolov8n_multithre.Prelude.{
  ℕ, ◌+◌, ◌-◌, ◌*◌, ◌/◌, ◌%◌, ◌^◌, ◌<◌, Bool, true, false, not, ◌&&◌, List, [], ◌∷◌, ◌++◌, ltb, leb,
  ◌==◌, if◌then◌else◌, length, drop_first,
}
use khadas_yolov8n_multithre.Prelude.Int.{ℤ, pos, ◌-ℤ◌, leb_ℤ, ltb_ℤ, min_ℤ, max_ℤ}
use khadas_yolov8n_multithre.Prelude.Float.{Float32}
use khadas_yolov8n_multithre.Prelude.Text.{label}
use khadas_yolov8n_multithre.Prelude.Words.{u32_mod, inc32, sub64}

pub record Observation : Type 0 where
  pub timestamp_us : ℕ
  pub cx : ℤ
  pub cy : ℤ
  pub left : ℤ
  pub top : ℤ
  pub right : ℤ
  pub bottom : ℤ

pub record Roi : Type 0 where
  pub left : ℤ
  pub top : ℤ
  pub right : ℤ
  pub bottom : ℤ
  pub enabled : Bool

pub contains : Roi → ℤ → ℤ → Bool
contains r x y = r.enabled && leb_ℤ r.left x && ltb_ℤ x r.right && leb_ℤ r.top y && ltb_ℤ y r.bottom

-- `kHistoryMax`, `kLoiterRadius` and `kTentativeFrames`
abbrev pub history_max : ℕ
history_max = 16

abbrev pub loiter_radius : ℤ
loiter_radius = pos 25

abbrev pub tentative_frames : ℕ
tentative_frames = 3

pub record TrackState {ℓ} (F : Type ℓ) : Type ℓ where
  pub track_id : ℕ
  pub class_name : List ℕ
  pub first_seen_us : ℕ
  pub last_seen_us : ℕ
  pub frames_seen : ℕ
  pub frames_since_first : ℕ
  pub frames_missed : ℕ
  pub last : Observation
  pub history : List Observation
  pub vx : F
  pub vy : F
  pub prev_speed : F
  pub accel : F
  pub loiter_score : F
  pub in_roi : Bool
  pub prev_in_roi : Bool
  pub roi_entered : Bool
  pub roi_exited : Bool

-- `Observation last_{}`
abbrev pub no_observation : Observation
no_observation = record {
  timestamp_us = 0;
  cx = pos 0;
  cy = pos 0;
  left = pos 0;
  top = pos 0;
  right = pos 0;
  bottom = pos 0;
}

-- `push_back`, then `pop_front` above `kHistoryMax`
pub remember : List Observation → Observation → List Observation
remember h obs =
    if ltb history_max (length (h ++ (obs ∷ [])))
    then drop_first (h ++ (obs ∷ []))
    else h ++ (obs ∷ [])

-- The bounds of the centroids of a window: `xmin`, `xmax`, `ymin` and `ymax`.
pub record Box : Type 0 where
  pub xmin : ℤ
  pub xmax : ℤ
  pub ymin : ℤ
  pub ymax : ℤ

pub widen : Box → Observation → Box
widen b h = record {
  xmin = min_ℤ b.xmin h.cx;
  xmax = max_ℤ b.xmax h.cx;
  ymin = min_ℤ b.ymin h.cy;
  ymax = max_ℤ b.ymax h.cy;
}

pub widen_all : Box → List Observation → Box
widen_all b [] = b
widen_all b (h ∷ hs) = widen_all (widen b h) hs

-- `std::max(xmax - xmin, ymax - ymin)` over a window that starts with `h`
pub spread : Observation → List Observation → ℤ
unfolding widen_all widen
spread h hs =
    let b : Box =
      widen_all (record { xmin = h.cx; xmax = h.cx; ymin = h.cy; ymax = h.cy }) (h ∷ hs) in
    max_ℤ (b.xmax -ℤ b.xmin) (b.ymax -ℤ b.ymin)

-- `static_cast<uint32_t>` of the span in milliseconds
unfoldable pub duration_ms {ℓ} : {F : Type ℓ} → TrackState F → ℕ
duration_ms s =
    if leb s.last_seen_us s.first_seen_us
    then 0
    else (s.last_seen_us - s.first_seen_us) / 1000 % u32_mod

-- 0 tentative, 1 active, 2 lost
unfoldable pub status {ℓ} : {F : Type ℓ} → TrackState F → ℕ
status s = if ltb 0 s.frames_missed then 2 else if ltb s.frames_seen tentative_frames then 0 else 1

unfoldable pub mark_missed {ℓ} : {F : Type ℓ} → TrackState F → TrackState F
mark_missed s = record s {
  frames_missed = inc32 s.frames_missed;
  frames_since_first = inc32 s.frames_since_first;
  roi_entered = false;
  roi_exited = false;
}

module _ (fl : Float32) where
  open fl use {F, of_int, lit, add, sub, mul, div, sqrt, abs, atan2, lt}

  -- the constructor
  unfoldable pub new_track : ℕ → List ℕ → ℕ → TrackState F
  new_track id name first_us = record {
    track_id = id;
    class_name = label name;
    first_seen_us = first_us;
    last_seen_us = 0;
    frames_seen = 0;
    frames_since_first = 0;
    frames_missed = 0;
    last = no_observation;
    history = [];
    vx = lit 0 1;
    vy = lit 0 1;
    prev_speed = lit 0 1;
    accel = lit 0 1;
    loiter_score = lit 0 1;
    in_roi = false;
    prev_in_roi = false;
    roi_entered = false;
    roi_exited = false;
  }

  unfoldable pub visibility : TrackState F → F
  visibility s =
      if s.frames_since_first == 0
      then lit 0 1
      else div (of_int (pos s.frames_seen)) (of_int (pos s.frames_since_first))

  unfoldable pub speed : TrackState F → F
  speed s = sqrt (add (mul s.vx s.vx) (mul s.vy s.vy))

  unfoldable pub heading_deg : TrackState F → F
  heading_deg s =
      if lt (abs s.vx) (lit 1 1000) && lt (abs s.vy) (lit 1 1000)
      then lit 0 1
      else div (mul (atan2 s.vy s.vx) (lit 180 1)) (lit 314159265358979323846 (10 ^ 20))

  -- `update`, first paragraph
  bookkeep : Observation → TrackState F → TrackState F
  bookkeep obs s = record s {
    frames_seen = inc32 s.frames_seen;
    frames_since_first = inc32 s.frames_since_first;
    frames_missed = 0;
    last_seen_us = obs.timestamp_us;
  }

  -- seconds since the last observation, by `uint64_t` subtraction
  elapsed : Observation → TrackState F → F
  elapsed obs s = mul (of_int (pos (sub64 obs.timestamp_us s.last.timestamp_us))) (lit 1 1_000_000)

  smooth : F → F → F
  smooth instant v = add (mul (lit 1 2) instant) (mul (sub (lit 1 1) (lit 1 2)) v)

  velocity : Bool → Observation → TrackState F → TrackState F
  unfolding elapsed smooth
  velocity first obs s =
      let dt : F = elapsed obs s in
      let moved : Bool = not first && lt (lit 1 10000) dt in
      record s {
        vx = if moved then smooth (div (of_int (obs.cx -ℤ s.last.cx)) dt) s.vx else s.vx;
        vy = if moved then smooth (div (of_int (obs.cy -ℤ s.last.cy)) dt) s.vy else s.vy;
      }

  acceleration : Bool → Observation → TrackState F → TrackState F
  unfolding elapsed speed
  acceleration first obs s =
      let dt : F = elapsed obs s in
      let cur_speed : F = speed s in
      record s {
        accel =
            if not first && ltb s.last.timestamp_us s.last_seen_us
            then if lt (lit 1 10000) dt then div (sub cur_speed s.prev_speed) dt else lit 0 1
            else s.accel;
        prev_speed = cur_speed;
      }

  append_history : Observation → TrackState F → TrackState F
  unfolding remember
  append_history obs s = record s { last = obs; history = remember s.history obs }

  -- `std::max(0.f, std::min(1.f, 1.0f - ratio))`
  clamp_unit : F → F
  clamp_unit x =
      let m : F = if lt x (lit 1 1) then x else lit 1 1 in if lt (lit 0 1) m then m else lit 0 1

  -- the score of a window
  pub loiter_of : List Observation → F
  unfolding clamp_unit spread
  loiter_of [] = lit 0 1
  loiter_of (h ∷ hs) =
      if leb 4 (length (h ∷ hs))
      then clamp_unit (sub (lit 1 1) (div (of_int (spread h hs)) (of_int loiter_radius)))
      else lit 0 1

  loiter : TrackState F → TrackState F
  unfolding loiter_of
  loiter s = record s { loiter_score = loiter_of s.history }

  membership : Roi → Observation → TrackState F → TrackState F
  unfolding contains
  membership roi obs s =
      let inside : Bool = contains roi obs.cx obs.cy in
      record s {
        prev_in_roi = s.in_roi;
        in_roi = inside;
        roi_entered = inside && not s.in_roi;
        roi_exited = not inside && s.in_roi;
      }

  pub update : Roi → Observation → TrackState F → TrackState F
  unfolding bookkeep velocity acceleration append_history loiter membership
  update roi obs s =
      let first : Bool = s.frames_seen == 0 in
      membership roi obs
        (loiter (append_history obs (acceleration first obs (velocity first obs (bookkeep obs s)))))
