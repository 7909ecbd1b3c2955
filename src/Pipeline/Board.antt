-- ===== src/Pipeline/Board.antt =====
-- What the main loop of src/main.cc does around its queues: the boxes on the display buffer, the
-- statistics, the NPU descriptors that a blackout closes, and the model's dimensions.
pub mod Shown
use khadas_yolov8n_multithre.Prelude.{
  ℕ, zero, suc, ◌+◌, ◌-◌, ◌*◌, Bool, true, false, Option, none, some, List, [], ◌∷◌, ◌++◌, ltb, leb,
  ◌==◌, ◌&&◌, if◌then◌else◌, take,
}
use khadas_yolov8n_multithre.Prelude.Int.{ℤ, pos, ◌-ℤ◌}
use khadas_yolov8n_multithre.Prelude.Float.{Float32}
use khadas_yolov8n_multithre.Control.{find}
use khadas_yolov8n_multithre.Frames.{DetectResult, DetectResultGroup}
use khadas_yolov8n_multithre.Drawing.{Pixel, draw_box_sw}

abbrev pub width : ℕ
width = 1920

abbrev pub height : ℕ
height = 1080

-- The boxes of a result, in order.
pub draw_all : List DetectResult → List Pixel
draw_all [] = []
draw_all (det ∷ dets) =
    draw_box_sw width height det.left det.top (det.right -ℤ det.left) (det.bottom -ℤ det.top) 6
    ++ draw_all dets

pub draw_detections : DetectResultGroup → List Pixel
unfolding draw_all
draw_detections group = draw_all (take group.count group.results)

-- What the code does with `double`, beside the `float` of `F`.
pub record Double (F : Type 0) : Type 1 where
  pub D : Type 0
  pub of_nat : ℕ → D
  pub of_float : F → D
  pub to_float : D → F
  pub plus : D → D → D
  pub minus : D → D → D
  pub over : D → D → D

module _ (fl : Float32) (dbl : Double fl.F) where
  open fl use {F, of_int, lit, add, div}
  open dbl use {of_nat, of_float, to_float, plus, minus, over}

  -- The sums over the rounds, in milliseconds, and `n`.
  pub record Perf : Type 0 where
    pub total_time : F
    pub time_capture : F
    pub time_display : F
    pub time_e2e : F
    pub time_infer : F
    pub n : ℕ

  pub no_perf : Perf
  no_perf = record {
    total_time = lit 0 1;
    time_capture = lit 0 1;
    time_display = lit 0 1;
    time_e2e = lit 0 1;
    time_infer = lit 0 1;
    n = 0;
  }

  -- The readings of a round, in microseconds: its start and stop, around the display and around the
  -- capture, when its frame was captured, and the worker's own time.
  pub record Times : Type 0 where
    pub start_us : ℕ
    pub stop_us : ℕ
    pub display_us : ℕ × ℕ
    pub capture_us : ℕ × ℕ
    pub captured_us : ℕ
    pub infer_us : ℕ

  -- The averages that are printed every ten rounds; `fps` is stored in the shared state.
  pub record Report : Type 0 where
    pub capture : F
    pub infer : F
    pub display : F
    pub avg_ms : F
    pub fps : F
    pub e2e : F

  -- `sum += (t1 - t0) / 1000`; `__get_us` gives a `double`.
  elapsed : F → ℕ → ℕ → F
  elapsed sum t0 t1 =
      to_float (plus (of_float sum) (over (minus (of_nat t1) (of_nat t0)) (of_nat 1000)))

  pub add_times : Times → Perf → Perf
  unfolding elapsed
  add_times t p = record {
    total_time = elapsed p.total_time t.start_us t.stop_us;
    time_capture = elapsed p.time_capture t.capture_us.0 t.capture_us.1;
    time_display = elapsed p.time_display t.display_us.0 t.display_us.1;
    time_e2e = elapsed p.time_e2e t.captured_us t.display_us.1;
    time_infer = add p.time_infer (div (of_int (pos t.infer_us)) (lit 1000 1));
    n = p.n + 1;
  }

  pub report : Perf → Report
  report p =
      let ten = lit 10 1 in
      let avg = div p.total_time ten in
      record {
        capture = div p.time_capture ten;
        infer = div p.time_infer ten;
        display = div p.time_display ten;
        avg_ms = avg;
        fps = div (lit 1000 1) avg;
        e2e = div p.time_e2e ten;
      }

  -- `if (++n == 10)`
  pub perf_round : Times → Perf → Perf × Option Report
  unfolding add_times report no_perf
  perf_round t p =
      let sum = add_times t p in if sum.n == 10 then (no_perf, some (report sum)) else (sum, none)

  pub with_report : Option Report → List Report → List Report
  with_report none rs = rs
  with_report (some r) rs = r ∷ rs

  pub perf_rounds : List Times → Perf → Perf × List Report
  unfolding perf_round with_report
  perf_rounds [] p = (p, [])
  perf_rounds (t ∷ ts) p =
      let (p', r) = perf_round t p in let (last, rs) = perf_rounds ts p' in (last, with_report r rs)

-- An entry of /proc/self/fd: its name, and what `readlink` gives.
pub record FdEntry : Type 0 where
  pub name : List ℕ
  pub target : Option (List ℕ)

-- `atoi` of a decimal name, with the digits before it in `acc`
pub atoi : ℕ → List ℕ → ℕ
atoi acc [] = acc
atoi acc (c ∷ s) = let n = atoi (acc * 10 + (c - 48)) s in if leb 48 c && leb c 57 then n else acc

-- "rknpu"
abbrev rknpu : List ℕ
rknpu = 114 ∷ 107 ∷ 110 ∷ 112 ∷ 117 ∷ []

unfoldable is_hidden : List ℕ → Bool
is_hidden [] = false
is_hidden (c ∷ s) = c == 46

unfoldable is_rknpu : Option (List ℕ) → Bool
is_rknpu none = false
is_rknpu (some target) = elim (find rknpu (take 255 target)) [ none ↦ false | some rest ↦ true ]

pub closes : FdEntry → Bool
unfolding is_hidden is_rknpu atoi
closes e =
    if is_hidden e.name then false else if leb (atoi 0 e.name) 2 then false else is_rknpu e.target

-- `release_rknpu_fds`: the descriptors that it closes, in order.
pub release_rknpu_fds : List FdEntry → List ℕ
unfolding closes
release_rknpu_fds [] = []
release_rknpu_fds (e ∷ es) =
    let rest = release_rknpu_fds es in if closes e then atoi 0 e.name ∷ rest else rest

-- Height, width and channels of the model's input, from its four dimensions.
unfoldable model_dims : Bool → ℕ × ℕ × ℕ × ℕ → ℕ × ℕ × ℕ
model_dims true (n, c, h, w) = (h, w, c)
model_dims false (n, h, w, c) = (h, w, c)
