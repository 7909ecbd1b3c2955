-- ===== src/Pipeline/Board/Shown.antt =====
-- The main loop's drawing and statistics.
use khadas_yolov8n_multithre.Prelude.{
  ℕ, ◌+◌, ◌*◌, ◌<◌, ◌≡◌, refl, false, none, some, List, [], ◌∷◌, arith, tests, ◌==◌, length, take,
  Bool-cases, if-cases, true, false, inl, inr,
}
use khadas_yolov8n_multithre.Prelude.Int.{◌-ℤ◌}
use khadas_yolov8n_multithre.Prelude.Float.{Float32}
use khadas_yolov8n_multithre.Frames.{DetectResult, DetectResultGroup}
use khadas_yolov8n_multithre.Drawing.Inside.{AllInside, AllInside-append, draw_box_sw-AllInside}
use khadas_yolov8n_multithre.Pipeline.Board.{
  FdEntry, closes, atoi, release_rknpu_fds, Double, width, height, draw_all, draw_detections, Perf,
  Times, no_perf, add_times, report, perf_round, perf_rounds, with_report,
}

draw_all-AllInside : (dets : List DetectResult) → AllInside width height (draw_all dets)
unfolding draw_all
draw_all-AllInside [] = tt
draw_all-AllInside (det ∷ dets) =
    AllInside-append width height _ (draw_all dets)
      (draw_box_sw-AllInside width height det.left det.top (det.right -ℤ det.left)
        (det.bottom -ℤ det.top) 6)
      (draw_all-AllInside dets)

-- Whatever detections a result holds, drawing them writes only inside the display buffer.
pub draw_detections-AllInside :
    (group : DetectResultGroup) → AllInside width height (draw_detections group)
unfolding draw_detections
draw_detections-AllInside group = draw_all-AllInside (take group.count group.results)

-- The standard streams are never among the descriptors that a blackout closes.
abbrev AllAbove : ℕ → List ℕ → Type 0
AllAbove n [] = Unit {0}
AllAbove n (m ∷ ms) = (n < m) × AllAbove n ms

closes-above : (e : FdEntry) → closes e ≡ true → 2 < atoi 0 e.name
unfolding closes
closes-above e h = grind (tests, h)

release_rknpu_fds-AllAbove : (es : List FdEntry) → AllAbove 2 (release_rknpu_fds es)
unfolding release_rknpu_fds
release_rknpu_fds-AllAbove [] = tt
release_rknpu_fds-AllAbove (e ∷ es) =
    if-cases (AllAbove 2) (closes e) _ _ (λ h. (closes-above e h, release_rknpu_fds-AllAbove es))
      (λ _. release_rknpu_fds-AllAbove es)

perf_round-tenth :
    (fl : Float32) (dbl : Double fl.F) (t : Times fl dbl) (p : Perf fl dbl)
    → p.n + 1 ≡ 10
    → perf_round fl dbl t p ≡ (no_perf fl dbl, some (report fl dbl (add_times fl dbl t p)))
unfolding perf_round add_times
perf_round-tenth fl dbl t p h = rw h refl

perf_round-early :
    (fl : Float32) (dbl : Double fl.F) (t : Times fl dbl) (p : Perf fl dbl)
    → (p.n + 1 == 10) ≡ false
    → perf_round fl dbl t p ≡ (add_times fl dbl t p, none)
unfolding perf_round add_times
perf_round-early fl dbl t p h = rw h refl

-- From any sums of fewer than ten rounds: every round is in exactly one report of ten rounds or
-- among the fewer than ten that are still summed up.
perf_rounds-length :
    (fl : Float32) (dbl : Double fl.F) (ts : List (Times fl dbl)) (p : Perf fl dbl)
    → p.n < 10
    → let (last, reports) = perf_rounds fl dbl ts p in
      (length reports * 10 + last.n ≡ p.n + length ts) × (last.n < 10)
unfolding perf_rounds with_report add_times no_perf
perf_rounds-length fl dbl [] p h = omega arith
perf_rounds-length fl dbl (t ∷ ts) p h = elim (Bool-cases (p.n + 1 == 10)) [
  | inl e ↦
      let tenth : p.n + 1 ≡ 10 = grind (tests, e) in
      rw (perf_round-tenth fl dbl t p tenth) (
        let rest = perf_rounds-length fl dbl ts (no_perf fl dbl) (omega arith) in
        (omega (arith, rest.0, tenth), rest.1))
  | inr e ↦ rw (perf_round-early fl dbl t p e) (
      let rest = perf_rounds-length fl dbl ts (add_times fl dbl t p) (grind (tests, e, h)) in
      (omega (arith, rest.0), rest.1))
]
