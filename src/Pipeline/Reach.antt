-- ===== src/Pipeline/Reach.antt =====
-- The phases through every schedule.
use khadas_yolov8n_multithre.Prelude.{
  ℕ, ◌+◌, ◌≤◌, ◌≡◌, refl, ap, ◌∙◌, inl, inr, Option, none, some, List, [], ◌∷◌, ◌++◌, arith, length,
  set, get_elem?, length-set,
}
use khadas_yolov8n_multithre.Frames.{DetectResultGroup}
use khadas_yolov8n_multithre.Pipeline.{
  InferJob, job, sentinel, InferResult, Worker, waiting, popped, running, exited, Main, fill,
  filling, top, awaiting, shown, draining, dark, reviving, resuming, closing, stopping, joining,
  ended, System, start, n_threads, empty_group, main_step, take_job, check_enabled, finish,
  worker_at, worker_step, Event, main_runs, worker_runs, requests, step, run,
}
use khadas_yolov8n_multithre.Pipeline.Slots.{
  total, total-snoc, total-set, job_weight, result_weight, worker_weight,
}
use khadas_yolov8n_multithre.Pipeline.Phase.{
  one, exit_weight, sentinel_weight, Phase, IsPhased, if-IsPhased, main_at-IsPhased,
}

-- A step of a thread keeps what the phase reads.
keeps :
    (p : Main) (s t : System)
    → t.in_flight ≡ s.in_flight
    → t.ctxs_alive ≡ s.ctxs_alive
    → (total exit_weight s.workers ≡ n_threads → total exit_weight t.workers ≡ n_threads)
    → Phase p s
    → Phase p t
keeps (fill n) s t f c x (a, b) = (omega (arith, a, f), c ∙ b)
keeps (filling idx n) s t f c x (a, b) = (omega (arith, a, f), c ∙ b)
keeps top s t f c x (a, b) = (f ∙ a, c ∙ b)
keeps (awaiting u) s t f c x (a, b) = (f ∙ a, c ∙ b)
keeps (shown u res) s t f c x (a, b) = (omega (arith, a, f), c ∙ b)
keeps draining s t f c x (a, b) = (omega (arith, a, f), c ∙ b)
keeps dark s t f c x a = f ∙ a
keeps reviving s t f c x (a, b) = (f ∙ a, c ∙ b)
keeps resuming s t f c x (a, b) = (f ∙ a, c ∙ b)
keeps closing s t f c x (inl b) = inl (c ∙ b)
keeps closing s t f c x (inr a) = inr (f ∙ a)
keeps (stopping n) s t f c x (inl b) = inl (c ∙ b)
keeps (stopping n) s t f c x (inr a) = inr (f ∙ a)
keeps joining s t f c x (inl b) = inl (c ∙ b)
keeps joining s t f c x (inr a) = inr (f ∙ a)
keeps ended s t f c x a = x a

exit-set :
    (s : System) (i : ℕ) (v w : Worker)
    → get_elem? s.workers i ≡ some w
    → total exit_weight (set s.workers i v) + exit_weight w
      ≡ total exit_weight s.workers + exit_weight v
exit-set s i v w h = total-set exit_weight s.workers i v w h

busy-set :
    (s : System) (i : ℕ) (v w : Worker)
    → get_elem? s.workers i ≡ some w
    → total (worker_weight one) (set s.workers i v) + worker_weight one w
      ≡ total (worker_weight one) s.workers + worker_weight one v
busy-set s i v w h = total-set (worker_weight one) s.workers i v w h

pub exit_most : (ws : List Worker) → total exit_weight ws ≤ length ws
exit_most [] = omega arith
exit_most (waiting ∷ ws) = omega (arith, exit_most ws)
exit_most (popped r ∷ ws) = omega (arith, exit_most ws)
exit_most (running r ∷ ws) = omega (arith, exit_most ws)
exit_most (exited ∷ ws) = omega (arith, exit_most ws)

take_job-IsPhased :
    (l : List InferJob) (i : ℕ) (s : System)
    → s.infer_q ≡ l
    → get_elem? s.workers i ≡ some waiting
    → IsPhased s
    → IsPhased (take_job l i s)
unfolding take_job
take_job-IsPhased [] i s e h v = v
take_job-IsPhased (sentinel ∷ xs) i s e h v =
    let x = exit-set s i exited waiting h in
    let size = length-set s.workers i exited in
    record {
      counted =
          omega (arith, v.counted, ap (total (job_weight one)) e, busy-set s i exited waiting h);
      stops = omega (arith, v.stops, ap (total sentinel_weight) e, x);
      crew = size ∙ v.crew;
      phase =
          keeps s.main s _ refl refl
            (λ a. absurd (omega (arith, a, x, size, v.crew, exit_most (set s.workers i exited))))
            v.phase;
    }
take_job-IsPhased (job idx sw sh id us ∷ xs) i s e h v =
    let res : InferResult = record {
      buf_idx = idx;
      group = empty_group;
      frame_id = id;
      capture_us = us;
      infer_us = 0;
    } in
    let x = exit-set s i (popped res) waiting h in
    record {
      counted =
          omega
            (arith, v.counted, ap (total (job_weight one)) e, busy-set s i (popped res) waiting h);
      stops = omega (arith, v.stops, ap (total sentinel_weight) e, x);
      crew = length-set s.workers i (popped res) ∙ v.crew;
      phase = keeps s.main s _ refl refl (λ a. omega (arith, a, x)) v.phase;
    }

-- A result handed over.
hands_over :
    (i : ℕ) (w : Worker) (res : InferResult) (s : System)
    → get_elem? s.workers i ≡ some w
    → worker_weight one w ≡ 1
    → exit_weight w ≡ 0
    → IsPhased s
    → IsPhased (record s { workers = set s.workers i waiting; result_q = s.result_q ++ (res ∷ []) })
hands_over i w res s h b n v =
    let x = exit-set s i waiting w h in
    record {
      counted = omega (
        arith,
        v.counted,
        b,
        busy-set s i waiting w h,
        total-snoc (result_weight one) s.result_q res,
      );
      stops = omega (arith, v.stops, n, x);
      crew = length-set s.workers i waiting ∙ v.crew;
      phase = keeps s.main s _ refl refl (λ a. omega (arith, a, n, x)) v.phase;
    }

worker_at-IsPhased :
    (w : Option Worker) (i : ℕ) (group : DetectResultGroup) (us : ℕ) (s : System)
    → get_elem? s.workers i ≡ w
    → IsPhased s
    → IsPhased (worker_at w i group us s)
unfolding worker_at check_enabled finish
worker_at-IsPhased none i group us s h v = v
worker_at-IsPhased (some waiting) i group us s h v = take_job-IsPhased s.infer_q i s refl h v
worker_at-IsPhased (some (popped res)) i group us s h v =
    let x = exit-set s i (running res) (popped res) h in
    if-IsPhased s.state.inference_enabled _ _
      (λ _. record {
        counted = omega (arith, v.counted, busy-set s i (running res) (popped res) h);
        stops = omega (arith, v.stops, x);
        crew = length-set s.workers i (running res) ∙ v.crew;
        phase = keeps s.main s _ refl refl (λ a. omega (arith, a, x)) v.phase;
      })
      (λ _. hands_over i (popped res) res s h refl refl v)
worker_at-IsPhased (some (running res)) i group us s h v =
    hands_over i (running res) (record res { group = group; infer_us = us }) s h refl refl v
worker_at-IsPhased (some exited) i group us s h v = v

pub step-IsPhased : (e : Event) (s : System) → IsPhased s → IsPhased (step e s)
unfolding step main_step worker_step
step-IsPhased (main_runs o) s v = main_at-IsPhased s.main o s refl v
step-IsPhased (worker_runs i group us) s v =
    worker_at-IsPhased (get_elem? s.workers i) i group us s refl v
step-IsPhased (requests c) s v = record {
  counted = v.counted;
  stops = v.stops;
  crew = v.crew;
  phase = keeps s.main s _ refl refl (λ a. a) v.phase;
}

steps-IsPhased : (es : List Event) (s : System) → IsPhased s → IsPhased (run es s)
unfolding run
steps-IsPhased [] s v = v
steps-IsPhased (e ∷ es) s v = steps-IsPhased es (step e s) (step-IsPhased e s v)

-- In every schedule `in_flight` counts the frames under way, with three of them while the main
-- thread waits for a result and none in a blackout; each thread gets one sentinel; and outside
-- teardown and blackout the contexts are alive.
pub run-IsPhased : (es : List Event) → IsPhased (run es start)
unfolding start
run-IsPhased es =
    steps-IsPhased es start
      (record { counted = refl; stops = refl; crew = refl; phase = (refl, refl) })
