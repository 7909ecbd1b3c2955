-- ===== src/Pipeline/Slots.antt =====
-- Where the slots of the buffer pool are.
use khadas_yolov8n_multithre.Prelude.{
  ℕ, zero, suc, ◌+◌, ◌≡◌, refl, ap, ◌∙◌, Option, none, some, List, [], ◌∷◌, ◌++◌, arith, ltb, ◌==◌,
  if◌then◌else◌, set, get_elem?, some-injective,
}
use khadas_yolov8n_multithre.Frames.{DetectResultGroup}
use khadas_yolov8n_multithre.Pipeline.{
  InferJob, job, sentinel, InferResult, Worker, waiting, popped, running, exited, Main, fill,
  filling, top, awaiting, shown, draining, dark, reviving, resuming, closing, stopping, joining,
  ended, System, start, Outside, acquire, submit, loop_head, await_result, recycle, drain_round,
  drain, n_buf, empty_group, wait_resume, handshake, clear_requests, stop_servers, stop, join,
  main_at, main_step, take_job, check_enabled, finish, worker_at, worker_step, Event, main_runs,
  worker_runs, requests, step, run,
}

-- The sum of a weight over a list.
abbrev pub total : {A : Type 0} → (A → ℕ) → List A → ℕ
total f [] = 0
total f (x ∷ xs) = f x + total f xs

pub total-snoc :
    {A : Type 0} → (f : A → ℕ) (xs : List A) (x : A) → total f (xs ++ (x ∷ [])) ≡ total f xs + f x
total-snoc f [] x = omega arith
total-snoc f (y ∷ xs) x = omega (arith, total-snoc f xs x)

pub total-set :
    {A : Type 0}
    → (f : A → ℕ) (xs : List A) (i : ℕ) (v w : A) → get_elem? xs i ≡ some w
    → total f (set xs i v) + f w ≡ total f xs + f v
total-set f [] i v w h = absurd (cc h)
total-set f (x ∷ xs) zero v w h = let e = ap f (some-injective _ _ h) in omega (arith, e)
total-set f (x ∷ xs) (suc i) v w h = omega (arith, total-set f xs i v w h)

-- What the holders of slots weigh, with a weight for each slot.
module _ (weight : ℕ → ℕ) where
  abbrev pub job_weight : InferJob → ℕ
  job_weight (job idx w h id us) = weight idx
  job_weight sentinel = 0

  abbrev pub result_weight : InferResult → ℕ
  result_weight res = weight res.buf_idx

  abbrev pub worker_weight : Worker → ℕ
  worker_weight waiting = 0
  worker_weight (popped res) = weight res.buf_idx
  worker_weight (running res) = weight res.buf_idx
  worker_weight exited = 0

  abbrev pub main_weight : Main → ℕ
  main_weight (filling idx n) = weight idx
  main_weight (shown t res) = weight res.buf_idx
  main_weight _ = 0

  -- jobs under way, from their submission to the `pop` of their result
  abbrev pub under_way : System → ℕ
  under_way s =
      total job_weight s.infer_q + total worker_weight s.workers + total result_weight s.result_q

  abbrev pub held : System → ℕ
  held s = total weight s.free_list + under_way s + main_weight s.main

  held-acquire :
      (l : List ℕ) (n : ℕ) (s : System)
      → s.free_list ≡ l
      → main_weight s.main ≡ 0
      → held (acquire l n s) ≡ held s
  unfolding acquire
  held-acquire [] n s e m = refl
  held-acquire (x ∷ xs) n s e m = omega (arith, m, ap (total weight) e)

  held-submit :
      (o : Outside) (idx n : ℕ) (s : System)
      → main_weight s.main ≡ weight idx
      → held (submit o idx n s) ≡ held s
  unfolding submit
  held-submit o idx n s m =
      let j : InferJob = job idx o.scale_w o.scale_h s.frame_counter o.now_us in
      omega (arith, m, total-snoc job_weight s.infer_q j)

  held-await_result :
      (l : List InferResult) (t : ℕ) (s : System)
      → s.result_q ≡ l
      → main_weight s.main ≡ 0
      → held (await_result l t s) ≡ held s
  unfolding await_result
  held-await_result [] t s e m = refl
  held-await_result (x ∷ xs) t s e m = omega (arith, m, ap (total result_weight) e)

  held-recycle :
      (t : ℕ) (res : InferResult) (s : System)
      → main_weight s.main ≡ weight res.buf_idx
      → held (recycle t res s) ≡ held s
  unfolding recycle
  held-recycle t res s m = omega (arith, m, total-snoc weight s.free_list res.buf_idx)

  held-drain_round :
      (l : List InferResult) (s : System) → s.result_q ≡ l → held (drain_round l s) ≡ held s
  unfolding drain_round
  held-drain_round [] s e = refl
  held-drain_round (x ∷ xs) s e =
      omega (arith, ap (total result_weight) e, total-snoc weight s.free_list x.buf_idx)

  held-stop : (n : ℕ) (s : System) → main_weight s.main ≡ 0 → held (stop n s) ≡ held s
  unfolding stop
  held-stop zero s m = omega (arith, m)
  held-stop (suc n) s m = omega (arith, m, total-snoc job_weight s.infer_q sentinel)

  held-main_at :
      (p : Main) (o : Outside) (s : System)
      → main_weight s.main ≡ main_weight p
      → held (main_at p o s) ≡ held s
  unfolding main_at loop_head drain wait_resume handshake clear_requests stop_servers join
  held-main_at (fill zero) o s m = omega (arith, m)
  held-main_at (fill (suc n)) o s m = held-acquire s.free_list n s refl m
  held-main_at (filling idx n) o s m = held-submit o idx n s m
  held-main_at top o s m = ground arith
  held-main_at (awaiting t) o s m = held-await_result s.result_q t s refl m
  held-main_at (shown t res) o s m = held-recycle t res s m
  held-main_at draining o s m = ground (arith, held-drain_round s.result_q s refl)
  held-main_at dark o s m = ground arith
  held-main_at reviving o s m = omega (arith, m)
  held-main_at resuming o s m = omega (arith, m)
  held-main_at closing o s m = ground arith
  held-main_at (stopping n) o s m = held-stop n s m
  held-main_at joining o s m = ground arith
  held-main_at ended o s m = refl

  held-set :
      (s : System) (i : ℕ) (v w : Worker)
      → get_elem? s.workers i ≡ some w
      → total worker_weight (set s.workers i v) + worker_weight w
        ≡ total worker_weight s.workers + worker_weight v
  held-set s i v w h = total-set worker_weight s.workers i v w h

  held-take_job :
      (l : List InferJob) (i : ℕ) (s : System)
      → s.infer_q ≡ l
      → get_elem? s.workers i ≡ some waiting
      → held (take_job l i s) ≡ held s
  unfolding take_job
  held-take_job [] i s e h = refl
  held-take_job (sentinel ∷ xs) i s e h =
      omega (arith, ap (total job_weight) e, held-set s i exited waiting h)
  held-take_job (job idx sw sh id us ∷ xs) i s e h =
      let res : InferResult = record {
        buf_idx = idx;
        group = empty_group;
        frame_id = id;
        capture_us = us;
        infer_us = 0;
      } in
      omega (arith, ap (total job_weight) e, held-set s i (popped res) waiting h)

  held-worker_at :
      (w : Option Worker) (i : ℕ) (group : DetectResultGroup) (us : ℕ) (s : System)
      → get_elem? s.workers i ≡ w
      → held (worker_at w i group us s) ≡ held s
  unfolding worker_at check_enabled finish
  held-worker_at none i group us s h = refl
  held-worker_at (some waiting) i group us s h = held-take_job s.infer_q i s refl h
  held-worker_at (some (popped res)) i group us s h =
      let a = held-set s i (running res) (popped res) h in
      let b = held-set s i waiting (popped res) h in
      let c = total-snoc result_weight s.result_q res in ground arith
  held-worker_at (some (running res)) i group us s h = omega (
    arith,
    held-set s i waiting (running res) h,
    total-snoc result_weight s.result_q (record res { group = group; infer_us = us }),
  )
  held-worker_at (some exited) i group us s h = refl

  held-step : (e : Event) (s : System) → held (step e s) ≡ held s
  unfolding step main_step worker_step
  held-step (main_runs o) s = held-main_at s.main o s refl
  held-step (worker_runs i group us) s = held-worker_at (get_elem? s.workers i) i group us s refl
  held-step (requests c) s = refl

  pub held-run : (es : List Event) (s : System) → held (run es s) ≡ held s
  unfolding run
  held-run [] s = refl
  held-run (e ∷ es) s = held-run es (step e s) ∙ held-step e s

-- Weighs one slot.
abbrev pub is_slot : ℕ → ℕ → ℕ
is_slot i j = if i == j then 1 else 0

-- In every schedule each slot of the pool is at exactly one place: on the free list, in a job, with
-- an inference thread, in a result or with the main thread. So no two threads use one buffer.
pub held-slot :
    (i : ℕ) (es : List Event) → held (is_slot i) (run es start) ≡ (if ltb i n_buf then 1 else 0)
unfolding start
held-slot i es = held-run (is_slot i) es start ∙ ground arith
