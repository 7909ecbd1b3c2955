-- ===== src/Pipeline/Progress.antt =====
-- What every schedule keeps to: contexts in use are alive, and the main thread never waits in vain.
use khadas_yolov8n_multithre.Prelude.{
  ℕ, zero, suc, ◌+◌, ◌≤◌, ◌<◌, ◌≡◌, ◌≢◌, refl, ap, subst, ◌⊎◌, inl, inr, Bool, true, false, not,
  ◌&&◌, some, some-injective, List, [], ◌∷◌, arith, ◌==◌, length, get_elem?,
}
use native.Mathlib.Decide.{ℕ_discrete}
use khadas_yolov8n_multithre.Pipeline.{
  InferResult, Worker, waiting, popped, running, exited, Main, fill, filling, top, awaiting, shown,
  draining, dark, reviving, resuming, closing, stopping, joining, ended, System, start, n_threads,
  n_buf, all_exited, Event, run,
}
use khadas_yolov8n_multithre.Pipeline.Slots.{
  total, job_weight, result_weight, worker_weight, main_weight, held, held-run,
}
use khadas_yolov8n_multithre.Pipeline.Phase.{
  one, exit_weight, sentinel_weight, to_stop, Phase, IsPhased,
}
use khadas_yolov8n_multithre.Pipeline.Reach.{run-IsPhased, exit_most}

busy_exit : (ws : List Worker) → total (worker_weight one) ws + total exit_weight ws ≤ length ws
busy_exit [] = omega arith
busy_exit (waiting ∷ ws) = omega (arith, busy_exit ws)
busy_exit (popped r ∷ ws) = omega (arith, busy_exit ws)
busy_exit (running r ∷ ws) = omega (arith, busy_exit ws)
busy_exit (exited ∷ ws) = omega (arith, busy_exit ws)

busy_at :
    (ws : List Worker) (i : ℕ) (res : InferResult)
    → get_elem? ws i ≡ some (running res)
    → 1 ≤ total (worker_weight one) ws
busy_at [] i res h = absurd (cc h)
busy_at (w ∷ ws) zero res h =
    let e = ap (worker_weight one) (some-injective _ _ h) in omega (arith, e)
busy_at (w ∷ ws) (suc i) res h = omega (arith, busy_at ws i res h)

alive_or_idle :
    (p : Main) (s : System)
    → Phase p s
    → (s.ctxs_alive ≡ true) ⊎ ((s.in_flight ≡ 0) ⊎ (total exit_weight s.workers ≡ n_threads))
alive_or_idle (fill n) s (a, b) = inl b
alive_or_idle (filling idx n) s (a, b) = inl b
alive_or_idle top s (a, b) = inl b
alive_or_idle (awaiting t) s (a, b) = inl b
alive_or_idle (shown t res) s (a, b) = inl b
alive_or_idle draining s (a, b) = inl b
alive_or_idle dark s a = inr (inl a)
alive_or_idle reviving s (a, b) = inl b
alive_or_idle resuming s (a, b) = inl b
alive_or_idle closing s (inl b) = inl b
alive_or_idle closing s (inr a) = inr (inl a)
alive_or_idle (stopping n) s (inl b) = inl b
alive_or_idle (stopping n) s (inr a) = inr (inl a)
alive_or_idle joining s (inl b) = inl b
alive_or_idle joining s (inr a) = inr (inl a)
alive_or_idle ended s a = inr (inr a)

pub alive-running :
    (s : System) (i : ℕ) (res : InferResult)
    → IsPhased s
    → get_elem? s.workers i ≡ some (running res)
    → s.ctxs_alive ≡ true
alive-running s i res v h = elim (alive_or_idle s.main s v.phase) [
  | inl b ↦ b
  | inr (inl a) ↦ absurd (omega (arith, a, v.counted, busy_at s.workers i res h))
  | inr (inr a) ↦ absurd (omega (arith, a, v.crew, busy_exit s.workers, busy_at s.workers i res h))
]

-- In every schedule, requests at any time included: while a thread is in RKNN with a frame, the
-- contexts have not been destroyed.
pub running-alive :
    (es : List Event) (i : ℕ) (res : InferResult)
    → get_elem? (run es start).workers i ≡ some (running res)
    → (run es start).ctxs_alive ≡ true
running-alive es i res h = alive-running (run es start) i res (run-IsPhased es) h

-- The main thread is in a call that waits: an empty pool, an empty result queue, or a join.
is_empty : {A : Type 0} → List A → Bool
is_empty [] = true
is_empty (x ∷ xs) = false

blocked_at : Main → System → Bool
unfolding is_empty
blocked_at (fill (suc n)) s = is_empty s.free_list
blocked_at (awaiting t) s = is_empty s.result_q
blocked_at draining s = not (s.in_flight == 0) && is_empty s.result_q
blocked_at joining s = not (all_exited s.workers)
blocked_at _ s = false

unfoldable pub blocked : System → Bool
unfolding blocked_at
blocked s = blocked_at s.main s

-- Thread `i` can go on.
abbrev pub Ready : System → ℕ → Type 0
Ready s i =
    ((res : InferResult) × (get_elem? s.workers i ≡ some (popped res)))
    ⊎ (((res : InferResult) × (get_elem? s.workers i ≡ some (running res)))
        ⊎ ((get_elem? s.workers i ≡ some waiting) × (s.infer_q ≢ [])))

is_empty→≡ : {A : Type 0} → (xs : List A) → is_empty xs ≡ true → xs ≡ []
unfolding is_empty
is_empty→≡ [] h = refl
is_empty→≡ (x ∷ xs) h = absurd (cc h)

-- A thread with a frame, or a waiting one.
abbrev Busy : List Worker → ℕ → Type 0
Busy ws i =
    ((res : InferResult) × (get_elem? ws i ≡ some (popped res)))
    ⊎ ((res : InferResult) × (get_elem? ws i ≡ some (running res)))

find-Busy : (ws : List Worker) → 1 ≤ total (worker_weight one) ws → (i : ℕ) × Busy ws i
find-Busy [] h = absurd (omega arith)
find-Busy (waiting ∷ ws) h = let (i, b) = find-Busy ws (omega arith) in (suc i, b)
find-Busy (popped r ∷ ws) h = (0, inl (r, refl))
find-Busy (running r ∷ ws) h = (0, inr (r, refl))
find-Busy (exited ∷ ws) h = let (i, b) = find-Busy ws (omega arith) in (suc i, b)

find_waiting :
    (ws : List Worker)
    → total (worker_weight one) ws ≡ 0
    → total exit_weight ws < length ws
    → (i : ℕ) × (get_elem? ws i ≡ some waiting)
find_waiting [] h k = absurd (omega arith)
find_waiting (waiting ∷ ws) h k = (0, refl)
find_waiting (popped r ∷ ws) h k = absurd (omega arith)
find_waiting (running r ∷ ws) h k = absurd (omega arith)
find_waiting (exited ∷ ws) h k =
    let (i, e) = find_waiting ws (omega arith) (omega arith) in (suc i, e)

Ready-of_Busy : (s : System) → (i : ℕ) × Busy s.workers i → (i : ℕ) × Ready s i
Ready-of_Busy s (i, inl b) = (i, inl b)
Ready-of_Busy s (i, inr b) = (i, inr (inl b))

one-Ready :
    (s : System)
    → IsPhased s
    → total exit_weight s.workers < n_threads
    → (total (worker_weight one) s.workers ≡ 0 → s.infer_q ≢ [])
    → (i : ℕ) × Ready s i
one-Ready s v h q = elim (ℕ_discrete (total (worker_weight one) s.workers) 0) [
  | yes z ↦
      let (i, w) = find_waiting s.workers z (omega (arith, h, v.crew)) in (i, inr (inr (w, q z)))
  | no b ↦ Ready-of_Busy s (find-Busy s.workers (omega (arith, b)))
]

not_all_gone : (ws : List Worker) → all_exited ws ≡ false → total exit_weight ws < length ws
unfolding all_exited
not_all_gone [] h = absurd (cc h)
not_all_gone (exited ∷ ws) h = omega (arith, not_all_gone ws h)
not_all_gone (waiting ∷ ws) h = omega (arith, exit_most ws)
not_all_gone (popped r ∷ ws) h = omega (arith, exit_most ws)
not_all_gone (running r ∷ ws) h = omega (arith, exit_most ws)

-- Frames under way and no result yet: a job or a busy thread.
one_working :
    (s : System)
    → IsPhased s
    → to_stop s.main ≡ n_threads
    → s.result_q ≡ []
    → 1 ≤ s.in_flight
    → (i : ℕ) × Ready s i
one_working s v m r f =
    let none_left = ap (total (result_weight one)) r in
    one-Ready s v (omega (arith, v.stops, m)) (λ z e.
      let no_job = ap (total (job_weight one)) e in
      omega (arith, v.counted, none_left, no_job, z, f))

not-true : (b : Bool) → not b ≡ true → b ≡ false
not-true true h = absurd (cc h)
not-true false h = refl

both_true : (a b : Bool) → (a && b) ≡ true → (a ≡ true) × (b ≡ true)
both_true true b h = (refl, h)
both_true false b h = absurd (cc h)

not_zero : (n : ℕ) → (n == 0) ≡ false → 1 ≤ n
not_zero n h = ground arith

no_free_wait :
    (n : ℕ) (s : System)
    → s.main ≡ fill (suc n)
    → held one s ≡ n_buf
    → IsPhased s
    → s.free_list ≢ []
no_free_wait n s e k v free =
    let (a, _) = subst (λ p. Phase p s) e v.phase in
    omega (arith, a, ap (total one) free, ap (main_weight one) e, k, v.counted)

progress_at :
    (p : Main) (s : System)
    → s.main ≡ p
    → held one s ≡ n_buf
    → IsPhased s
    → blocked_at p s ≡ true
    → (i : ℕ) × Ready s i
unfolding blocked_at
progress_at (fill zero) s e k v b = absurd (cc b)
progress_at (fill (suc n)) s e k v b = absurd (no_free_wait n s e k v (is_empty→≡ s.free_list b))
progress_at (awaiting t) s e k v b =
    let (a, _) = subst (λ p. Phase p s) e v.phase in
    one_working s v (ap to_stop e) (is_empty→≡ s.result_q b) (omega (arith, a))
progress_at draining s e k v b =
    let (some_left, no_result) = both_true _ _ b in
    one_working s v (ap to_stop e) (is_empty→≡ s.result_q no_result)
      (not_zero s.in_flight (not-true _ some_left))
progress_at joining s e k v b =
    let gone : total exit_weight s.workers < length s.workers =
      not_all_gone s.workers (not-true _ b) in
    let m = ap to_stop e in
    one-Ready s v (omega (arith, gone, v.crew)) (λ z e'.
      let none_left = ap (total sentinel_weight) e' in
      omega (arith, v.stops, m, none_left, gone, v.crew))
progress_at (filling idx n) s e k v b = absurd (cc b)
progress_at top s e k v b = absurd (cc b)
progress_at (shown t res) s e k v b = absurd (cc b)
progress_at dark s e k v b = absurd (cc b)
progress_at reviving s e k v b = absurd (cc b)
progress_at resuming s e k v b = absurd (cc b)
progress_at closing s e k v b = absurd (cc b)
progress_at (stopping n) s e k v b = absurd (cc b)
progress_at ended s e k v b = absurd (cc b)

-- No deadlock: in every schedule, when the main thread is about to capture a frame, a slot is free;
-- and when it waits for a result or for the inference threads to return, some inference thread
-- can go on. Its waits for the server threads, the camera and a resume are not meant.
pub blocked-Ready :
    (es : List Event)
    → ((n : ℕ) → (run es start).main ≡ fill (suc n) → (run es start).free_list ≢ [])
      × (blocked (run es start) ≡ true → (i : ℕ) × Ready (run es start) i)
unfolding blocked start
blocked-Ready es = (
  λ n e. no_free_wait n (run es start) e (held-run one es start) (run-IsPhased es),
  progress_at (run es start).main (run es start) refl (held-run one es start) (run-IsPhased es),
)
