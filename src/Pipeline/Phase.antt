-- ===== src/Pipeline/Phase.antt =====
-- How many frames are under way in each phase of the main thread, and what the phases rely on.
use khadas_yolov8n_multithre.Prelude.{
  ℕ, zero, suc, ◌+◌, ◌≤◌, ◌≡◌, refl, sym, ap, subst, ◌∙◌, ◌⊎◌, inl, inr, Bool, true, false, not,
  List, [], ◌∷◌, arith, ==→≡, ◌==◌, if◌then◌else◌, length,
}
use khadas_yolov8n_multithre.Pipeline.{
  InferJob, job, sentinel, InferResult, Worker, waiting, popped, running, exited, Main, fill,
  filling, top, awaiting, shown, draining, dark, reviving, resuming, closing, stopping, joining,
  ended, System, Outside, acquire, submit, loop_head, await_result, recycle, drain_round, drain,
  n_threads, wait_resume, handshake, clear_requests, stop_servers, stop, join, all_exited, main_at,
}
use khadas_yolov8n_multithre.Pipeline.Slots.{
  total, total-snoc, job_weight, result_weight, under_way,
}

-- One for each slot.
abbrev pub one : ℕ → ℕ
one i = 1

abbrev pub exit_weight : Worker → ℕ
exit_weight exited = 1
exit_weight _ = 0

abbrev pub sentinel_weight : InferJob → ℕ
sentinel_weight sentinel = 1
sentinel_weight _ = 0

-- sentinels still to push
abbrev pub to_stop : Main → ℕ
to_stop (stopping n) = n
to_stop joining = 0
to_stop ended = 0
to_stop _ = n_threads

-- What holds while the main thread is at a place.
abbrev pub Phase : Main → System → Type 0
Phase (fill n) s = (s.in_flight + n ≡ n_threads) × (s.ctxs_alive ≡ true)
Phase (filling idx n) s = (s.in_flight + n + 1 ≡ n_threads) × (s.ctxs_alive ≡ true)
Phase top s = (s.in_flight ≡ n_threads) × (s.ctxs_alive ≡ true)
Phase (awaiting t) s = (s.in_flight ≡ n_threads) × (s.ctxs_alive ≡ true)
Phase (shown t res) s = (s.in_flight + 1 ≡ n_threads) × (s.ctxs_alive ≡ true)
Phase draining s = (s.in_flight ≤ n_threads) × (s.ctxs_alive ≡ true)
Phase dark s = s.in_flight ≡ 0
Phase reviving s = (s.in_flight ≡ 0) × (s.ctxs_alive ≡ true)
Phase resuming s = (s.in_flight ≡ 0) × (s.ctxs_alive ≡ true)
Phase closing s = (s.ctxs_alive ≡ true) ⊎ (s.in_flight ≡ 0)
Phase (stopping n) s = (s.ctxs_alive ≡ true) ⊎ (s.in_flight ≡ 0)
Phase joining s = (s.ctxs_alive ≡ true) ⊎ (s.in_flight ≡ 0)
Phase ended s = total exit_weight s.workers ≡ n_threads

pub record IsPhased (s : System) : Type 0 where
  pub counted : under_way one s ≡ s.in_flight
  pub stops :
      total exit_weight s.workers + total sentinel_weight s.infer_q + to_stop s.main ≡ n_threads
  pub crew : length s.workers ≡ n_threads
  pub phase : Phase s.main s

pub if-IsPhased :
    (b : Bool) (x y : System)
    → (b ≡ true → IsPhased x)
    → (b ≡ false → IsPhased y)
    → IsPhased (if b then x else y)
if-IsPhased true x y h k = h refl
if-IsPhased false x y h k = k refl

acquire-IsPhased :
    (l : List ℕ) (n : ℕ) (s : System)
    → s.main ≡ fill (suc n)
    → IsPhased s
    → IsPhased (acquire l n s)
unfolding acquire
acquire-IsPhased [] n s e v = v
acquire-IsPhased (x ∷ xs) n s e v = record {
  counted = v.counted;
  stops = let m = ap to_stop e in omega (arith, v.stops, m);
  crew = v.crew;
  phase = let (a, b) = subst (λ p. Phase p s) e v.phase in (omega (arith, a), b);
}

submit-IsPhased :
    (o : Outside) (idx n : ℕ) (s : System)
    → s.main ≡ filling idx n
    → IsPhased s
    → IsPhased (submit o idx n s)
unfolding submit
submit-IsPhased o idx n s e v =
    let j : InferJob = job idx o.scale_w o.scale_h s.frame_counter o.now_us in
    record {
      counted = omega (arith, v.counted, total-snoc (job_weight one) s.infer_q j);
      stops =
          let m = ap to_stop e in omega (arith, v.stops, m, total-snoc sentinel_weight s.infer_q j);
      crew = v.crew;
      phase = let (a, b) = subst (λ p. Phase p s) e v.phase in (omega (arith, a), b);
    }

await_result-IsPhased :
    (l : List InferResult) (t : ℕ) (s : System)
    → s.result_q ≡ l
    → s.main ≡ awaiting t
    → IsPhased s
    → IsPhased (await_result l t s)
unfolding await_result
await_result-IsPhased [] t s q e v = v
await_result-IsPhased (x ∷ xs) t s q e v =
    let (a, b) = subst (λ p. Phase p s) e v.phase in
    record {
      counted = omega (arith, v.counted, ap (total (result_weight one)) q);
      stops = let m = ap to_stop e in omega (arith, v.stops, m);
      crew = v.crew;
      phase = (omega (arith, a), b);
    }

drain_round-IsPhased :
    (l : List InferResult) (s : System)
    → s.result_q ≡ l
    → s.main ≡ draining
    → IsPhased s
    → IsPhased (drain_round l s)
unfolding drain_round
drain_round-IsPhased [] s q e v = v
drain_round-IsPhased (x ∷ xs) s q e v =
    let (a, b) = subst (λ p. Phase p s) e v.phase in
    record {
      counted = omega (arith, v.counted, ap (total (result_weight one)) q);
      stops = v.stops;
      crew = v.crew;
      phase = subst (λ p. Phase p (drain_round (x ∷ xs) s)) (sym e) (omega (arith, a), b);
    }

stop-IsPhased : (n : ℕ) (s : System) → s.main ≡ stopping n → IsPhased s → IsPhased (stop n s)
unfolding stop
stop-IsPhased zero s e v = record {
  counted = v.counted;
  stops = let m = ap to_stop e in omega (arith, v.stops, m);
  crew = v.crew;
  phase = subst (λ p. Phase p s) e v.phase;
}
stop-IsPhased (suc n) s e v = record {
  counted = omega (arith, v.counted, total-snoc (job_weight one) s.infer_q sentinel);
  stops =
      let m = ap to_stop e in
      omega (arith, v.stops, m, total-snoc sentinel_weight s.infer_q sentinel);
  crew = v.crew;
  phase = subst (λ p. Phase p s) e v.phase;
}

-- A change of place that keeps the queues, the threads and the count.
moves :
    (s t : System)
    → IsPhased s
    → under_way one t ≡ under_way one s
    → t.in_flight ≡ s.in_flight
    → t.infer_q ≡ s.infer_q
    → t.workers ≡ s.workers
    → to_stop s.main ≡ to_stop t.main
    → Phase t.main t
    → IsPhased t
moves s t v u f q w m h = record {
  counted = u ∙ v.counted ∙ sym f;
  stops = omega (arith, v.stops, ap (total exit_weight) w, ap (total sentinel_weight) q, m);
  crew = ap length w ∙ v.crew;
  phase = h;
}

all_gone : (ws : List Worker) → all_exited ws ≡ true → total exit_weight ws ≡ length ws
unfolding all_exited
all_gone [] h = refl
all_gone (exited ∷ ws) h = omega (arith, all_gone ws h)
all_gone (waiting ∷ ws) h = absurd (cc h)
all_gone (popped r ∷ ws) h = absurd (cc h)
all_gone (running r ∷ ws) h = absurd (cc h)

pub main_at-IsPhased :
    (p : Main) (o : Outside) (s : System) → s.main ≡ p → IsPhased s → IsPhased (main_at p o s)
unfolding main_at loop_head recycle drain wait_resume handshake clear_requests stop_servers join
main_at-IsPhased (fill zero) o s e v =
    let (a, b) = subst (λ p. Phase p s) e v.phase in
    moves s _ v refl refl refl refl (ap to_stop e) (omega (arith, a), b)
main_at-IsPhased (fill (suc n)) o s e v = acquire-IsPhased s.free_list n s e v
main_at-IsPhased (filling idx n) o s e v = submit-IsPhased o idx n s e v
main_at-IsPhased top o s e v =
    let (a, b) = subst (λ p. Phase p s) e v.phase in
    if-IsPhased s.state.shutdown_requested _ _
      (λ _. moves s _ v refl refl refl refl (ap to_stop e) (inl b))
      (λ _.
        if-IsPhased s.state.blackout_requested _ _
          (λ _. moves s _ v refl refl refl refl (ap to_stop e) (omega (arith, a), b))
          (λ _. moves s _ v refl refl refl refl (ap to_stop e) (a, b)))
main_at-IsPhased (awaiting t) o s e v = await_result-IsPhased s.result_q t s refl e v
main_at-IsPhased (shown t res) o s e v =
    let (a, b) = subst (λ p. Phase p s) e v.phase in
    moves s _ v refl refl refl refl (ap to_stop e) (a, b)
main_at-IsPhased draining o s e v =
    if-IsPhased (s.in_flight == 0) _ _
      (λ z. moves s _ v refl refl refl refl (ap to_stop e) (==→≡ s.in_flight 0 z))
      (λ _. drain_round-IsPhased s.result_q s refl e v)
main_at-IsPhased dark o s e v =
    let a = subst (λ p. Phase p s) e v.phase in
    if-IsPhased s.state.shutdown_requested _ _
      (λ _. moves s _ v refl refl refl refl (ap to_stop e) (inr a))
      (λ _.
        if-IsPhased (not s.state.resume_requested) _ _ (λ _. v)
          (λ _.
            if-IsPhased (not o.init_ok) _ _
              (λ _. moves s _ v refl refl refl refl (ap to_stop e) (inr a))
              (λ _. moves s _ v refl refl refl refl (ap to_stop e) (a, refl))))
main_at-IsPhased reviving o s e v =
    let (a, b) = subst (λ p. Phase p s) e v.phase in
    moves s _ v refl refl refl refl (ap to_stop e) (a, b)
main_at-IsPhased resuming o s e v =
    let (a, b) = subst (λ p. Phase p s) e v.phase in
    moves s _ v refl refl refl refl (ap to_stop e) (omega (arith, a), b)
main_at-IsPhased closing o s e v =
    if-IsPhased o.servers_ended _ _
      (λ _. moves s _ v refl refl refl refl (ap to_stop e) (subst (λ p. Phase p s) e v.phase))
      (λ _. v)
main_at-IsPhased (stopping n) o s e v = stop-IsPhased n s e v
main_at-IsPhased joining o s e v =
    if-IsPhased (all_exited s.workers) _ _
      (λ g. moves s _ v refl refl refl refl (ap to_stop e) (all_gone s.workers g ∙ v.crew)) (λ _. v)
main_at-IsPhased ended o s e v = v
