-- ===== src/Pipeline/Handshake/Flags.antt =====
-- What the flags of the handshake say at each place of the main thread.
use khadas_yolov8n_multithre.Prelude.{
  ℕ, zero, suc, ◌≡◌, refl, sym, subst, ◌∙◌, ◌⊎◌, inl, inr, Bool, true, false, not, Option, none,
  some, List, [], ◌∷◌, ◌==◌, if◌then◌else◌,
}
use khadas_yolov8n_multithre.Control.{YoloControlState}
use khadas_yolov8n_multithre.Frames.{DetectResultGroup}
use khadas_yolov8n_multithre.Pipeline.{
  InferJob, job, sentinel, InferResult, Worker, waiting, popped, running, exited, Main, fill,
  filling, top, awaiting, shown, draining, dark, reviving, resuming, closing, stopping, joining,
  ended, System, Outside, acquire, submit, loop_head, await_result, recycle, drain_round, drain,
  wait_resume, handshake, clear_requests, stop_servers, stop, join, all_exited, main_at, take_job,
  check_enabled, finish, worker_at,
}
use khadas_yolov8n_multithre.Pipeline.Handshake.{Handler, idle, in_resume}

-- No blackout is active, and no resume requested.
abbrev Bright : YoloControlState → Bool → Type 0
Bright s alive = (alive ≡ true) × (s.blackout_active ≡ false) × (s.resume_requested ≡ false)

-- What holds of the flags and the handler while the main thread is at a place.
abbrev pub Flags : Main → Handler → YoloControlState → Bool → Type 0
Flags (fill n) h s alive = Bright s alive
Flags (filling idx n) h s alive = Bright s alive
Flags top h s alive = Bright s alive
Flags (awaiting t) h s alive = Bright s alive
Flags (shown t res) h s alive = Bright s alive
Flags draining h s alive = Bright s alive × (s.resume_done ≡ false)
Flags dark h s alive =
    (alive ≡ false) × (s.resume_done ≡ false) × (s.resume_requested ≡ true → h ≡ in_resume)
Flags reviving h s alive = (alive ≡ true) × (s.resume_done ≡ false) × (h ≡ in_resume)
Flags resuming h s alive = (alive ≡ true) × (s.blackout_active ≡ false)
Flags closing h s alive =
    ((alive ≡ true) × (s.blackout_active ≡ false)) ⊎ ((alive ≡ false) × (s.resume_done ≡ false))
Flags (stopping n) h s alive =
    ((alive ≡ true) × (s.blackout_active ≡ false)) ⊎ ((alive ≡ false) × (s.resume_done ≡ false))
Flags joining h s alive =
    ((alive ≡ true) × (s.blackout_active ≡ false)) ⊎ ((alive ≡ false) × (s.resume_done ≡ false))
Flags ended h s alive = alive ≡ false

abbrev pub Kept : Handler → System → Type 0
Kept h s = Flags s.main h s.state s.ctxs_alive

if-Kept :
    (b : Bool) (h : Handler) (x y : System)
    → (b ≡ true → Kept h x)
    → (b ≡ false → Kept h y)
    → Kept h (if b then x else y)
if-Kept true h x y f g = f refl
if-Kept false h x y f g = g refl

not-false : (b : Bool) → not b ≡ false → b ≡ true
not-false true h = refl
not-false false h = absurd (cc h)

stay :
    (p : Main) (h : Handler) (s : System) → s.main ≡ p → Flags p h s.state s.ctxs_alive → Kept h s
stay p h s e k = subst (λ p. Flags p h s.state s.ctxs_alive) (sym e) k

acquire-Kept :
    (l : List ℕ) (n : ℕ) (h : Handler) (s : System)
    → s.main ≡ fill (suc n)
    → Bright s.state s.ctxs_alive
    → Kept h (acquire l n s)
unfolding acquire
acquire-Kept [] n h s e k = stay (fill (suc n)) h s e k
acquire-Kept (x ∷ xs) n h s e k = k

await-Kept :
    (l : List InferResult) (t : ℕ) (h : Handler) (s : System)
    → s.main ≡ awaiting t
    → Bright s.state s.ctxs_alive
    → Kept h (await_result l t s)
unfolding await_result
await-Kept [] t h s e k = stay (awaiting t) h s e k
await-Kept (x ∷ xs) t h s e k = k

drain-Kept : (l : List InferResult) (h : Handler) (s : System) → Kept h s → Kept h (drain_round l s)
unfolding drain_round
drain-Kept [] h s k = k
drain-Kept (x ∷ xs) h s k = k

stop-Kept :
    (n : ℕ) (h : Handler) (s : System)
    → Flags (stopping n) h s.state s.ctxs_alive
    → Kept h (stop n s)
unfolding stop
stop-Kept zero h s k = k
stop-Kept (suc n) h s k = k

pub main_at-Kept :
    (p : Main) (o : Outside) (h : Handler) (s : System)
    → s.main ≡ p
    → Flags p h s.state s.ctxs_alive
    → Kept h (main_at p o s)
unfolding main_at submit loop_head recycle drain wait_resume handshake clear_requests stop_servers
    join
main_at-Kept (fill zero) o h s e k = k
main_at-Kept (fill (suc n)) o h s e k = acquire-Kept s.free_list n h s e k
main_at-Kept (filling idx n) o h s e k = k
main_at-Kept top o h s e (a, b, r) =
    if-Kept s.state.shutdown_requested h _ _ (λ _. inl (a, b))
      (λ _. if-Kept s.state.blackout_requested h _ _ (λ _. ((a, refl, r), refl)) (λ _. (a, b, r)))
main_at-Kept (awaiting t) o h s e k = await-Kept s.result_q t h s e k
main_at-Kept (shown t res) o h s e k = k
main_at-Kept draining o h s e ((a, b, r), d) =
    if-Kept (s.in_flight == 0) h _ _ (λ _. (refl, d, λ q. absurd (cc (q, r))))
      (λ _. drain-Kept s.result_q h s (stay draining h s e ((a, b, r), d)))
main_at-Kept dark o h s e (a, d, r) =
    if-Kept s.state.shutdown_requested h _ _ (λ _. inr (a, d))
      (λ _.
        if-Kept (not s.state.resume_requested) h _ _ (λ _. stay dark h s e (a, d, r))
          (λ q.
            if-Kept (not o.init_ok) h _ _ (λ _. inr (a, d))
              (λ _. (refl, d, r (not-false s.state.resume_requested q)))))
main_at-Kept reviving o h s e (a, d, r) = (a, refl)
main_at-Kept resuming o h s e (a, b) = (a, b, refl)
main_at-Kept closing o h s e k = if-Kept o.servers_ended h _ _ (λ _. k) (λ _. stay closing h s e k)
main_at-Kept (stopping n) o h s e k = stop-Kept n h s k
main_at-Kept joining o h s e k =
    if-Kept (all_exited s.workers) h _ _ (λ _. refl) (λ _. stay joining h s e k)
main_at-Kept ended o h s e k = stay ended h s e k

-- The other threads leave the place, the flags and the contexts alone.
take_job-Kept :
    (l : List InferJob) (i : ℕ) (h : Handler) (s : System) → Kept h s → Kept h (take_job l i s)
unfolding take_job
take_job-Kept [] i h s k = k
take_job-Kept (sentinel ∷ xs) i h s k = k
take_job-Kept (job idx sw sh id us ∷ xs) i h s k = k

pub worker_at-Kept :
    (w : Option Worker) (i : ℕ) (group : DetectResultGroup) (us : ℕ) (h : Handler) (s : System)
    → Kept h s
    → Kept h (worker_at w i group us s)
unfolding worker_at check_enabled finish
worker_at-Kept none i group us h s k = k
worker_at-Kept (some waiting) i group us h s k = take_job-Kept s.infer_q i h s k
worker_at-Kept (some (popped res)) i group us h s k =
    if-Kept s.state.inference_enabled h _ _ (λ _. k) (λ _. k)
worker_at-Kept (some (running res)) i group us h s k = k
worker_at-Kept (some exited) i group us h s k = k

-- A request from an idle handler that leaves the three flags alone.
pub other_request :
    (p : Main) (h : Handler) (s t : YoloControlState) (alive : Bool)
    → t.blackout_active ≡ s.blackout_active
    → t.resume_requested ≡ s.resume_requested
    → t.resume_done ≡ s.resume_done
    → Flags p idle s alive
    → Flags p h t alive
other_request (fill n) h s t alive b r d (x, y, z) = (x, b ∙ y, r ∙ z)
other_request (filling idx n) h s t alive b r d (x, y, z) = (x, b ∙ y, r ∙ z)
other_request top h s t alive b r d (x, y, z) = (x, b ∙ y, r ∙ z)
other_request (awaiting u) h s t alive b r d (x, y, z) = (x, b ∙ y, r ∙ z)
other_request (shown u res) h s t alive b r d (x, y, z) = (x, b ∙ y, r ∙ z)
other_request draining h s t alive b r d ((x, y, z), w) = ((x, b ∙ y, r ∙ z), d ∙ w)
other_request dark h s t alive b r d (x, y, z) = (x, d ∙ y, λ q. absurd (cc (z (sym r ∙ q))))
other_request reviving h s t alive b r d (x, y, z) = absurd (cc z)
other_request resuming h s t alive b r d (x, y) = (x, b ∙ y)
other_request closing h s t alive b r d (inl (x, y)) = inl (x, b ∙ y)
other_request closing h s t alive b r d (inr (x, y)) = inr (x, d ∙ y)
other_request (stopping n) h s t alive b r d (inl (x, y)) = inl (x, b ∙ y)
other_request (stopping n) h s t alive b r d (inr (x, y)) = inr (x, d ∙ y)
other_request joining h s t alive b r d (inl (x, y)) = inl (x, b ∙ y)
other_request joining h s t alive b r d (inr (x, y)) = inr (x, d ∙ y)
other_request ended h s t alive b r d x = x

-- A resume that finds the blackout active.
pub resume_request :
    (p : Main) (s : YoloControlState) (alive : Bool)
    → s.blackout_active ≡ true
    → Flags p idle s alive
    → Flags p in_resume (record s { resume_requested = true }) alive
resume_request (fill n) s alive b (x, y, z) = absurd (cc (b, y))
resume_request (filling idx n) s alive b (x, y, z) = absurd (cc (b, y))
resume_request top s alive b (x, y, z) = absurd (cc (b, y))
resume_request (awaiting u) s alive b (x, y, z) = absurd (cc (b, y))
resume_request (shown u res) s alive b (x, y, z) = absurd (cc (b, y))
resume_request draining s alive b ((x, y, z), w) = absurd (cc (b, y))
resume_request dark s alive b (x, y, z) = (x, y, λ _. refl)
resume_request reviving s alive b (x, y, z) = (x, y, refl)
resume_request resuming s alive b (x, y) = (x, y)
resume_request closing s alive b k = k
resume_request (stopping n) s alive b k = k
resume_request joining s alive b k = k
resume_request ended s alive b x = x

-- A wait that has seen its flag, or of a blackout that gives up.
pub ends :
    (p : Main) (h : Handler) (s : YoloControlState) (alive : Bool)
    → (h ≡ in_resume → s.resume_done ≡ true)
    → Flags p h s alive
    → Flags p idle s alive
ends (fill n) h s alive d k = k
ends (filling idx n) h s alive d k = k
ends top h s alive d k = k
ends (awaiting u) h s alive d k = k
ends (shown u res) h s alive d k = k
ends draining h s alive d k = k
ends dark h s alive d (x, y, z) = (x, y, λ q. absurd (cc (d (z q), y)))
ends reviving h s alive d (x, y, z) = absurd (cc (d z, y))
ends resuming h s alive d k = k
ends closing h s alive d k = k
ends (stopping n) h s alive d k = k
ends joining h s alive d k = k
ends ended h s alive d k = k
