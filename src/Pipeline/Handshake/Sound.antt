-- ===== src/Pipeline/Handshake/Sound.antt =====
-- Every move of the handshake keeps to its flags.
use khadas_yolov8n_multithre.Prelude.{
  ◌≡◌, ◌≢◌, refl, subst, Bool, true, false, none, some, List, [], ◌∷◌, if◌then◌else◌, get_elem?,
}
use khadas_yolov8n_multithre.Control.{
  YoloControlState, Command, pause_yolo, resume_yolo, get_status, set_dump_enabled, shutdown,
  blackout, resume, unknown, request,
}
use khadas_yolov8n_multithre.Pipeline.{
  System, main_step, worker_step, main_runs, worker_runs, requests, step,
}
use khadas_yolov8n_multithre.Pipeline.Phase.{IsPhased}
use khadas_yolov8n_multithre.Pipeline.Reach.{step-IsPhased}
use khadas_yolov8n_multithre.Pipeline.Handshake.{
  Handler, idle, in_blackout, in_resume, Controlled, waits_for, begin_at, sees, is_resume, Move,
  main_moves, worker_moves, begins, wakes, gives_up, move, moves,
}
use khadas_yolov8n_multithre.Pipeline.Handshake.Flags.{
  Kept, main_at-Kept, worker_at-Kept, other_request, resume_request, ends,
}

pub record IsSound (c : Controlled) : Type 0 where
  pub phased : IsPhased c.system
  pub kept : c.late ≡ false → Kept c.handler c.system

resume_if :
    (b : Bool) (s : System)
    → s.state.blackout_active ≡ b
    → Kept idle s
    → Kept
        (if b then in_resume else idle)
        (record s { state = if b then record (s.state) { resume_requested = true } else s.state })
resume_if true s e k = resume_request s.main s.state s.ctxs_alive e k
resume_if false s e k = k

request-Kept :
    (c : Command) (s : System) → Kept idle s → Kept (waits_for c s.state) (step (requests c) s)
unfolding waits_for step request
request-Kept pause_yolo s k = other_request s.main idle s.state _ s.ctxs_alive refl refl refl k
request-Kept resume_yolo s k = other_request s.main idle s.state _ s.ctxs_alive refl refl refl k
request-Kept get_status s k = k
request-Kept (set_dump_enabled none) s k = k
request-Kept (set_dump_enabled (some b)) s k =
    other_request s.main idle s.state _ s.ctxs_alive refl refl refl k
request-Kept shutdown s k = other_request s.main idle s.state _ s.ctxs_alive refl refl refl k
request-Kept blackout s k = other_request s.main in_blackout s.state _ s.ctxs_alive refl refl refl k
request-Kept resume s k = resume_if s.state.blackout_active s refl k
request-Kept unknown s k = k

begin-IsSound :
    (h : Handler) (c : Command) (s : Controlled)
    → s.handler ≡ h
    → IsSound s
    → IsSound (begin_at h c s)
unfolding begin_at
begin-IsSound idle c s e v = record {
  phased = step-IsPhased (requests c) s.system v.phased;
  kept = λ l. request-Kept c s.system (subst (λ h. Kept h s.system) e (v.kept l));
}
begin-IsSound in_blackout c s e v = v
begin-IsSound in_resume c s e v = v

-- A wait that has ended.
ended_wait :
    (s : Controlled)
    → (s.handler ≡ in_resume → s.system.state.resume_done ≡ true)
    → IsSound s
    → IsSound (record s { handler = idle })
ended_wait s d v = record {
  phased = v.phased;
  kept = λ l. ends s.system.main s.handler s.system.state s.system.ctxs_alive d (v.kept l);
}

if-IsSound :
    (b : Bool) (x y : Controlled)
    → (b ≡ true → IsSound x)
    → (b ≡ false → IsSound y)
    → IsSound (if b then x else y)
if-IsSound true x y f g = f refl
if-IsSound false x y f g = g refl

seen_done :
    (h : Handler) (s : YoloControlState) → sees h s ≡ true → h ≡ in_resume → s.resume_done ≡ true
unfolding sees
seen_done idle s e h = absurd (cc h)
seen_done in_blackout s e h = absurd (cc h)
seen_done in_resume s e h = e

not_resume : (h : Handler) → is_resume h ≡ false → h ≢ in_resume
unfolding is_resume
not_resume idle e h = cc h
not_resume in_blackout e h = cc h
not_resume in_resume e h = cc e

move-IsSound : (m : Move) (s : Controlled) → IsSound s → IsSound (move m s)
unfolding move step main_step worker_step
move-IsSound (main_moves o) s v = record {
  phased = step-IsPhased (main_runs o) s.system v.phased;
  kept = λ l. main_at-Kept s.system.main o s.handler s.system refl (v.kept l);
}
move-IsSound (worker_moves i group us) s v = record {
  phased = step-IsPhased (worker_runs i group us) s.system v.phased;
  kept =
      λ l. worker_at-Kept (get_elem? s.system.workers i) i group us s.handler s.system (v.kept l);
}
move-IsSound (begins c) s v = begin-IsSound s.handler c s refl v
move-IsSound wakes s v =
    if-IsSound (sees s.handler s.system.state) _ _
      (λ e. ended_wait s (seen_done s.handler s.system.state e) v) (λ _. v)
move-IsSound gives_up s v =
    if-IsSound (sees s.handler s.system.state) _ _ (λ _. v)
      (λ _.
        if-IsSound (is_resume s.handler) _ _
          (λ _. record { phased = v.phased; kept = λ l. absurd (cc l) })
          (λ e. ended_wait s (λ h. absurd (not_resume s.handler e h)) v))

pub moves-IsSound : (ms : List Move) (s : Controlled) → IsSound s → IsSound (moves ms s)
unfolding moves
moves-IsSound [] s v = v
moves-IsSound (m ∷ ms) s v = moves-IsSound ms (move m s) (move-IsSound m s v)
