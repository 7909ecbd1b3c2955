-- ===== src/Pipeline/Handshake/Honest.antt =====
-- What the answers to blackout and resume promise.
use khadas_yolov8n_multithre.Prelude.{
  ℕ, ◌≡◌, ◌≢◌, refl, ◌⊎◌, inl, inr, Bool, true, false, some, List, [], get_elem?,
}
use khadas_yolov8n_multithre.Control.{YoloControlState}
use khadas_yolov8n_multithre.Pipeline.{
  run, InferResult, running, Main, fill, filling, top, awaiting, shown, draining, dark, reviving,
  resuming, closing, stopping, joining, ended, System, start,
}
use khadas_yolov8n_multithre.Pipeline.Phase.{IsPhased}
use khadas_yolov8n_multithre.Pipeline.Reach.{run-IsPhased}
use khadas_yolov8n_multithre.Pipeline.Progress.{alive-running}
use khadas_yolov8n_multithre.Pipeline.Handshake.{
  Handler, idle, in_blackout, in_resume, Controlled, controlled, sees, Move, moves,
}
use khadas_yolov8n_multithre.Pipeline.Handshake.Sound.{IsSound, moves-IsSound}
use khadas_yolov8n_multithre.Pipeline.Handshake.Flags.{Flags}

dark_at :
    (p : Main) (h : Handler) (s : YoloControlState) (alive : Bool)
    → h ≡ in_blackout
    → s.blackout_active ≡ true
    → Flags p h s alive
    → alive ≡ false
dark_at (fill n) h s alive e b (x, y, z) = absurd (cc (b, y))
dark_at (filling idx n) h s alive e b (x, y, z) = absurd (cc (b, y))
dark_at top h s alive e b (x, y, z) = absurd (cc (b, y))
dark_at (awaiting t) h s alive e b (x, y, z) = absurd (cc (b, y))
dark_at (shown t res) h s alive e b (x, y, z) = absurd (cc (b, y))
dark_at draining h s alive e b ((x, y, z), w) = absurd (cc (b, y))
dark_at dark h s alive e b (x, y, z) = x
dark_at reviving h s alive e b (x, y, z) = absurd (cc (e, z))
dark_at resuming h s alive e b (x, y) = absurd (cc (b, y))
dark_at closing h s alive e b (inl (x, y)) = absurd (cc (b, y))
dark_at closing h s alive e b (inr (x, y)) = x
dark_at (stopping n) h s alive e b (inl (x, y)) = absurd (cc (b, y))
dark_at (stopping n) h s alive e b (inr (x, y)) = x
dark_at joining h s alive e b (inl (x, y)) = absurd (cc (b, y))
dark_at joining h s alive e b (inr (x, y)) = x
dark_at ended h s alive e b x = x

lit_at :
    (p : Main) (h : Handler) (s : YoloControlState) (alive : Bool)
    → s.resume_done ≡ true
    → Flags p h s alive
    → (alive ≡ true) ⊎ (p ≡ ended)
lit_at (fill n) h s alive d (x, y, z) = inl x
lit_at (filling idx n) h s alive d (x, y, z) = inl x
lit_at top h s alive d (x, y, z) = inl x
lit_at (awaiting t) h s alive d (x, y, z) = inl x
lit_at (shown t res) h s alive d (x, y, z) = inl x
lit_at draining h s alive d ((x, y, z), w) = inl x
lit_at dark h s alive d (x, y, z) = absurd (cc (d, y))
lit_at reviving h s alive d (x, y, z) = inl x
lit_at resuming h s alive d (x, y) = inl x
lit_at closing h s alive d (inl (x, y)) = inl x
lit_at closing h s alive d (inr (x, y)) = absurd (cc (d, y))
lit_at (stopping n) h s alive d (inl (x, y)) = inl x
lit_at (stopping n) h s alive d (inr (x, y)) = absurd (cc (d, y))
lit_at joining h s alive d (inl (x, y)) = inl x
lit_at joining h s alive d (inr (x, y)) = absurd (cc (d, y))
lit_at ended h s alive d x = inr refl

not_running :
    (s : System) (i : ℕ) (res : InferResult)
    → IsPhased s
    → s.ctxs_alive ≡ false
    → get_elem? s.workers i ≢ some (running res)
not_running s i res v a h = let b = alive-running s i res v h in cc (a, b)

-- What a handler that sees its flag can rely on.
abbrev pub Promise : Controlled → Type 0
Promise c =
    ((c.handler ≡ in_blackout)
      × (c.system.ctxs_alive ≡ false)
      × ((i : ℕ) (res : InferResult) → get_elem? c.system.workers i ≢ some (running res)))
    ⊎ ((c.handler ≡ in_resume) × ((c.system.ctxs_alive ≡ true) ⊎ (c.system.main ≡ ended)))

Promise-at :
    (h : Handler) (c : Controlled)
    → c.handler ≡ h
    → c.late ≡ false
    → sees h c.system.state ≡ true
    → IsSound c
    → Promise c
unfolding sees
Promise-at idle c e l b v = absurd (cc b)
Promise-at in_blackout c e l b v =
    let gone : c.system.ctxs_alive ≡ false =
      dark_at c.system.main c.handler c.system.state c.system.ctxs_alive e b (v.kept l) in
    inl (e, gone, λ i res. not_running c.system i res v.phased gone)
Promise-at in_resume c e l b v =
    inr (e, lit_at c.system.main c.handler c.system.state c.system.ctxs_alive b (v.kept l))

-- In every schedule in which no resume has timed out: when the handler of a blackout sees its flag,
-- the contexts are destroyed and no inference thread is in RKNN; when the handler of a resume
-- sees its flag, there are contexts again, unless the main thread has ended.
pub moves-Promise :
    (ms : List Move)
    → let c = moves ms controlled in
      c.late ≡ false → sees c.handler c.system.state ≡ true → Promise c
unfolding start run
moves-Promise ms l b =
    let c = moves ms controlled in
    Promise-at c.handler c refl l b (
      moves-IsSound ms controlled
        (record { phased = run-IsPhased []; kept = λ _. (refl, refl, refl) }))
