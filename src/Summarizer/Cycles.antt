-- ===== src/Summarizer/Cycles.antt =====
-- The commands and the runs of the model over the rounds of the summarizer.
use khadas_yolov8n_multithre.Prelude.{
  ℕ, suc, ◌≡◌, Bool, true, false, not, ◌&&◌, ◌||◌, List, [], ◌∷◌, ◌++◌, map, ◌==◌, if◌then◌else◌,
}
use khadas_yolov8n_multithre.Prelude.Float.{Float32}
use khadas_yolov8n_multithre.Summarizer.{
  Config, Action, send_blackout, snapshot, run_qwen, send_resume, Tick, Machine, tick,
}

-- All that the machine does over some rounds.
unfoldable pub actions : (fl : Float32) → Config → List Tick → Machine fl.F → List Action
actions fl c [] m = []
actions fl c (x ∷ xs) m = let (next, done) = tick fl c x m in done ++ actions fl c xs next

abbrev pub among : ℕ → List ℕ → Bool
among d [] = false
among d (e ∷ es) = d == e || among d es

-- Which devices have been sent a blackout last.
abbrev Dark : Type 0
Dark = ℕ → Bool

-- Of the commands that are sent: where the model runs all devices have a blackout last, and at the
-- end none has.
abbrev IsSafe : List ℕ → Dark → List Action → Type 0
IsSafe ds w [] = (d : ℕ) → w d ≡ false
IsSafe ds w (send_blackout e ∷ rest) = IsSafe ds (λ d. d == e || w d) rest
IsSafe ds w (snapshot n ∷ rest) = IsSafe ds w rest
IsSafe ds w (run_qwen ∷ rest) = ((d : ℕ) → among d ds ≡ true → w d ≡ true) × IsSafe ds w rest
IsSafe ds w (send_resume e ∷ rest) = IsSafe ds (λ d. not (d == e) && w d) rest

-- The actions of a cycle with control.
abbrev cycle_of : List ℕ → ℕ → List Action → List Action
cycle_of ds n runs = map send_blackout ds ++ ((snapshot n ∷ runs) ++ map send_resume ds)

-- What becomes of one device: `works` says of each command, in order, whether `send_control` brought
-- it to its device and the device carried it out, and `dark` whether the device is in a blackout.
-- Where the model runs the device is dark, and at the end it is not.
abbrev pub IsDark : (ℕ → Bool) → ℕ → ℕ → Bool → List Action → Type 0
IsDark works d i dark [] = dark ≡ false
IsDark works d i dark (send_blackout e ∷ rest) =
    IsDark works d (suc i) (if d == e && works i then true else dark) rest
IsDark works d i dark (snapshot n ∷ rest) = IsDark works d i dark rest
IsDark works d i dark (run_qwen ∷ rest) = (dark ≡ true) × IsDark works d i dark rest
IsDark works d i dark (send_resume e ∷ rest) =
    IsDark works d (suc i) (if d == e && works i then false else dark) rest

-- Every command to this device works; those to others need not.
abbrev pub AllWork : (ℕ → Bool) → ℕ → ℕ → List Action → Type 0
AllWork works d i [] = Unit {0}
AllWork works d i (send_blackout e ∷ rest) =
    ((d == e) ≡ true → works i ≡ true) × AllWork works d (suc i) rest
AllWork works d i (snapshot n ∷ rest) = AllWork works d i rest
AllWork works d i (run_qwen ∷ rest) = AllWork works d i rest
AllWork works d i (send_resume e ∷ rest) =
    ((d == e) ≡ true → works i ≡ true) × AllWork works d (suc i) rest
