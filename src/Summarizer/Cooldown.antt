-- ===== src/Summarizer/Cooldown.antt =====
-- When the LLM cycle runs.
use khadas_yolov8n_multithre.Prelude.{
  ℕ, ◌+◌, ◌-◌, ◌≤◌, ◌<◌, ◌≡◌, ◌≢◌, refl, sym, subst, Bool, true, false, List, [], ◌∷◌, ◌++◌, arith,
  leb, leb→le, if-cases, if◌then◌else◌,
}
use khadas_yolov8n_multithre.Prelude.Float.{Float32}
use khadas_yolov8n_multithre.Prelude.Words.{sub64, u64_mod}
use khadas_yolov8n_multithre.Summarizer.{
  State, no_drone, drone_present, cooldown, llm_window, Config, Action, Received, frame, timeout,
  Tick, Machine, any_drone, receive, switch, new_machine, window, tick, run,
}

-- A round that got a frame with a live drone.
pub sees_drone : Config → Received → Bool
sees_drone c (frame ss) = any_drone c ss
sees_drone c timeout = false

-- The time of the last such round, `l` before the first.
abbrev pub last_drone : Config → ℕ → List Tick → ℕ
last_drone c l [] = l
last_drone c l (x ∷ xs) = last_drone c (if sees_drone c x.received then x.now_ms else l) xs

-- The clock does not go back, and fits its type.
abbrev pub Clocked : ℕ → List Tick → Type 0
Clocked now [] = Unit {0}
Clocked now (x ∷ xs) = (now ≤ x.now_ms) × ((x.now_ms < u64_mod) × Clocked x.now_ms xs)

module _ (fl : Float32) (c : Config) where
  open fl use {F}

  abbrev At : State → Machine F → ℕ → ℕ → Type 0
  At no_drone m l now = l ≤ now
  At drone_present m l now = l ≤ now
  At cooldown m l now = (l ≤ m.departed_ms) × (m.departed_ms ≤ now)
  At llm_window m l now = 1 ≤ 0

  abbrev Outcome : ℕ → ℕ → Machine F × List Action → Type 0
  Outcome l t r = At r.0.state r.0 l t × (r.1 ≢ [] → l + c.cooldown_ms ≤ t)

  quiet : {A : Type 0} → (◌≢◌ {A = List Action} [] []) → A
  quiet n = absurd (n refl)

  long_enough :
      (t d : ℕ) → d ≤ t → t < u64_mod → leb c.cooldown_ms (sub64 t d) ≡ true → d + c.cooldown_ms ≤ t
  long_enough t d h k e =
      let far = leb→le c.cooldown_ms (sub64 t d) e in
      let exact : sub64 t d ≡ t - d = omega arith in omega (arith, far, exact)

  -- A round that does not move the machine.
  stays :
      (p : State) (g : Machine F) (l t : ℕ) (w : Bool)
      → g.state ≡ p
      → At p g l t
      → Outcome l t (window fl g.state c w g)
  unfolding window
  stays no_drone g l t w e a =
      subst (λ q. Outcome l t (window fl q c w g)) (sym e)
        (subst (λ q. At q g l t) (sym e) a, λ n. quiet n)
  stays drone_present g l t w e a =
      subst (λ q. Outcome l t (window fl q c w g)) (sym e)
        (subst (λ q. At q g l t) (sym e) a, λ n. quiet n)
  stays cooldown g l t w e a =
      subst (λ q. Outcome l t (window fl q c w g)) (sym e)
        (subst (λ q. At q g l t) (sym e) a, λ n. quiet n)
  stays llm_window g l t w e a = absurd (omega (arith, a))

  switch-Outcome :
      (p : State) (g : Machine F) (l l' now t : ℕ) (w : Bool)
      → g.state ≡ p
      → At p g l now
      → (g.present ≡ false → l' ≡ l)
      → l' ≤ t
      → now ≤ t
      → t < u64_mod
      → Outcome l' t (window fl (switch fl p c t g).state c w (switch fl p c t g))
  unfolding switch window
  switch-Outcome no_drone g l l' now t w e a same le_t k fits =
      if-cases (λ (m : Machine F). Outcome l' t (window fl m.state c w m)) g.present _ _
        (λ _. (le_t, λ n. quiet n)) (λ _. stays no_drone g l' t w e le_t)
  switch-Outcome drone_present g l l' now t w e a same le_t k fits =
      if-cases (λ (m : Machine F). Outcome l' t (window fl m.state c w m)) g.present _ _
        (λ _. stays drone_present g l' t w e le_t) (λ _. ((le_t, omega arith), λ n. quiet n))
  switch-Outcome cooldown g l l' now t w e a same le_t k fits =
      if-cases (λ (m : Machine F). Outcome l' t (window fl m.state c w m)) g.present _ _
        (λ _. (le_t, λ n. quiet n))
        (λ absent.
          if-cases (λ (m : Machine F). Outcome l' t (window fl m.state c w m))
            (leb c.cooldown_ms (sub64 t g.departed_ms)) _ _
            (λ late.
              let gone = long_enough t g.departed_ms (omega (arith, a.1, k)) fits late in
              (le_t, λ n. omega (arith, a.0, same absent, gone)))
            (λ early.
              stays cooldown g l' t w e (omega (arith, a.0, same absent), omega (arith, a.1, k))))
  switch-Outcome llm_window g l l' now t w e a same le_t k fits = absurd (omega (arith, a))

  tick-Outcome :
      (x : Tick) (m : Machine F) (l now : ℕ)
      → At m.state m l now
      → l ≤ now
      → now ≤ x.now_ms
      → x.now_ms < u64_mod
      → Outcome (if sees_drone c x.received then x.now_ms else l) x.now_ms (tick fl c x m)
  unfolding tick receive sees_drone
  tick-Outcome x m l now a older k fits = by_kind x.received
    where
      by_kind :
          (r : Received)
          → Outcome (if sees_drone c r then x.now_ms else l) x.now_ms (
              let got = receive fl c r m in
              let moved = switch fl got.state c x.now_ms got in
              window fl moved.state c x.writes moved)
      by_kind timeout =
          switch-Outcome m.state m l l now x.now_ms x.writes refl a (λ _. refl) (omega arith) k fits
      by_kind (frame ss) =
          switch-Outcome m.state (receive fl c (frame ss) m) l _ now x.now_ms x.writes refl
            (same_at m.state a)
            (λ absent.
              if-cases (λ (n : ℕ). n ≡ l) (any_drone c ss) x.now_ms l
                (λ seen. absurd (cc (absent, seen))) (λ _. refl))
            (if-cases (λ (n : ℕ). n ≤ x.now_ms) (any_drone c ss) x.now_ms l (λ _. omega arith)
              (λ _. omega arith))
            k fits
        where
          same_at : (p : State) → At p m l now → At p (receive fl c (frame ss) m) l now
          same_at no_drone b = b
          same_at drone_present b = b
          same_at cooldown b = b
          same_at llm_window b = b

  last-le :
      (x : Tick) (l : ℕ)
      → l ≤ x.now_ms
      → (if sees_drone c x.received then x.now_ms else l) ≤ x.now_ms
  last-le x l h =
      if-cases (λ (n : ℕ). n ≤ x.now_ms) (sees_drone c x.received) x.now_ms l (λ _. omega arith)
        (λ _. h)

  run-Outcome :
      (xs : List Tick) (x : Tick) (m : Machine F) (l now : ℕ)
      → At m.state m l now
      → l ≤ now
      → Clocked now (xs ++ (x ∷ []))
      → (tick fl c x (run fl c xs m)).1 ≢ []
      → last_drone c l (xs ++ (x ∷ [])) + c.cooldown_ms ≤ x.now_ms
  unfolding run
  run-Outcome [] x m l now a older (k, rest) acts = (tick-Outcome x m l now a older k rest.0).1 acts
  run-Outcome (y ∷ xs) x m l now a older (k, rest) acts =
      run-Outcome xs x (tick fl c y m).0 _ y.now_ms (tick-Outcome y m l now a older k rest.0).0
        (last-le y l (omega arith)) rest.1 acts

  -- In every run of the state machine, with a clock that does not go back, a round that takes the
  -- cameras and runs the model comes at least the cooldown after the last frame that showed a live
  -- drone, this round's frame included.
  pub last_drone-tick :
      (xs : List Tick) (x : Tick)
      → Clocked 0 (xs ++ (x ∷ []))
      → (tick fl c x (run fl c xs (new_machine fl))).1 ≢ []
      → last_drone c 0 (xs ++ (x ∷ [])) + c.cooldown_ms ≤ x.now_ms
  unfolding new_machine
  last_drone-tick xs x k acts =
      run-Outcome xs x (new_machine fl) 0 0 (omega arith) (omega arith) k acts
