-- ===== src/Display/Window.antt =====
-- src/local_display.cc: the display window, its objects and its thread.
use khadas_yolov8n_multithre.Prelude.{
  ℕ, zero, suc, ◌+◌, ◌≡◌, refl, ap, ◌∙◌, Bool, true, false, not, ◌||◌, ◌&&◌, Option, none, some,
  List, [], ◌∷◌, arith, if◌then◌else◌, remove, remove_head,
}

-- The statics; `frames` counts the pushed frames, and `bad_join` says that `pthread_join` was called
-- on a thread that was never created, which is undefined.
pub record Window : Type 0 where
  pub pipeline : Option ℕ
  pub appsrc : Option ℕ
  pub loop : Bool
  pub thread : Bool
  pub held : List ℕ
  pub frames : ℕ
  pub bad_join : Bool

abbrev pub no_window : Window
no_window = record {
  pipeline = none;
  appsrc = none;
  loop = false;
  thread = false;
  held = [];
  frames = 0;
  bad_join = false;
}

-- What GStreamer gives: the parsed pipeline and whether there is an error beside it, the elements
-- called `sink` and `src`, and the sink's own video sink.
pub record Found : Type 0 where
  pub pipeline : Option ℕ
  pub error : Bool
  pub sink : Option ℕ
  pub video_sink : Option ℕ
  pub src : Option ℕ

hold : Option ℕ → List ℕ → List ℕ
hold none held = held
hold (some e) held = e ∷ held

let_go : Option ℕ → List ℕ → List ℕ
let_go none held = held
let_go (some e) held = remove e held

-- The references for setting the title, which are given back.
set_title : Option ℕ → Option ℕ → List ℕ → List ℕ
unfolding hold let_go
set_title none video held = held
set_title (some sink) video held =
    let_go (some sink) (let_go video (hold video (hold (some sink) held)))

-- `local_display_init`; with no pipeline, or an error, it returns early.
init_at : Option ℕ → Found → Window → Window
unfolding set_title hold
init_at none f w = record w { loop = true; pipeline = none }
init_at (some p) f w =
    if f.error then record w { loop = true; pipeline = some p; held = p ∷ w.held } else record w {
      loop = true;
      pipeline = some p;
      appsrc = f.src;
      thread = true;
      held = hold f.src (set_title f.sink f.video_sink (p ∷ w.held));
    }

pub local_display_init : Found → Window → Window
unfolding init_at
local_display_init f w = init_at f.pipeline f w

push_at : Option ℕ → Window → Window
push_at none w = w
push_at (some e) w = record w { frames = w.frames + 1 }

pub local_display_push_frame : Window → Window
unfolding push_at
local_display_push_frame w = push_at w.appsrc w

pub local_display_deinit : Window → Window
unfolding let_go
local_display_deinit w = record w {
  appsrc = none;
  pipeline = none;
  held = let_go w.pipeline (let_go w.appsrc w.held);
  loop = false;
  thread = w.thread && not w.loop;
  bad_join = w.bad_join || w.loop && not w.thread;
}

pub push_frames : ℕ → Window → Window
unfolding local_display_push_frame
push_frames zero w = w
push_frames (suc n) w = push_frames n (local_display_push_frame w)

-- The window could be set up.
abbrev pub is_ready : Found → Bool
is_ready f = elim f.pipeline [ none ↦ false | some p ↦ not f.error ]

let_go-hold : (o : Option ℕ) (l : List ℕ) → let_go o (hold o l) ≡ l
unfolding let_go hold
let_go-hold none l = refl
let_go-hold (some e) l = remove_head e l

set_title_lem : (sink video : Option ℕ) (held : List ℕ) → set_title sink video held ≡ held
unfolding set_title
set_title_lem none video held = refl
set_title_lem (some sink) video held =
    rw (let_go-hold video (hold (some sink) held)) (let_go-hold (some sink) held)

-- The frames that reach the window: all, if it has its source.
abbrev pub pushed : Option ℕ → ℕ → ℕ
pushed none n = 0
pushed (some e) n = n

with_frames :
    (w : Window) (k : ℕ) {m : ℕ} → k ≡ m → record w { frames = k } ≡ record w { frames = m }
with_frames w k e = ap (λ j. record w { frames = j }) e

push_frames_lem :
    (n : ℕ) (o : Option ℕ) (w : Window)
    → w.appsrc ≡ o
    → push_frames n w ≡ record w { frames = w.frames + pushed o n }
unfolding push_frames push_at
push_frames_lem zero none w h = with_frames w w.frames (omega arith)
push_frames_lem zero (some e) w h = with_frames w w.frames (omega arith)
push_frames_lem (suc n) none w h =
    ap (λ a. push_frames n (push_at a w)) h ∙ push_frames_lem n none w h
push_frames_lem (suc n) (some e) w h =
    ap (λ a. push_frames n (push_at a w)) h
    ∙ push_frames_lem n (some e) (record w { frames = w.frames + 1 }) h
    ∙ with_frames w (w.frames + 1 + n) (omega arith)

-- What the program has after the window was opened, `n` frames pushed, and the window closed.
abbrev pub closed_after : Found → ℕ → Window
closed_after f n = local_display_deinit (push_frames n (local_display_init f no_window))

opened_with :
    (f : Found) (n : ℕ) (o : Option ℕ)
    → (local_display_init f no_window).appsrc ≡ o
    → closed_after f n
      ≡ local_display_deinit (record (local_display_init f no_window) {
        frames = (local_display_init f no_window).frames + pushed o n;
      })
opened_with f n o h =
    ap local_display_deinit (push_frames_lem n o (local_display_init f no_window) h)

abbrev pub found_as : Option ℕ → Bool → Option ℕ → Option ℕ → Option ℕ → Found
found_as p error sink video src = record {
  pipeline = p;
  error = error;
  sink = sink;
  video_sink = video;
  src = src;
}

closing :
    (p : Option ℕ) (error : Bool) (sink video src : Option ℕ) (n : ℕ)
    → let f = found_as p error sink video src in
      closed_after f n ≡ record no_window {
        frames = if is_ready f then pushed f.src n else 0;
        bad_join = not (is_ready f);
      }
unfolding local_display_deinit local_display_init init_at let_go hold
closing none error sink video src n = opened_with (found_as none error sink video src) n none refl
closing (some p) true sink video src n =
    opened_with (found_as (some p) true sink video src) n none refl ∙ rw (remove_head p []) refl
closing (some p) false sink video none n =
    opened_with (found_as (some p) false sink video none) n none refl
    ∙ rw (set_title_lem sink video (p ∷ []), remove_head p []) refl
closing (some p) false sink video (some e) n =
    let count : 0 + n ≡ n = omega arith in
    opened_with (found_as (some p) false sink video (some e)) n (some e) refl
    ∙ rw (set_title_lem sink video (p ∷ []), remove_head e (p ∷ []), remove_head p [], count) refl

-- Whatever GStreamer gives, opening the window, pushing frames and closing it gives back every
-- reference. If the pipeline was parsed, the frames reach its source, if there is one; if not,
-- none does, and closing joins a thread that was never created.
pub closed_after_lem :
    (f : Found) (n : ℕ)
    → closed_after f n ≡ record no_window {
      frames = if is_ready f then pushed f.src n else 0;
      bad_join = not (is_ready f);
    }
closed_after_lem f n = closing f.pipeline f.error f.sink f.video_sink f.src n
