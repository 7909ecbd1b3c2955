-- ===== src/Display/Rtsp.antt =====
-- src/rtsp_stream.cc: the appsrc that the media callback hands over, and the frames pushed to it.
pub mod Balance
use khadas_yolov8n_multithre.Prelude.{
  ℕ, Bool, true, false, Option, none, some, List, [], ◌∷◌, ltb, remove, count, if◌then◌else◌,
}

-- The statics; `pushing` is the local reference of a push under way, and `signals` has each signal
-- that was emitted, with whether its element was still referenced then.
pub record Stream : Type 0 where
  pub appsrc : Option ℕ
  pub pushing : Option ℕ
  pub loop : Bool
  pub server : Bool
  pub held : List ℕ
  pub signals : List (ℕ × Bool)

-- Before `rtsp_stream_init`, and behind it.
abbrev pub off : Stream
off = record {
  appsrc = none;
  pushing = none;
  loop = false;
  server = false;
  held = [];
  signals = [];
}

pub rtsp_stream_init : Stream → Stream
rtsp_stream_init s = record s { loop = true; server = true }

-- `if (g_appsrc) gst_object_unref(g_appsrc);`
pub drop_old : Option ℕ → List ℕ → List ℕ
drop_old none held = held
drop_old (some old) held = remove old held

-- `on_media_configure`: references to the pipeline and to its appsrc are taken, that to the
-- pipeline is given back, and the other replaces the old one.
pub on_media_configure : ℕ → ℕ → Stream → Stream
unfolding drop_old
on_media_configure pipeline element s = record s {
  held = drop_old s.appsrc (remove pipeline (element ∷ pipeline ∷ s.held));
  appsrc = some element;
}

-- A signal on an element.
pub emit : ℕ → Stream → Stream
emit e s = record s { signals = (e, ltb 0 (count e s.held)) ∷ s.signals }

-- `rtsp_stream_push_frame`: the part under the mutex,
push_begin_at : Option ℕ → Stream → Stream
push_begin_at none s = s
push_begin_at (some e) s = record s { held = e ∷ s.held; pushing = some e }

-- and the rest, with the copy of the frame.
push_end_at : Option ℕ → Stream → Stream
unfolding emit
push_end_at none s = s
push_end_at (some e) s =
    let sent = emit e s in record sent { held = remove e sent.held; pushing = none }

-- `rtsp_stream_deinit`; the loop's thread is joined before its loop goes.
deinit_at : Option ℕ → Stream → Stream
unfolding emit
deinit_at none s = record s { loop = false; server = false }
deinit_at (some e) s =
    let sent = emit e s in
    record sent { held = remove e sent.held; appsrc = none; loop = false; server = false }

pub data Step : Type 0 where
  configure : (pipeline element : ℕ) → Step
  push_begin : Step
  push_end : Step
  deinit : Step

-- The main thread pushes one frame at a time: a push begins when none is under way.
begin_when_free : Option ℕ → Stream → Stream
unfolding push_begin_at
begin_when_free none s = push_begin_at s.appsrc s
begin_when_free (some e) s = s

pub step : Step → Stream → Stream
unfolding on_media_configure begin_when_free push_end_at deinit_at
step (configure pipeline element) s = on_media_configure pipeline element s
step push_begin s = begin_when_free s.pushing s
step push_end s = push_end_at s.pushing s
step deinit s = deinit_at s.appsrc s

pub run : List Step → Stream → Stream
unfolding step
run [] s = s
run (x ∷ xs) s = run xs (step x s)
