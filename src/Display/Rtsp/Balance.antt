-- ===== src/Display/Rtsp/Balance.antt =====
-- The references of the RTSP output are balanced, whatever the threads do.
use khadas_yolov8n_multithre.Prelude.{
  ℕ, ◌+◌, ◌-◌, ◌≡◌, refl, ap, Bool, true, Option, none, some, List, [], ◌∷◌, arith, ltb, ◌==◌,
  remove, count, owns, count-cons, count-remove,
}
use khadas_yolov8n_multithre.Display.Rtsp.{
  Stream, Step, configure, push_begin, push_end, deinit, off, rtsp_stream_init, drop_old,
  on_media_configure, emit, push_begin_at, push_end_at, deinit_at, begin_when_free, step, run,
}

abbrev pub AllAlive : List (ℕ × Bool) → Type 0
AllAlive [] = Unit {0}
AllAlive ((e, alive) ∷ signals) = (alive ≡ true) × AllAlive signals

pub record IsBalanced (s : Stream) : Type 0 where
  pub counted : (x : ℕ) → count x s.held ≡ owns s.appsrc x + owns s.pushing x
  pub alive : AllAlive s.signals

count-drop_old : (x : ℕ) (o : Option ℕ) (l : List ℕ) → count x (drop_old o l) ≡ count x l - owns o x
unfolding drop_old
count-drop_old x none l = omega arith
count-drop_old x (some e) l = count-remove x e l

configure-IsBalanced : (p e : ℕ) (s : Stream) → IsBalanced s → IsBalanced (on_media_configure p e s)
unfolding on_media_configure
configure-IsBalanced p e s b = record {
  counted = λ x. omega (
    arith,
    count-drop_old x s.appsrc (remove p (e ∷ p ∷ s.held)),
    count-remove x p (e ∷ p ∷ s.held),
    count-cons x e (p ∷ s.held),
    count-cons x p s.held,
    b.counted x,
  );
  alive = b.alive;
}

begin-IsBalanced :
    (o : Option ℕ) (s : Stream)
    → s.appsrc ≡ o
    → s.pushing ≡ none
    → IsBalanced s
    → IsBalanced (push_begin_at o s)
unfolding push_begin_at
begin-IsBalanced none s a p b = b
begin-IsBalanced (some e) s a p b = record {
  counted = λ x. omega (arith, count-cons x e s.held, b.counted x, ap (λ o. owns o x) p);
  alive = b.alive;
}

same : (n : ℕ) → (n == n) ≡ true
same n = ground arith

-- An element that a variable stands for is referenced.
alive_of : (e : ℕ) (l : List ℕ) (n : ℕ) → count e l ≡ owns (some e) e + n → ltb 0 (count e l) ≡ true
alive_of e l n h = ground (arith, same e)

end-IsBalanced :
    (o : Option ℕ) (s : Stream) → s.pushing ≡ o → IsBalanced s → IsBalanced (push_end_at o s)
unfolding push_end_at emit
end-IsBalanced none s p b = b
end-IsBalanced (some e) s p b = record {
  counted = λ x. omega (arith, count-remove x e s.held, b.counted x, ap (λ o. owns o x) p);
  alive = (
    alive_of e s.held (owns s.appsrc e) (omega (arith, b.counted e, ap (λ o. owns o e) p)),
    b.alive,
  );
}

deinit-IsBalanced :
    (o : Option ℕ) (s : Stream) → s.appsrc ≡ o → IsBalanced s → IsBalanced (deinit_at o s)
unfolding deinit_at emit
deinit-IsBalanced none s a b = record { counted = b.counted; alive = b.alive }
deinit-IsBalanced (some e) s a b = record {
  counted = λ x. omega (arith, count-remove x e s.held, b.counted x, ap (λ o. owns o x) a);
  alive = (
    alive_of e s.held (owns s.pushing e) (omega (arith, b.counted e, ap (λ o. owns o e) a)),
    b.alive,
  );
}

begin_free-IsBalanced :
    (o : Option ℕ) (s : Stream) → s.pushing ≡ o → IsBalanced s → IsBalanced (begin_when_free o s)
unfolding begin_when_free
begin_free-IsBalanced none s p b = begin-IsBalanced s.appsrc s refl p b
begin_free-IsBalanced (some e) s p b = b

step-IsBalanced : (x : Step) (s : Stream) → IsBalanced s → IsBalanced (step x s)
unfolding step
step-IsBalanced (configure p e) s b = configure-IsBalanced p e s b
step-IsBalanced push_begin s b = begin_free-IsBalanced s.pushing s refl b
step-IsBalanced push_end s b = end-IsBalanced s.pushing s refl b
step-IsBalanced deinit s b = deinit-IsBalanced s.appsrc s refl b

run-from : (xs : List Step) (s : Stream) → IsBalanced s → IsBalanced (run xs s)
unfolding run
run-from [] s b = b
run-from (x ∷ xs) s b = run-from xs (step x s) (step-IsBalanced x s b)

-- In every interleaving of the media callback, the pushes of frames and the shutdown of the RTSP
-- output, the program holds exactly the references that its two variables stand for, so none
-- is given back twice and none is lost; and every signal goes to an element that is referenced.
pub run-IsBalanced : (xs : List Step) → IsBalanced (run xs (rtsp_stream_init off))
unfolding rtsp_stream_init count
run-IsBalanced xs = run-from xs (rtsp_stream_init off) (record { counted = λ x. refl; alive = tt })
