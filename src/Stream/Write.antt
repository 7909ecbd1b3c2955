-- ===== src/Stream/Write.antt =====
-- `writeExact`: what reaches the wire.
use khadas_yolov8n_multithre.Prelude.{
  ℕ, ◌≡◌, refl, sym, ap, ◌∙◌, ◌≢◌, true, false, List, [], ◌∷◌, ◌++◌, ◌==◌, take, drop, inl, inr,
  take-append-drop, append_assoc, subst, Bool-cases,
}
use khadas_yolov8n_multithre.Stream.{Sent, write_exact, and_then}

-- `t` with `xs` put on the wire before it
abbrev joined : List ℕ → Sent → Sent
joined xs t = record t { bytes = xs ++ t.bytes }

-- All of `bs` went out, or a proper prefix of it did and the writer reports the failure.
pub data Writes (bs : List ℕ) (s : Sent) : Type 0 where
  whole : s.ok ≡ true → s.bytes ≡ bs → Writes bs s
  cut : (rest : List ℕ) → s.ok ≡ false → rest ≢ [] → s.bytes ++ rest ≡ bs → Writes bs s

-- What a successful writer put on the wire.
pub Writes-ok : {bs : List ℕ} {s : Sent} → Writes bs s → s.ok ≡ true → s.bytes ≡ bs
Writes-ok (whole o e) h = e
Writes-ok (cut rest o n e) h = absurd (cc (o, h))

after-Writes :
    (xs bs : List ℕ) (t : Sent)
    → Writes bs t
    → Writes (xs ++ bs) (record t { bytes = xs ++ t.bytes })
after-Writes xs bs t (whole o e) = whole o (ap (λ l. xs ++ l) e)
after-Writes xs bs t (cut rest o n e) =
    cut rest o n (append_assoc xs t.bytes rest ∙ ap (λ l. xs ++ l) e)

-- Whatever `send` accepts each time, `writeExact` succeeds exactly when every byte went out, in
-- order; on a failure a proper prefix went out.
pub write_exact-Writes : (bs sends : List ℕ) → Writes bs (write_exact bs sends)
unfolding write_exact
write_exact-Writes [] sends = whole refl refl
write_exact-Writes (b ∷ bs) [] = cut (b ∷ bs) refl (λ e. cc) refl
write_exact-Writes (b ∷ bs) (w ∷ sends) = elim (Bool-cases (w == 0)) [
  | inl failed ↦ rw failed (cut (b ∷ bs) refl (λ e. cc) refl)
  | inr sent ↦ rw sent (
      subst (λ l. Writes l (joined (take w (b ∷ bs)) (write_exact (drop w (b ∷ bs)) sends)))
        (take-append-drop w (b ∷ bs))
        (after-Writes (take w (b ∷ bs)) (drop w (b ∷ bs)) _
          (write_exact-Writes (drop w (b ∷ bs)) sends)))
]

append-ne-nil : (xs ys : List ℕ) → xs ≢ [] → xs ++ ys ≢ []
append-ne-nil [] ys n = absurd (n refl)
append-ne-nil (x ∷ xs) ys n = λ e. cc

-- Two writes in a row write the one after the other, or stop within either.
pub and_then-Writes :
    (xs bs : List ℕ) (s : Sent) (next : List ℕ → Sent)
    → Writes xs s
    → ((sends : List ℕ) → Writes bs (next sends))
    → Writes (xs ++ bs) (and_then s next)
unfolding and_then
and_then-Writes xs bs s next (whole o e) h =
    rw (o, ← e) (after-Writes s.bytes bs (next s.sends) (h s.sends))
and_then-Writes xs bs s next (cut rest o n e) h = rw o (
    cut (rest ++ bs) refl (append-ne-nil rest bs n)
      (sym (append_assoc s.bytes rest bs) ∙ ap (λ l. l ++ bs) e))
