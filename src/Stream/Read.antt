-- ===== src/Stream/Read.antt =====
-- `readExact`: the result does not depend on the pieces in which the input arrives.
use khadas_yolov8n_multithre.Prelude.{
  ℕ, zero, suc, ◌+◌, ◌-◌, ◌≤◌, ◌<◌, ◌≡◌, refl, sym, ap, ◌∙◌, Option, none, some, List, [], ◌∷◌,
  ◌++◌, arith, tests, leb, length, take, drop, length-take, length-drop, length-append, inl, inr,
  Bool-cases, take_all, take-append, drop-append, take-append-length, drop-append-length,
  take-append-take-drop, drop-drop,
}
use khadas_yolov8n_multithre.Stream.{Input, read, read_loop, read_exact, prepend}

-- All bytes of an input, in order.
abbrev pub flat : Input → List ℕ
flat [] = []
flat (p ∷ ps) = p ++ flat ps

-- Each piece has a byte, as `read` gives none only at the end or on an error.
abbrev pub Lively : Input → Type 0
Lively [] = Unit {0}
Lively (p ∷ ps) = (0 < length p) × Lively ps

-- One call of `read` takes bytes off the front.
pub record Front (n : ℕ) (ps : Input) (r : List ℕ × Input) : Type 0 where
  pub got : r.0 ≡ take (length r.0) (flat ps)
  pub left : flat r.1 ≡ drop (length r.0) (flat ps)
  pub some_bytes : 0 < length r.0
  pub few : length r.0 ≤ n
  pub within : length r.0 ≤ length (flat ps)
  pub lively : Lively r.1

pub read-Front :
    (n : ℕ) (p : List ℕ) (ps : Input) → 0 < n → Lively (p ∷ ps) → Front n (p ∷ ps) (read n (p ∷ ps))
unfolding read
read-Front n p ps h v = elim (Bool-cases (leb (length p) n)) [
  | inl whole ↦
      let short : length p ≤ n = omega (tests, whole) in
      rw (whole, take_all n p short)
        (record {
          got = sym (take-append-length p (flat ps));
          left = sym (drop-append-length p (flat ps));
          some_bytes = v.0;
          few = short;
          within = omega (arith, length-append p (flat ps));
          lively = v.1;
        })
  | inr part ↦
      let long : n < length p = omega (tests, part) in
      let size : length (take n p) ≡ n = omega (arith, length-take n p) in
      rw part (record {
        got = rw (size, take-append n p (flat ps) (omega arith));
        left = rw (size, drop-append n p (flat ps) (omega arith));
        some_bytes = omega arith;
        few = omega arith;
        within = omega (arith, length-append p (flat ps));
        lively = (omega (arith, length-drop n p), v.1);
      })
]

-- What `readExact` should do with `n` bytes to read.
abbrev pub Reads : ℕ → Input → Option (List ℕ × Input) → Type 0
Reads n ps r =
    (n ≤ length (flat ps)
      → (rest : Input) × (r ≡ some (take n (flat ps), rest))
        × (flat rest ≡ drop n (flat ps))
        × Lively rest)
    × (length (flat ps) < n → r ≡ none)

read_loop-zero : (f : ℕ) (ps : Input) → read_loop (suc f) 0 ps ≡ some ([], ps)
unfolding read_loop
read_loop-zero f ps = refl

read_loop-end : (f n : ℕ) → 0 < n → read_loop (suc f) n [] ≡ none
unfolding read_loop read
read_loop-end f n h = ground arith

read_loop-step :
    (f n : ℕ) (ps : Input)
    → 0 < n
    → 0 < length (read n ps).0
    → read_loop (suc f) n ps
      ≡ prepend (read n ps).0 (read_loop f (n - length (read n ps).0) (read n ps).1)
unfolding read_loop
read_loop-step f n ps h k = ground arith

read_loop-Reads : (f n : ℕ) (ps : Input) → n < f → Lively ps → Reads n ps (read_loop f n ps)
unfolding prepend
read_loop-Reads zero n ps h v = absurd (omega arith)
read_loop-Reads (suc f) zero ps h v =
    rw read_loop-zero ((λ _. (ps, refl, refl, v)), λ k. absurd (omega arith))
read_loop-Reads (suc f) (suc n) [] h v =
    ((λ k. absurd (omega arith)), λ k. read_loop-end f (suc n) (omega arith))
read_loop-Reads (suc f) (suc n) (p ∷ ps) h v =
    let fr = read-Front (suc n) p ps (omega arith) v in
    let got = (read (suc n) (p ∷ ps)).0 in
    let left = (read (suc n) (p ∷ ps)).1 in
    let m : ℕ = suc n - length got in
    let m_lt : m < f = omega (arith, fr.some_bytes) in
    let ih = read_loop-Reads f m left m_lt fr.lively in
    let size : length (flat left) ≡ length (flat (p ∷ ps)) - length got =
      omega (arith, ap length fr.left, length-drop (length got) (flat (p ∷ ps))) in
    rw (read_loop-step f (suc n) (p ∷ ps) (omega arith) fr.some_bytes) (
      (λ k.
          let (rest, e, after, lively) = ih.0 (omega (arith, fr.few, fr.within)) in
          (
            rest,
            rw e (
                ap (λ bs. some (bs, rest))
                  (ap (λ g. g ++ take m (flat left)) fr.got
                    ∙ ap (λ l. take (length got) (flat (p ∷ ps)) ++ take m l) fr.left
                    ∙ take-append-take-drop (length got) (suc n) (flat (p ∷ ps)) fr.few)),
            after ∙ ap (drop m) fr.left ∙ drop-drop (length got) (suc n) (flat (p ∷ ps)) fr.few,
            lively,
          )),
      λ k. rw (ih.1 (omega (arith, fr.few, fr.within))),
    )

-- However the bytes of an input are cut into pieces: `readExact` returns the next `n` bytes and
-- leaves the bytes after them when there are that many, and fails otherwise. Its loop ends.
pub read_exact-Reads : (n : ℕ) (ps : Input) → Lively ps → Reads n ps (read_exact n ps)
unfolding read_exact
read_exact-Reads n ps v = read_loop-Reads (n + 1) n ps (omega arith) v

-- The form in which the readers of frames use it.
pub read_exact-front :
    (n : ℕ) (ps : Input) (a rest : List ℕ)
    → Lively ps
    → flat ps ≡ a ++ rest
    → length a ≡ n
    → (ps' : Input) × (read_exact n ps ≡ some (a, ps')) × (flat ps' ≡ rest) × Lively ps'
read_exact-front n ps a rest v e size =
    let (ps', r, left, lively) =
      (read_exact-Reads n ps v).0 (omega (arith, ap length e, length-append a rest)) in
    (
      ps',
      r
          ∙ ap (λ bs. some (bs, ps'))
              (ap (take n) e ∙ ap (λ k. take k (a ++ rest)) (sym size) ∙ take-append-length a rest),
      left ∙ ap (drop n) e ∙ ap (λ k. drop k (a ++ rest)) (sym size) ∙ drop-append-length a rest,
      lively,
    )
