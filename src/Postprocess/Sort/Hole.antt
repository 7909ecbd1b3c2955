-- ===== src/Postprocess/Sort/Hole.antt =====
-- Writes into a segment of the arrays: the pairs stay the same, but for the hole that `key` left.
use mathlib.Core.List.Perm
use khadas_yolov8n_multithre.Prelude.{
  ℕ, ◌≤◌, ◌<◌, ◌≡◌, ◌⊎◌, Bool, true, List, ◌∷◌, Perm, arith, length, set, get_or-set, set-perm,
}
use khadas_yolov8n_multithre.Prelude.Float.{Float32}
use khadas_yolov8n_multithre.Postprocess.Sort.{Scored, at}

module _ (fl : Float32) where
  open fl use {F, lit}

  -- A copy from `j` fills the hole at `i` and leaves one at `j`.
  pub hole-perm :
      (kp : Scored fl) (a a0 : List (Scored fl)) (i j : ℕ)
      → i < length a
      → Perm (kp ∷ a) (at fl a i ∷ a0)
      → Perm (kp ∷ set a i (at fl a j)) (at fl (set a i (at fl a j)) j ∷ a0)
  hole-perm kp a a0 i j h p =
      let moved : at fl (set a i (at fl a j)) j ≡ at fl a j =
        ground (arith, get_or-set a i j (at fl a j) (lit 0 1, 0) h) in
      rw moved (
        Perm.cons_inv (
          Perm.trans (Perm.swap kp (at fl a i) _) (
            Perm.trans (Perm.cons kp (set-perm a i (at fl a j) (lit 0 1, 0) h)) (
              Perm.trans (Perm.swap (at fl a j) kp a)
                (Perm.trans (Perm.cons (at fl a j) p) (Perm.swap (at fl a i) (at fl a j) a0))))))

  -- Putting the pair back.
  pub fill-perm :
      (kp : Scored fl) (a a0 : List (Scored fl)) (i : ℕ)
      → i < length a
      → Perm (kp ∷ a) (at fl a i ∷ a0)
      → Perm (set a i kp) a0
  fill-perm kp a a0 i h p = Perm.cons_inv (Perm.trans (set-perm a i kp (lit 0 1, 0) h) p)

  -- What holds of every score of a segment of `a`, holds of it in `b`.
  abbrev pub Keeps : List (Scored fl) → List (Scored fl) → ℕ → ℕ → Type 0
  Keeps a b left stop =
      (q : F → Bool)
      → ((i : ℕ) → left ≤ i → i < stop → q (at fl a i).0 ≡ true)
      → (i : ℕ) → left ≤ i
      → i < stop
      → q (at fl b i).0 ≡ true

  abbrev pub SameOutside : List (Scored fl) → List (Scored fl) → ℕ → ℕ → Type 0
  SameOutside a b left stop = (i : ℕ) → (i < left) ⊎ (stop ≤ i) → at fl b i ≡ at fl a i

  module _ (left stop : ℕ) (a b : List (Scored fl)) (i : ℕ) (v : Scored fl) (from : left ≤ i)
      (upto : i < stop) (room : stop ≤ length b) where
    pub Keeps-set :
        Keeps a b left stop
        → ((q : F → Bool) → ((k : ℕ) → left ≤ k → k < stop → q (at fl a k).0 ≡ true) → q v.0 ≡ true)
        → Keeps a (set b i v) left stop
    Keeps-set keeps at_v q h k lo hi =
        ground (arith, get_or-set b i k v (lit 0 1, 0), keeps q h k lo hi, at_v q h)

    pub SameOutside-set : SameOutside a b left stop → SameOutside a (set b i v) left stop
    SameOutside-set same k out = ground (arith, get_or-set b i k v (lit 0 1, 0), same k out)
