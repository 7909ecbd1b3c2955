-- ===== src/Postprocess/Sort.antt =====
-- `quick_sort_indice_inverse` of yolov8n_cap_multithread/src/postprocess.cc. The vectors `input` and `indices` are written
-- at the same positions, so they are one list of pairs. `stop` is the `right` of the source plus
-- one, since `right` goes down to -1.
pub mod Scan
pub mod Hole
pub mod Partition
pub mod Order
use khadas_yolov8n_multithre.Prelude.{
  ℕ, zero, suc, ◌+◌, ◌-◌, Option, none, some, List, ltb, ◌&&◌, if◌then◌else◌, set, get_or,
}
use khadas_yolov8n_multithre.Prelude.Float.{Float32}

module _ (fl : Float32) where
  open fl use {F, lit, le}

  -- A score with the index of its box.
  abbrev pub Scored : Type 0
  Scored = F × ℕ

  abbrev pub at : List Scored → ℕ → Scored
  at a i = get_or a i (lit 0 1, 0)

  -- `while (low < high && input[high] <= key) high--`, from `high` down
  pub scan_high : F → ℕ → List Scored → ℕ → ℕ
  scan_high key low a zero = zero
  scan_high key low a (suc high) =
      let further = scan_high key low a high in
      if ltb low (suc high) && le (at a (suc high)).0 key then further else suc high

  -- `while (low < high && input[low] >= key) low++`, with `n` rounds left
  pub scan_low : F → ℕ → List Scored → ℕ → ℕ → ℕ
  scan_low key high a zero low = low
  scan_low key high a (suc n) low =
      let further = scan_low key high a n (suc low) in
      if ltb low high && le key (at a low).0 then further else low

  -- `while (low < high)`, on fuel: where it ends, and the arrays.
  pub partition : F → ℕ → ℕ → ℕ → List Scored → Option (ℕ × List Scored)
  unfolding scan_high scan_low
  partition key zero low high a = none
  partition key (suc fuel) low high a =
      let high' = scan_high key low a high in
      let a' = set a low (at a high') in
      let low' = scan_low key high' a' (high' - low) low in
      let rest = partition key fuel low' high' (set a' high' (at a' low')) in
      if ltb low high then rest else some (low, a)

  -- On fuel; the result of the source, which no caller reads, is left out.
  pub quick_sort_indice_inverse : ℕ → ℕ → ℕ → List Scored → Option (List Scored)
  unfolding partition
  quick_sort_indice_inverse zero left stop a = none
  quick_sort_indice_inverse (suc fuel) left stop a =
      let key = at a left in
      let sorted : Option (List Scored) = elim (partition key.0 stop left (stop - 1) a) [
        | none ↦ none
        | some (low, b) ↦ elim (quick_sort_indice_inverse fuel left low (set b low key)) [
          | none ↦ none
          | some c ↦ quick_sort_indice_inverse fuel (suc low) stop c
        ]
      ] in
      if ltb (suc left) stop then sorted else some a
