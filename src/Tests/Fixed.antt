-- ===== src/Tests/Fixed.antt =====
-- Numbers in thousandths in place of the `float` of the boards.
use khadas_yolov8n_multithre.Prelude.{ℕ, suc, ◌*◌, ◌/◌, ◌%◌, ◌^◌, ◌≡◌, refl, true, false, arith}
use khadas_yolov8n_multithre.Prelude.Int.{
  ℤ, pos, negsuc, pos_part, ◌+ℤ◌, ◌-ℤ◌, ◌*ℤ◌, ltb_ℤ, leb_ℤ, min_ℤ, max_ℤ, abs, sub_ℕ,
}
use khadas_yolov8n_multithre.Prelude.Float.{Float32}

-- The quotient of the magnitudes, with the sign of the dividend.
abbrev quotient : ℤ → ℕ → ℤ
quotient (pos n) d = pos (n / d)
quotient (negsuc n) d = sub_ℕ 0 (suc n / d)

pub below_irrefl : (a : ℤ) → ltb_ℤ a a ≡ false
below_irrefl a = ground arith

pub below_trans : (a b c : ℤ) → ltb_ℤ a b ≡ true → ltb_ℤ b c ≡ true → ltb_ℤ a c ≡ true
below_trans a b c h k = ground arith

pub below_or_equal_trans : (a b c : ℤ) → leb_ℤ a b ≡ true → leb_ℤ b c ≡ true → leb_ℤ a c ≡ true
below_or_equal_trans a b c h k = ground arith

pub below_or_equal_total :
    (a b : ℤ) → leb_ℤ a a ≡ true → leb_ℤ b b ≡ true → leb_ℤ a b ≡ false → leb_ℤ b a ≡ true
below_or_equal_total a b h k n = ground arith

pub below_or_equal : (a b : ℤ) → ltb_ℤ a b ≡ true → leb_ℤ a b ≡ true
below_or_equal a b h = ground arith

pub numbers_below : (a b : ℤ) → ltb_ℤ a b ≡ true → (leb_ℤ a a ≡ true) × (leb_ℤ b b ≡ true)
numbers_below a b h = ground arith

abbrev pub fixed : Float32
fixed = record {
  F = ℤ;
  of_int = λ z. z *ℤ pos 1000;
  lit = λ m n. pos (m * 1000 / n);
  add = λ a b. a +ℤ b;
  sub = λ a b. a -ℤ b;
  mul = λ a b. quotient (a *ℤ b) 1000;
  div = λ a b. quotient (a *ℤ pos 1000) (pos_part b);
  sqrt = λ a. a;
  abs = abs;
  atan2 = λ a b. pos 0;
  cos = λ a. pos 1000;
  sin = λ a. a;
  exp = λ a. pos 1000;
  log = λ a. pos 0;
  lt = ltb_ℤ;
  le = leb_ℤ;
  fmin = min_ℤ;
  fmax = max_ℤ;
  to_int = λ a. quotient a 1000;
  bits = λ a. pos_part a % 2 ^ 32;
  of_bits = λ n. pos n;
  lt_irrefl = below_irrefl;
  lt_trans = below_trans;
  le_trans = below_or_equal_trans;
  le_total = below_or_equal_total;
  lt_le = below_or_equal;
  lt_numbers = numbers_below;
  zero_lt_one = refl;
}
