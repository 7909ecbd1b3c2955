-- ===== src/Prelude/Float.antt =====
-- What the code does with `float`: conversions, arithmetic and comparisons, as an interface. The
-- laws are those of IEEE 754 comparison, NaN included; nothing is assumed of the arithmetic.
use khadas_yolov8n_multithre.Prelude.{ℕ, ◌≡◌, Bool, true, false}
use khadas_yolov8n_multithre.Prelude.Int.{ℤ}

pub record Float32 : Type 1 where
  pub F : Type 0
  -- `static_cast<float>` of an integer, and a literal `m / n`
  pub of_int : ℤ → F
  pub lit : ℕ → ℕ → F
  pub add : F → F → F
  pub sub : F → F → F
  pub mul : F → F → F
  pub div : F → F → F
  pub sqrt : F → F
  pub abs : F → F
  pub atan2 : F → F → F
  pub cos : F → F
  pub sin : F → F
  pub exp : F → F
  pub log : F → F
  pub lt : F → F → Bool
  pub le : F → F → Bool
  pub fmin : F → F → F
  pub fmax : F → F → F
  pub to_int : F → ℤ
  -- the four bytes of a value, as a number
  pub bits : F → ℕ
  pub of_bits : ℕ → F
  pub lt_irrefl : (a : F) → lt a a ≡ false
  pub lt_trans : (a b c : F) → lt a b ≡ true → lt b c ≡ true → lt a c ≡ true
  pub le_trans : (a b c : F) → le a b ≡ true → le b c ≡ true → le a c ≡ true
  -- of two values that are no NaN, one is at most the other
  pub le_total : (a b : F) → le a a ≡ true → le b b ≡ true → le a b ≡ false → le b a ≡ true
  -- a value that is below another is at most it, and neither is a NaN
  pub lt_le : (a b : F) → lt a b ≡ true → le a b ≡ true
  pub lt_numbers : (a b : F) → lt a b ≡ true → (le a a ≡ true) × (le b b ≡ true)
  pub zero_lt_one : lt (lit 0 1) (lit 1 1) ≡ true
