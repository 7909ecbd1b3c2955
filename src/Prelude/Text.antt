-- ===== src/Prelude/Text.antt =====
-- C strings in fixed arrays, as lists of bytes.
use khadas_yolov8n_multithre.Prelude.{
  ℕ, zero, suc, ◌≡◌, refl, ap, List, [], ◌∷◌, ◌++◌, arith, ◌==◌, if◌then◌else◌, length,
  length-append,
}

-- `strncpy`: at most `n` bytes, up to the first NUL, padded with NULs.
unfoldable pub strncpy : ℕ → List ℕ → List ℕ
strncpy zero s = []
strncpy (suc n) [] = 0 ∷ strncpy n []
strncpy (suc n) (c ∷ s) = c ∷ strncpy n (if c == 0 then [] else s)

-- `std::strncpy(dst, src, sizeof(dst) - 1)` into a zeroed `char[16]`.
unfoldable pub label : List ℕ → List ℕ
label s = strncpy 15 s ++ (0 ∷ [])

-- The text up to the first NUL.
unfoldable pub c_str : List ℕ → List ℕ
c_str [] = []
c_str (c ∷ s) = if c == 0 then [] else c ∷ c_str s

length-strncpy : (n : ℕ) (s : List ℕ) → length (strncpy n s) ≡ n
unfolding strncpy
length-strncpy zero s = refl
length-strncpy (suc n) [] = ap suc (length-strncpy n [])
length-strncpy (suc n) (c ∷ s) = ap suc (length-strncpy n (if c == 0 then [] else s))

length-label : (s : List ℕ) → length (label s) ≡ 16
unfolding label
length-label s = omega (arith, length-append (strncpy 15 s) (0 ∷ []), length-strncpy 15 s)

strncpy-nil : (n k : ℕ) → strncpy n (strncpy k []) ≡ strncpy n []
unfolding strncpy
strncpy-nil zero k = refl
strncpy-nil (suc n) zero = refl
strncpy-nil (suc n) (suc k) = refl

strncpy_again : (n : ℕ) (s t : List ℕ) → strncpy n (strncpy n s ++ t) ≡ strncpy n s
unfolding strncpy
strncpy_again zero s t = refl
strncpy_again (suc n) [] t = refl
strncpy_again (suc n) (c ∷ s) t = ground (arith, strncpy_again n s t)

label-label : (s : List ℕ) → label (label s) ≡ label s
unfolding label
label-label s = ap (λ l. l ++ (0 ∷ [])) (strncpy_again 15 s (0 ∷ []))
