-- ===== src/Wire/Bytes.antt =====
-- Little-endian words and two's complement, as the packed structs lie in memory.
use khadas_yolov8n_multithre.Prelude.{
  ℕ, zero, suc, ◌+◌, ◌-◌, ◌*◌, ◌/◌, ◌%◌, ◌^◌, ◌<◌, ◌≡◌, refl, sym, ap, ◌∙◌, append-nil, List, [],
  ◌∷◌, ◌++◌, arith, ltb, length, if◌then◌else◌,
}
use khadas_yolov8n_multithre.Prelude.Int.{ℤ, pos, negsuc}

-- `n` bytes of a number, lowest first.
unfoldable pub le : ℕ → ℕ → List ℕ
le zero x = []
le (suc n) x = (x % 256) ∷ le n (x / 256)

-- The number in the first `n` bytes, and the bytes after them.
unfoldable pub word : ℕ → List ℕ → ℕ × List ℕ
word zero bs = (0, bs)
word (suc n) [] = (0, [])
word (suc n) (b ∷ bs) = let (x, rest) = word n bs in (b + 256 * x, rest)

-- The first `n` bytes, and those after them.
pub chunk : ℕ → List ℕ → List ℕ × List ℕ
chunk zero bs = ([], bs)
chunk (suc n) [] = ([], [])
chunk (suc n) (b ∷ bs) = let (c, rest) = chunk n bs in (b ∷ c, rest)

-- The number that `n` bytes keep of `x`.
pub wrap : ℕ → ℕ → ℕ
wrap zero x = 0
wrap (suc n) x = x % 256 + 256 * wrap n (x / 256)

pub word-le : (n x : ℕ) (rest : List ℕ) → word n (le n x ++ rest) ≡ (wrap n x, rest)
unfolding word le wrap
word-le zero x rest = refl
word-le (suc n) x rest = ap (λ p. (x % 256 + 256 * p.0, p.1)) (word-le n (x / 256) rest)

pub length-le : (n x : ℕ) → length (le n x) ≡ n
unfolding le
length-le zero x = refl
length-le (suc n) x = ap suc (length-le n (x / 256))

pub chunk-append : (n : ℕ) (bs rest : List ℕ) → length bs ≡ n → chunk n (bs ++ rest) ≡ (bs, rest)
unfolding chunk
chunk-append zero [] rest h = refl
chunk-append zero (b ∷ bs) rest h = absurd (omega arith)
chunk-append (suc n) [] rest h = absurd (omega arith)
chunk-append (suc n) (b ∷ bs) rest h =
    ap (λ p. (b ∷ p.0, p.1)) (chunk-append n bs rest (omega arith))

pub wrap_1 : (x : ℕ) → x < 2 ^ 8 → wrap 1 x ≡ x
unfolding wrap
wrap_1 x h = omega arith

pub wrap_2 : (x : ℕ) → x < 2 ^ 16 → wrap 2 x ≡ x
unfolding wrap
wrap_2 x h = omega arith

pub wrap_4 : (x : ℕ) → x < 2 ^ 32 → wrap 4 x ≡ x
unfolding wrap
wrap_4 x h = omega arith

pub wrap_8 : (x : ℕ) → x < 2 ^ 64 → wrap 8 x ≡ x
unfolding wrap
wrap_8 x h = omega arith

-- A length prefix, read back.
pub word-prefix : (n : ℕ) → n < 2 ^ 32 → (word 4 (le 4 n)).0 ≡ n
word-prefix n h =
    ap (λ bs. (word 4 bs).0) (sym (append-nil (le 4 n)))
    ∙ ap (λ p. p.0) (word-le 4 n [])
    ∙ wrap_4 n h

-- An `int32_t` as its bit pattern, and back.
unfoldable pub of_int32 : ℤ → ℕ
of_int32 (pos n) = n % 2 ^ 32
of_int32 (negsuc n) = 2 ^ 32 - 1 - n % 2 ^ 32

pub to_int32 : ℕ → ℤ
to_int32 b = if ltb b (2 ^ 31) then pos b else negsuc (2 ^ 32 - 1 - b)

abbrev pub IsInt32 : ℤ → Type 0
IsInt32 (pos n) = n < 2 ^ 31
IsInt32 (negsuc n) = n < 2 ^ 31

pub to_int32-of_int32 : (z : ℤ) → IsInt32 z → to_int32 (wrap 4 (of_int32 z)) ≡ z
unfolding to_int32 of_int32
to_int32-of_int32 (pos n) h = rw (wrap_4 (n % 2 ^ 32) (omega arith)) (ground arith)
to_int32-of_int32 (negsuc n) h = rw (wrap_4 (2 ^ 32 - 1 - n % 2 ^ 32) (omega arith)) (ground arith)
