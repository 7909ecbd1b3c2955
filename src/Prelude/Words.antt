-- ===== src/Prelude/Words.antt =====
-- Unsigned machine words, with their wrap-around.
use khadas_yolov8n_multithre.Prelude.{ℕ, ◌+◌, ◌-◌, ◌%◌, ◌^◌}

abbrev pub u32_mod : ℕ
u32_mod = 2 ^ 32

abbrev pub u64_mod : ℕ
u64_mod = 2 ^ 64

-- `x + 1` on a `uint32_t`
abbrev pub inc32 : ℕ → ℕ
inc32 x = (x + 1) % u32_mod

-- `a - b` on a `uint64_t`
abbrev pub sub64 : ℕ → ℕ → ℕ
sub64 a b = (a + u64_mod - b) % u64_mod
