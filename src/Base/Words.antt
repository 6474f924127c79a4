-- ===== src/Base/Words.antt =====
-- Unsigned machine words: a value is a number below the modulus, and arithmetic wraps.
use Prim.Native.Nat.{ℕ, ◌+◌, ◌-◌, ◌%◌}

abbrev pub u8 : ℕ → ℕ
u8 n = n % 256

abbrev pub u16 : ℕ → ℕ
u16 n = n % 65536

abbrev pub u32 : ℕ → ℕ
u32 n = n % 4294967296

-- `(uint32_t)(now - since)` for words `now` and `since`.
abbrev pub elapsed : ℕ → ℕ → ℕ
elapsed now since = (now + 4294967296 - since) % 4294967296
