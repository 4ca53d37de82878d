-- ===== src/Base/Int.antt =====
-- The signed results of the C functions.
use Prim.Native.Nat.{ℕ}

-- `negsuc n` is -(n + 1).
pub data ℤ : Type 0 where
  pos : ℕ → ℤ
  negsuc : ℕ → ℤ

-- -1, -ENOENT and -EEXIST.
abbrev pub minus_one : ℤ
minus_one = negsuc 0

abbrev pub no_entry : ℤ
no_entry = negsuc 1

abbrev pub already_exists : ℤ
already_exists = negsuc 16
