-- ===== src/Nufs/Bitmap.antt =====
-- hw10/starter-fshw/bitmap.c, over the bitmap that starts at `bm`.
pub mod Bits
use Prim.Native.Nat.{bit_and, bit_or}
use cs.Base.{ℕ, zero, suc, ◌+◌, ◌-◌, ◌*◌, ◌/◌, ◌%◌, ◌^◌}
use cs.Nufs.Memory.{Disk, put8}

-- `(letter >> index) & 1`
unfoldable pub bit_at : ℕ → ℕ → ℕ
bit_at letter index = bit_and (letter / 2 ^ index) 1

-- `!!val`
unfoldable pub to_bit : ℕ → ℕ
to_bit zero = 0
to_bit (suc n) = 1

-- `(letter & ~(1 << index)) | (!!val << index)`, each as a `uint8_t`.
unfoldable pub with_bit : ℕ → ℕ → ℕ → ℕ
unfolding to_bit
with_bit letter index val = bit_or (bit_and letter (255 - 2 ^ index)) (to_bit val * 2 ^ index)

unfoldable pub bitmap_get : Disk → ℕ → ℕ → ℕ
unfolding bit_at
bitmap_get d bm block_num = bit_at (d (bm + block_num / 8)) (block_num % 8)

unfoldable pub bitmap_set : Disk → ℕ → ℕ → ℕ → Disk
unfolding with_bit put8
bitmap_set d bm block_num val =
    let a = bm + block_num / 8 in put8 d a (with_bit (d a) (block_num % 8) val)
