-- ===== src/Nufs/Memory.antt =====
-- The mapped image of hw10/starter-fshw as bytes by their offset from `pages_base`, and the accesses
-- that the C code makes through `uint8_t*` and `int*`. An `int` is its 32-bit pattern, in
-- little-endian order; the image is 2^20 bytes, and an access behind it is the caller's to exclude.
pub mod Laws
use cs.Base.{ℕ, ◌+◌, ◌*◌, ◌/◌, ◌%◌, ◌^◌, ◌<◌, Bool, ◌&&◌, leb, ltb, ◌==◌, if◌then◌else◌}

abbrev pub Disk : Type 0
Disk = ℕ → ℕ

-- `*(uint8_t*) a = v`
unfoldable pub put8 : Disk → ℕ → ℕ → Disk
put8 d a v x = if x == a then v else d x

-- `*(int*) a`
unfoldable pub get32 : Disk → ℕ → ℕ
get32 d a = d a + 256 * d (a + 1) + 65536 * d (a + 2) + 16777216 * d (a + 3)

-- `*(int*) a = v`
unfoldable pub put32 : Disk → ℕ → ℕ → Disk
put32 d a v x =
    if x == a
    then v % 256
    else (if x == a + 1
        then v / 256 % 256
        else (if x == a + 2
            then v / 65536 % 256
            else (if x == a + 3 then v / 16777216 % 256 else d x)))

-- `memset(a, 0, n)`
unfoldable pub zero_fill : Disk → ℕ → ℕ → Disk
zero_fill d a n x = if leb a x && ltb x (a + n) then 0 else d x

-- `x > 0` for an `int`: not zero, and the sign bit clear.
abbrev pub is_positive : ℕ → Bool
is_positive x = ltb 0 x && ltb x (2 ^ 31)

-- Every cell is a byte.
abbrev pub IsBytes : Disk → Type 0
IsBytes d = (x : ℕ) → d x < 256
