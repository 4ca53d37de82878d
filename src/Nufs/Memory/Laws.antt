-- ===== src/Nufs/Memory/Laws.antt =====
-- Reads after writes.
use cs.Base.{ℕ, ◌+◌, ◌^◌, ◌≤◌, ◌<◌, ◌≡◌, ◌≢◌, ◌⊎◌, inl, inr, arith}
use cs.Nufs.Memory.{Disk, put8, get32, put32, zero_fill, IsBytes}

pub put8_self : (d : Disk) (a v : ℕ) → put8 d a v a ≡ v
unfolding put8
put8_self d a v = ground arith

pub put8-ne : (d : Disk) (a v x : ℕ) → x ≢ a → put8 d a v x ≡ d x
unfolding put8
put8-ne d a v x h = ground arith

pub put8-IsBytes : (d : Disk) (a v : ℕ) → v < 256 → IsBytes d → IsBytes (put8 d a v)
unfolding put8
put8-IsBytes d a v h b x = ground (arith, b x)

pub put32-IsBytes : (d : Disk) (a v : ℕ) → IsBytes d → IsBytes (put32 d a v)
unfolding put32
put32-IsBytes d a v b x = ground (arith, b x)

pub zero_fill-IsBytes : (d : Disk) (a n : ℕ) → IsBytes d → IsBytes (zero_fill d a n)
unfolding zero_fill
zero_fill-IsBytes d a n b x = ground (arith, b x)

pub get32-lt : (d : Disk) (a : ℕ) → IsBytes d → get32 d a < 2 ^ 32
unfolding get32
get32-lt d a b = omega (arith, b a, b (a + 1), b (a + 2), b (a + 3))

-- A word that is written is read back.
pub get32-put32 : (d : Disk) (a v : ℕ) → v < 2 ^ 32 → get32 (put32 d a v) a ≡ v
unfolding get32 put32
get32-put32 d a v h = ground arith

pub put32-outside : (d : Disk) (a v x : ℕ) → (x < a) ⊎ (a + 4 ≤ x) → put32 d a v x ≡ d x
unfolding put32
put32-outside d a v x h = ground arith

pub zero_fill-outside : (d : Disk) (a n x : ℕ) → (x < a) ⊎ (a + n ≤ x) → zero_fill d a n x ≡ d x
unfolding zero_fill
zero_fill-outside d a n x h = ground arith

pub zero_fill-inside : (d : Disk) (a n x : ℕ) → a ≤ x → x < a + n → zero_fill d a n x ≡ 0
unfolding zero_fill
zero_fill-inside d a n x h k = ground arith

-- A word is read from its four bytes.
pub get32_congr :
    (d d' : Disk) (a : ℕ) → ((x : ℕ) → a ≤ x → x < a + 4 → d' x ≡ d x) → get32 d' a ≡ get32 d a
unfolding get32
get32_congr d d' a h = rw (
  h a (omega arith) (omega arith),
  h (a + 1) (omega arith) (omega arith),
  h (a + 2) (omega arith) (omega arith),
  h (a + 3) (omega arith) (omega arith),
)

pub get32-put32_ne :
    (d : Disk) (a v b : ℕ) → (b + 4 ≤ a) ⊎ (a + 4 ≤ b) → get32 (put32 d a v) b ≡ get32 d b
get32-put32_ne d a v b (inl h) =
    get32_congr d (put32 d a v) b (λ x lo hi. put32-outside d a v x (inl (omega arith)))
get32-put32_ne d a v b (inr h) =
    get32_congr d (put32 d a v) b (λ x lo hi. put32-outside d a v x (inr (omega arith)))

pub get32-put8_ne :
    (d : Disk) (a v b : ℕ) → (b + 4 ≤ a) ⊎ (a + 1 ≤ b) → get32 (put8 d a v) b ≡ get32 d b
get32-put8_ne d a v b (inl h) =
    get32_congr d (put8 d a v) b (λ x lo hi. put8-ne d a v x (omega arith))
get32-put8_ne d a v b (inr h) =
    get32_congr d (put8 d a v) b (λ x lo hi. put8-ne d a v x (omega arith))

pub get32-zero_fill : (d : Disk) (a n b : ℕ) → a ≤ b → b + 4 ≤ a + n → get32 (zero_fill d a n) b ≡ 0
unfolding get32
get32-zero_fill d a n b h k = rw (
  zero_fill-inside d a n b (omega arith) (omega arith),
  zero_fill-inside d a n (b + 1) (omega arith) (omega arith),
  zero_fill-inside d a n (b + 2) (omega arith) (omega arith),
  zero_fill-inside d a n (b + 3) (omega arith) (omega arith),
)
