-- ===== src/Nufs/Bitmap/Bits.antt =====
-- What a bitmap reads after a write. The facts on one byte are checked at all its values.
use cs.Base.{
  ℕ, zero, suc, ◌+◌, ◌/◌, ◌%◌, ◌<◌, ◌≡◌, ◌≢◌, refl, ◌∙◌, Bool, true, ◌&&◌, arith, ltb, ◌==◌,
  if◌then◌else◌, ltb→lt, ==_iff, ℕ_discrete,
}
use cs.Nufs.Bitmap.{bit_at, to_bit, with_bit, bitmap_get, bitmap_set}
use cs.Nufs.Memory.Laws.{put8-IsBytes, put8-ne, put8_self}
use cs.Nufs.Memory.{Disk, IsBytes}

abbrev for_all : ℕ → (ℕ → Bool) → Bool
for_all zero p = true
for_all (suc n) p = p n && for_all n p

for_all-true : (n : ℕ) (p : ℕ → Bool) (x : ℕ) → for_all n p ≡ true → x < n → p x ≡ true
for_all-true zero p x h lt = absurd (omega arith)
for_all-true (suc n) p x h lt = ground (arith, for_all-true n p x)

-- One byte with one bit written: the result is a byte, and its bits are the old ones but for that.
abbrev byte_ok : ℕ → ℕ → ℕ → Bool
byte_ok v i letter =
    ltb (with_bit letter i v) 256
    && for_all 8 (λ j. bit_at (with_bit letter i v) j == (if j == i then v else bit_at letter j))

byte_table : for_all 2 (λ v. for_all 8 (λ i. for_all 256 (byte_ok v i))) ≡ true
unfolding bit_at with_bit
byte_table = refl

&&-left : (a b : Bool) → (a && b) ≡ true → a ≡ true
&&-left a b h = ground arith

&&-right : (a b : Bool) → (a && b) ≡ true → b ≡ true
&&-right a b h = ground arith

to_bit-lt : (val : ℕ) → to_bit val < 2
unfolding to_bit
to_bit-lt zero = omega arith
to_bit-lt (suc n) = omega arith

with_bit-to_bit : (letter i val : ℕ) → with_bit letter i val ≡ with_bit letter i (to_bit val)
unfolding with_bit
with_bit-to_bit letter i zero = refl
with_bit-to_bit letter i (suc n) = refl

byte_lem : (letter i val : ℕ) → i < 8 → letter < 256 → byte_ok (to_bit val) i letter ≡ true
byte_lem letter i val hi hl =
    for_all-true 256 (byte_ok (to_bit val) i) letter
      (for_all-true 8 (λ i. for_all 256 (byte_ok (to_bit val) i)) i
        (for_all-true 2 (λ v. for_all 8 (λ i. for_all 256 (byte_ok v i))) (to_bit val) byte_table
          (to_bit-lt val))
        hi)
      hl

with_bit-lt : (letter i val : ℕ) → i < 8 → letter < 256 → with_bit letter i val < 256
with_bit-lt letter i val hi hl =
    rw (with_bit-to_bit letter i val)
      (ltb→lt (with_bit letter i (to_bit val)) 256 (&&-left _ _ (byte_lem letter i val hi hl)))

bit_at-with_bit :
    (letter i j val : ℕ)
    → i < 8
    → j < 8
    → letter < 256
    → bit_at (with_bit letter i val) j ≡ (if j == i then to_bit val else bit_at letter j)
bit_at-with_bit letter i j val hi hj hl = rw (with_bit-to_bit letter i val) (
    (==_iff _ _).0 (
      for_all-true 8
        (λ j.
          bit_at (with_bit letter i (to_bit val)) j
          == (if j == i then to_bit val else bit_at letter j))
        j (&&-right (ltb (with_bit letter i (to_bit val)) 256) _ (byte_lem letter i val hi hl)) hj))

-- `bitmap_set` keeps the image a list of bytes.
pub bitmap_set-IsBytes : (d : Disk) (bm n val : ℕ) → IsBytes d → IsBytes (bitmap_set d bm n val)
unfolding bitmap_set
bitmap_set-IsBytes d bm n val b =
    put8-IsBytes d (bm + n / 8) _
      (with_bit-lt (d (bm + n / 8)) (n % 8) val (omega arith) (b (bm + n / 8))) b

-- It writes one byte.
pub bitmap_set-outside :
    (d : Disk) (bm n val x : ℕ) → x ≢ bm + n / 8 → bitmap_set d bm n val x ≡ d x
unfolding bitmap_set
bitmap_set-outside d bm n val x h = put8-ne d (bm + n / 8) _ x h

-- After `bitmap_set`, over an image of bytes, the bit that was written reads as whether the value
-- was non-zero, and every other bit of the bitmap reads as before.
pub bitmap_get-set :
    (d : Disk) (bm n val k : ℕ)
    → IsBytes d
    → bitmap_get (bitmap_set d bm n val) bm k ≡ (if k == n then to_bit val else bitmap_get d bm k)
unfolding bitmap_get bitmap_set
bitmap_get-set d bm n val k b =
    let a = bm + n / 8 in
    elim (ℕ_discrete (k / 8) (n / 8)) [
      | yes e ↦
          rw (e, put8_self d a (with_bit (d a) (n % 8) val))
            (bit_at-with_bit (d a) (n % 8) (k % 8) val (omega arith) (omega arith) (b a)
              ∙ ground arith)
      | no ne ↦
          rw (put8-ne d a (with_bit (d a) (n % 8) val) (bm + k / 8) (omega arith)) (ground arith)
    ]

pub bitmap_get-set_self :
    (d : Disk) (bm n val : ℕ) → IsBytes d → bitmap_get (bitmap_set d bm n val) bm n ≡ to_bit val
bitmap_get-set_self d bm n val b = ground (arith, bitmap_get-set d bm n val n b)

pub bitmap_get-set_ne :
    (d : Disk) (bm n val k : ℕ)
    → IsBytes d
    → k ≢ n
    → bitmap_get (bitmap_set d bm n val) bm k ≡ bitmap_get d bm k
bitmap_get-set_ne d bm n val k b h = ground (arith, bitmap_get-set d bm n val k b)

-- A bitmap is read from its own bytes.
pub bitmap_get_congr :
    (d d' : Disk) (bm k : ℕ)
    → d' (bm + k / 8) ≡ d (bm + k / 8)
    → bitmap_get d' bm k ≡ bitmap_get d bm k
unfolding bitmap_get
bitmap_get_congr d d' bm k e = rw e
