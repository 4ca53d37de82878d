-- ===== src/OptMalloc/Words.antt =====
-- The words of chal2/starter-ch02/opt_malloc.c in memory.
use cs.Base.{
  ℕ, zero, suc, ◌+◌, ◌-◌, ◌/◌, ◌%◌, ◌^◌, ◌≤◌, ◌<◌, ◌≡◌, refl, ◌∙◌, ap, ◌⊎◌, inl, inr, arith, lt→ltb,
  le→leb,
}
use native.Mathlib.Omega.{pow_step}
use cs.OptMalloc.{Memory, load, put8, store_bytes, get64, put64, memcpy}

pub store_bytes-outside :
    (n : ℕ) (mem : Memory) (a v x : ℕ) → (x < a) ⊎ (a + n ≤ x) → store_bytes n mem a v x ≡ mem x
unfolding store_bytes put8
store_bytes-outside zero mem a v x h = refl
store_bytes-outside (suc n) mem a v x h =
    let far : (x < a + 1) ⊎ (a + 1 + n ≤ x) = elim h [
      | inl l ↦ inl (omega arith)
      | inr r ↦ inr (omega arith)
    ] in
    let byte : put8 mem a (v % 256) x ≡ mem x = elim h [
      | inl l ↦ ground arith
      | inr r ↦ ground arith
    ] in
    store_bytes-outside n (put8 mem a (v % 256)) (a + 1) (v / 256) x far ∙ byte

pub load-same :
    (n : ℕ) (mem mem' : Memory) (a : ℕ)
    → ((x : ℕ) → a ≤ x → x < a + n → mem' x ≡ mem x)
    → load n mem' a ≡ load n mem a
unfolding load
load-same zero mem mem' a h = refl
load-same (suc n) mem mem' a h =
    let first = h a (omega arith) (omega arith) in
    let rest = load-same n mem mem' (a + 1) (λ x lo hi. h x (omega arith) (omega arith)) in
    omega (arith, first, rest)

load-store_bytes :
    (n : ℕ) (mem : Memory) (a v : ℕ) → v < 256 ^ n → load n (store_bytes n mem a v) a ≡ v
unfolding load store_bytes put8
load-store_bytes zero mem a v h = omega arith
load-store_bytes (suc n) mem a v h =
    let step = pow_step 256 n in
    let low : store_bytes n (put8 mem a (v % 256)) (a + 1) (v / 256) a ≡ v % 256 =
      store_bytes-outside n (put8 mem a (v % 256)) (a + 1) (v / 256) a (inl (omega arith))
      ∙ ground arith in
    let high =
      load-store_bytes n (put8 mem a (v % 256)) (a + 1) (v / 256) (omega (arith, h, step)) in
    omega (arith, low, high)

pub get64-put64 : (mem : Memory) (a v : ℕ) → v < 2 ^ 64 → get64 (put64 mem a v) a ≡ v
unfolding get64 put64
get64-put64 mem a v h = load-store_bytes 8 mem a v (omega arith)

pub put64-outside : (mem : Memory) (a v x : ℕ) → (x < a) ⊎ (a + 8 ≤ x) → put64 mem a v x ≡ mem x
unfolding put64
put64-outside mem a v x h = store_bytes-outside 8 mem a v x h

pub get64-same :
    (mem mem' : Memory) (a : ℕ)
    → ((x : ℕ) → a ≤ x → x < a + 8 → mem' x ≡ mem x)
    → get64 mem' a ≡ get64 mem a
unfolding get64
get64-same mem mem' a h = load-same 8 mem mem' a h

pub get64-put64_apart :
    (mem : Memory) (a v b : ℕ) → (b + 8 ≤ a) ⊎ (a + 8 ≤ b) → get64 (put64 mem a v) b ≡ get64 mem b
get64-put64_apart mem a v b h = get64-same mem (put64 mem a v) b λ x lo hi.
    put64-outside mem a v x (elim h [ inl l ↦ inl (omega arith) | inr r ↦ inr (omega arith) ])

pub memcpy-inside :
    (mem : Memory) (dst src n j : ℕ) → j < n → memcpy mem dst src n (dst + j) ≡ mem (src + j)
unfolding memcpy
memcpy-inside mem dst src n j h =
    let e : dst + j - dst ≡ j = omega arith in
    rw (le→leb dst (dst + j) (omega arith))
      (rw (lt→ltb (dst + j) (dst + n) (omega arith)) (ap (λ i. mem (src + i)) e))

pub memcpy-outside :
    (mem : Memory) (dst src n x : ℕ) → (x < dst) ⊎ (dst + n ≤ x) → memcpy mem dst src n x ≡ mem x
unfolding memcpy
memcpy-outside mem dst src n x h = ground (arith, h)
