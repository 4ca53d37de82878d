-- ===== src/Collatz/Orbit.antt =====
-- The Collatz sequence of a number, for chal2/starter-ch02/ivec_main.c.
use cs.Base.{
  ◌^◌, ℕ, zero, suc, ◌+◌, ◌*◌, ◌/◌, ◌%◌, ◌≤◌, ◌<◌, ◌≡◌, refl, sym, ◌∙◌, List, [], ◌∷◌, ◌++◌, false,
  inl, inr, arith, ◌==◌, if◌then◌else◌, lt→ltb, ==_iff, Bool-cases, ℕ_discrete, length,
}
use cs.Base.{◌^◌, ret, length-append}
use cs.Collatz.{collatz_step, long_limit}

abbrev pub following : ℕ → ℕ
following n = if n % 2 == 0 then n / 2 else 3 * n + 1

unfoldable pub orbit : ℕ → ℕ → ℕ
orbit i zero = i
orbit i (suc k) = following (orbit i k)

-- The sequence up to its member `p`.
unfoldable pub sequence : ℕ → ℕ → List ℕ
unfolding orbit
sequence i zero = i ∷ []
sequence i (suc p) = sequence i p ++ orbit i (suc p) ∷ []

-- The sequence from `i` gets to 1 after `k` steps and not before, no member overflows, and
-- a vector for it has a capacity that an `int` holds.
pub record Ends (i k : ℕ) : Type 0 where
  pub at_end : orbit i k ≡ 1
  pub on_the_way : (j : ℕ) → j < k → 1 < orbit i j
  pub small : (j : ℕ) → j ≤ k → orbit i j < long_limit
  pub short : k + 3 < 2 ^ 30

pub length-sequence : (i p : ℕ) → length (sequence i p) ≡ suc p
unfolding sequence
length-sequence i zero = refl
length-sequence i (suc p) =
    omega (arith, length-append (sequence i p) (orbit i (suc p) ∷ []), length-sequence i p)

pub collatz_step-orbit :
    (i p : ℕ) → orbit i (suc p) < long_limit → collatz_step (orbit i p) ≡ ret (orbit i (suc p))
unfolding orbit collatz_step
collatz_step-orbit i p h = elim (Bool-cases (orbit i p % 2 == 0)) [
  | inl even ↦ rw even refl
  | inr odd ↦
      let h' : 3 * orbit i p + 1 < long_limit = rw odd at h in
      rw odd (rw (lt→ltb (3 * orbit i p + 1) long_limit h') refl)
]

-- The sequence is at 1 only at its end.
pub one-end : (i k p : ℕ) → Ends i k → p ≤ k → (orbit i p == 1) ≡ (p == k)
one-end i k p e h = elim (ℕ_discrete p k) [
  | yes same ↦ rw same (rw e.at_end (sym ((==_iff k k).1 refl)))
  | no ne ↦
      let later = e.on_the_way p (omega (arith, h, ne)) in
      let a : (orbit i p == 1) ≡ false = ground (arith, later) in
      let b : (p == k) ≡ false = ground (arith, ne) in a ∙ sym b
]
