-- ===== src/Tsort/Tests.antt =====
-- A vector of three numbers on which the theorems are used.
use cs.Base.{◌≡◌, false, true}
use cs.Base.{ℕ, refl, [], ◌∷◌, Bool, none, some, arith, ltb, leb}
use cs.Base.{Succeeds}
use cs.Tsort.{Floats, in_range}
use cs.Tsort.Vector.{Holds, chosen, between, in_range-chosen}

-- Numbers as natural numbers.
abbrev samples : Floats ℕ
samples = record { size = 3; cap = 4; cells = some 5 ∷ some 1 ∷ some 7 ∷ none ∷ [] }

samples-Holds : Holds samples (5 ∷ 1 ∷ 7 ∷ [])
samples-Holds = record {
  room = omega arith;
  sized = refl;
  count = refl;
  fits = omega arith;
  written = refl;
}

abbrev at_least : ℕ → ℕ → Bool
at_least a b = leb b a

in_range-chosen_example :
    Succeeds
      (in_range at_least ltb samples 4 7)
      λ r. Holds r (chosen (between at_least ltb 4 7) (5 ∷ 1 ∷ 7 ∷ []))
in_range-chosen_example =
    in_range-chosen at_least ltb 4 7 samples (5 ∷ 1 ∷ 7 ∷ []) samples-Holds (omega arith)

ltb_irrefl : (x : ℕ) → ltb x x ≡ false
ltb_irrefl x = ground arith

ltb_trans : (x y z : ℕ) → ltb x y ≡ true → ltb y z ≡ true → ltb x z ≡ true
ltb_trans x y z h k = ground arith
