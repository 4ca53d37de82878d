-- ===== src/Tsort/Sample/Threads.antt =====
-- Threads that take one step each, in any order.
use cs.Base.{ℕ, ◌<◌, ◌≡◌, refl, sym, subst, List, [], ◌∷◌, ◌⊎◌, inl, inr, length, All}
use cs.Base.{Succeeds, Outcome}
use cs.Tsort.Sample.{each}

unfoldable pub Occurs : ℕ → List ℕ → Type 0
Occurs j [] = ⊥
Occurs j (i ∷ is) = (j ≡ i) ⊎ Occurs j is

-- Each of the threads below `n` once.
pub record IsOrderOf (n : ℕ) (is : List ℕ) : Type 0 where
  pub bounded : All (λ i. i < n) is
  pub once : length is ≡ n
  pub occurs : (i : ℕ) → i < n → Occurs i is

-- If the step of a thread returns under an invariant, does the work of the thread and keeps that of the others, then all
-- have done their work in the end.
pub each-Succeeds {ℓ κ} :
    {S : Type ℓ} (B : S → Type κ) (P : S → ℕ → Type κ) (n : ℕ) (step : S → ℕ → Outcome S)
    → ((s : S) (i : ℕ)
        → i < n
        → B s
        → Succeeds (step s i) λ s'. B s' × P s' i × ((j : ℕ) → j < n → P s j → P s' j))
    → (is : List ℕ) (s : S) → All (λ i. i < n) is
    → B s
    → Succeeds (each step is s) λ s'. B s' × ((j : ℕ) → j < n → P s j ⊎ Occurs j is → P s' j)
unfolding each Occurs
each-Succeeds B P n step keep [] s all b =
    (s, refl, (b, λ j lt h. elim h [ inl p ↦ p | inr o ↦ absurd o ]))
each-Succeeds B P n step keep (i ∷ is) s (lt_i, all) b =
    let (s1, run1, (b1, p1, kept)) = keep s i lt_i b in
    let (s2, run2, (b2, rest)) = each-Succeeds B P n step keep is s1 all b1 in
    (
      s2,
      rw run1 run2,
      (
        b2,
        λ j lt h. rest j lt (elim h [
          | inl p ↦ inl (kept j lt p)
          | inr o ↦ elim o [ inl e ↦ inl (subst (P s1) (sym e) p1) | inr later ↦ inr later ]
        ]),
      ),
    )
