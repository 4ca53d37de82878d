-- ===== src/Tsort/Extreme.antt =====
-- `floats_largest` and `floats_smallest`.
use cs.Base.{
  ℕ, ◌+◌, ◌≡◌, refl, sym, ◌∙◌, ap, subst, List, [], ◌∷◌, map, Bool, true, false, some, ◌⊎◌, inl,
  inr, arith, Bool-cases, length, All, take, drop,
}
use mathlib.Core.List.{Mem, mem-cons_of_mem, mem-cons_self}
use cs.Base.{ret, Succeeds, read, read-drop_cons}
use cs.Tsort.{Floats, number, best_from, floats_largest, floats_smallest}
use cs.Tsort.Vector.{Holds}

-- `better` is `<` or `>` of `float`: also with numbers that are none, no number is better than
-- itself, and what is better than a better one is better.
module _ {F : Type 0} (better : F → F → Bool) (irrefl : (x : F) → better x x ≡ false)
    (trans : (x y z : F) → better x y ≡ true → better y z ≡ true → better x z ≡ true) where
  -- What the loop has made of `best` at its end.
  abbrev pub Kept : F → List F → F → Type 0
  Kept best ys r = (r ≡ best) ⊎ ((better r best ≡ true) × Mem r ys)

  not_better :
      (x best r : F) (ys : List F) → better x best ≡ false → Kept best ys r → better x r ≡ false
  not_better x best r ys h (inl e) = ap (better x) e ∙ h
  not_better x best r ys h (inr (k, m)) = elim (Bool-cases (better x r)) [
    | inl t ↦ let t' : better x best ≡ true = trans x r best t k in absurd (ground arith)
    | inr f ↦ f
  ]

  raised : (y best r : F) (ys : List F) → better y best ≡ true → Kept y ys r → Kept best (y ∷ ys) r
  raised y best r ys h (inl e) =
      inr (ap (λ z. better z best) e ∙ h, subst (λ z. Mem z (y ∷ ys)) (sym e) mem-cons_self)
  raised y best r ys h (inr (k, m)) = inr (trans r y best k h, mem-cons_of_mem y m)

  left : (y best r : F) (ys : List F) → Kept best ys r → Kept best (y ∷ ys) r
  left y best r ys (inl e) = inl e
  left y best r ys (inr (k, m)) = inr (k, mem-cons_of_mem y m)

  pub best_from-Kept :
      (ys : List F) (i : ℕ) (fs : Floats F) (best : F)
      → take (length ys) (drop i fs.cells) ≡ map some ys
      → Succeeds
          (best_from better (length ys) i fs best)
          λ r. Kept best ys r × All (λ y. better y r ≡ false) ys
  unfolding best_from number
  best_from-Kept [] i fs best t = (best, refl, (inl refl, tt))
  best_from-Kept (y ∷ ys) i fs best t =
      let (found, later) = read-drop_cons fs.cells i (length ys) (some y) (map some ys) t in
      elim (Bool-cases (better y best)) [
        | inl b ↦
            let (r, run, (k, a)) = best_from-Kept ys (i + 1) fs y later in
            (r, rw (found, b) run, (raised y best r ys b k, (not_better y y r ys (irrefl y) k, a)))
        | inr b ↦
            let (r, run, (k, a)) = best_from-Kept ys (i + 1) fs best later in
            (r, rw (found, b) run, (left y best r ys k, (not_better y best r ys b k, a)))
      ]

  first_Mem : (x r : F) (xs : List F) → Kept x (x ∷ xs) r → Mem r (x ∷ xs)
  first_Mem x r xs (inl e) = subst (λ z. Mem z (x ∷ xs)) (sym e) mem-cons_self
  first_Mem x r xs (inr (k, m)) = m

  pub best-Mem :
      (fs : Floats F) (x : F) (xs : List F)
      → Holds fs (x ∷ xs)
      → (read fs.cells 0 ≡ ret (some x))
        × Succeeds
            (best_from better fs.size 0 fs x)
            λ r. Mem r (x ∷ xs) × All (λ y. better y r ≡ false) (x ∷ xs)
  best-Mem fs x xs h =
      let t : take (length (x ∷ xs)) (drop 0 fs.cells) ≡ map some (x ∷ xs) =
        ap (λ n. take n fs.cells) h.count ∙ h.written in
      let (found, later) = read-drop_cons fs.cells 0 (length xs) (some x) (map some xs) t in
      let (r, run, (k, a)) = best_from-Kept (x ∷ xs) 0 fs x t in
      (found, (r, ap (λ n. best_from better n 0 fs x) (sym h.count) ∙ run, (first_Mem x r xs k, a)))

module _ {F : Type 0} (less : F → F → Bool) (irrefl : (x : F) → less x x ≡ false)
    (trans : (x y z : F) → less x y ≡ true → less y z ≡ true → less x z ≡ true) where
  -- For numbers whose `<` is irreflexive and transitive, on a vector of one number at least,
  -- `floats_largest` and `floats_smallest` do not fault: the first returns a number of the vector
  -- that is below none of them, the second one that none of them is below.
  pub floats_largest-Mem :
      (fs : Floats F) (x : F) (xs : List F)
      → Holds fs (x ∷ xs)
      → (Succeeds
          (floats_largest less fs)
          λ r. Mem r (x ∷ xs) × All (λ y. less r y ≡ false) (x ∷ xs))
        × (Succeeds
            (floats_smallest less fs)
            λ r. Mem r (x ∷ xs) × All (λ y. less y r ≡ false) (x ∷ xs))
  unfolding floats_largest floats_smallest number
  floats_largest-Mem fs x xs h =
      let (found, (r, run, post)) =
        best-Mem (λ a b. less b a) irrefl (λ a b c p q. trans c b a q p) fs x xs h in
      let (found', (s, run', post')) = best-Mem less irrefl trans fs x xs h in
      ((r, rw found run, post), (s, rw found' run', post'))
