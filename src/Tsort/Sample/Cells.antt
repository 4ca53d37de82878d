-- ===== src/Tsort/Sample/Cells.antt =====
-- Cells of lists that were changed or joined, for hw07/hw07-assignment/tsort.c.
use cs.Base.{
  get_or-set, set, get_or-append, ℕ, ◌-◌, ◌<◌, ◌≡◌, ◌≢◌, refl, ◌∙◌, ap, List, [], ◌∷◌, ◌++◌, map,
  false, some, arith, ◌==◌, lt→ltb, le→not_ltb, ==_iff, length, get_or,
}

pub get_or-set_self :
    {A : Type 0} (xs : List A) (i : ℕ) (v d : A) → i < length xs → get_or (set xs i v) i d ≡ v
get_or-set_self xs i v d h = get_or-set xs i i v d h ∙ rw ((==_iff i i).1 refl) refl

pub get_or-set_other :
    {A : Type 0} (xs : List A) (i j : ℕ) (v d : A)
    → i < length xs
    → j ≢ i
    → get_or (set xs i v) j d ≡ get_or xs j d
get_or-set_other xs i j v d h ne =
    let e : (i == j) ≡ false = ground (arith, ne) in get_or-set xs i j v d h ∙ rw e refl

module _ {F : Type 0} where
  pub get_or-last :
      (d : F) (us : List F) (x : F) (i : ℕ) → length us ≡ i → get_or (us ++ x ∷ []) i d ≡ x
  get_or-last d us x i e =
      let at_end : i - length us ≡ 0 = omega (arith, e) in
      get_or-append us (x ∷ []) i d
      ∙ rw (le→not_ltb i (length us) (omega (arith, e))) (rw at_end refl)

  pub get_or-front :
      (d : F) (us vs : List F) (i : ℕ) → i < length us → get_or (us ++ vs) i d ≡ get_or us i d
  get_or-front d us vs i h = get_or-append us vs i d ∙ rw (lt→ltb i (length us) h) refl

  pub map_append : (us bs : List F) → map some (us ++ bs) ≡ map some us ++ map some bs
  map_append [] bs = refl
  map_append (x ∷ us) bs = ap (λ t. some x ∷ t) (map_append us bs)
