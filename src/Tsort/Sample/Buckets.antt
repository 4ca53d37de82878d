-- ===== src/Tsort/Sample/Buckets.antt =====
-- The numbers of hw07/hw07-assignment/tsort.c between the medians, sorted and put behind one another.
use cs.Base.{
  ℕ, zero, suc, ◌+◌, ◌≤◌, ◌<◌, ◌≡◌, ◌≢◌, refl, sym, ◌∙◌, ap, ap₂, subst, List, [], ◌∷◌, ◌++◌, Bool,
  true, false, not, inl, inr, arith, ℤ, pos, Bool-cases, length, All,
}
use cs.Base.{All-append, All-imp}
use cs.Tsort.Sample.{float_cmp}
use cs.Tsort.Vector.{chosen, between}
use cs.Tsort.Sample.Ordered.{
  bit, count, Ascending, IsOrder, IsSort, NotAbove, count-append, count-everything, count-All,
  All-count, Ascending-append, Ascending-imp,
}

module _ {F : Type 0} where
  pub chosen-All : (k : F → Bool) (xs : List F) → All (λ x. k x ≡ true) (chosen k xs)
  unfolding chosen
  chosen-All k [] = tt
  chosen-All k (x ∷ xs) = elim (Bool-cases (k x)) [
    | inl h ↦ rw h (h, chosen-All k xs)
    | inr h ↦ rw h (chosen-All k xs)
  ]

  pub count-chosen_all :
      (k p : F → Bool) (xs : List F) → All (λ x. k x ≡ true) xs → count p (chosen k xs) ≡ count p xs
  unfolding chosen count
  count-chosen_all k p [] all = refl
  count-chosen_all k p (x ∷ xs) (h, all) = rw h (omega (arith, count-chosen_all k p xs all))

  count-chosen_none :
      (k p : F → Bool) (xs : List F) → ((x : F) → k x ≡ false) → count p (chosen k xs) ≡ 0
  unfolding chosen count
  count-chosen_none k p [] none_in = refl
  count-chosen_none k p (x ∷ xs) none_in = rw (none_in x) (count-chosen_none k p xs none_in)

  -- Two tests that split a third one.
  count-chosen_split :
      (k k1 k2 p : F → Bool) (xs : List F)
      → ((x : F) → bit (k x) ≡ bit (k1 x) + bit (k2 x))
      → count p (chosen k xs) ≡ count p (chosen k1 xs) + count p (chosen k2 xs)
  unfolding chosen count
  count-chosen_split k k1 k2 p [] parts = refl
  count-chosen_split k k1 k2 p (x ∷ xs) parts =
      let step = count-chosen_split k k1 k2 p xs parts in
      let here = parts x in
      elim (Bool-cases (k x)) [
        | inl h ↦ elim (Bool-cases (k1 x)) [
          | inl h1 ↦ elim (Bool-cases (k2 x)) [
            | inl h2 ↦
                let e : 1 ≡ 2 = ap bit (sym h) ∙ here ∙ ap₂ (λ a b. bit a + bit b) h1 h2 in
                absurd (omega (arith, e))
            | inr h2 ↦ rw h (rw h1 (rw h2 (omega (arith, step))))
          ]
          | inr h1 ↦ elim (Bool-cases (k2 x)) [
            | inl h2 ↦ rw h (rw h1 (rw h2 (omega (arith, step))))
            | inr h2 ↦
                let e : 1 ≡ 0 = ap bit (sym h) ∙ here ∙ ap₂ (λ a b. bit a + bit b) h1 h2 in
                absurd (omega (arith, e))
          ]
        ]
        | inr h ↦ elim (Bool-cases (k1 x)) [
          | inl h1 ↦
              let e : 0 ≡ 1 + bit (k2 x) =
                ap bit (sym h) ∙ here ∙ ap (λ a. bit a + bit (k2 x)) h1 in
              absurd (omega (arith, e))
          | inr h1 ↦ elim (Bool-cases (k2 x)) [
            | inl h2 ↦
                let e : 0 ≡ 1 = ap bit (sym h) ∙ here ∙ ap₂ (λ a b. bit a + bit b) h1 h2 in
                absurd (omega (arith, e))
            | inr h2 ↦ rw h (rw h1 (rw h2 step))
          ]
        ]
      ]

module _ {F : Type 0} (at_least less : F → F → Bool) (qsort : (F → F → ℤ) → List F → List F)
    (o : IsOrder at_least less) (q : IsSort less qsort) where
  cmp_NotAbove : (x y : F) → float_cmp less x y ≢ pos 1 → less y x ≡ false
  unfolding float_cmp
  cmp_NotAbove x y h = elim (Bool-cases (less y x)) [
    | inl above ↦ absurd (h (rw above refl))
    | inr e ↦ e
  ]

  pub qsort-Ascending : (xs : List F) → Ascending (NotAbove less) (qsort (float_cmp less) xs)
  qsort-Ascending xs = Ascending-imp (qsort (float_cmp less) xs) cmp_NotAbove (q.sorts xs)

  pub length-qsort : (xs : List F) → length (qsort (float_cmp less) xs) ≡ length xs
  length-qsort xs =
      sym (count-everything (qsort (float_cmp less) xs))
      ∙ q.counts (λ _. true) xs
      ∙ count-everything xs

  pub qsort-All :
      (p : F → Bool) (xs : List F)
      → All (λ x. p x ≡ true) xs
      → All (λ x. p x ≡ true) (qsort (float_cmp less) xs)
  qsort-All p xs all =
      All-count p (qsort (float_cmp less) xs)
        (q.counts p xs ∙ count-All p xs all ∙ sym (length-qsort xs))

  -- The numbers from `a` on and below `c` are those below `b` and those from `b` on.
  between_split :
      (a b c x : F)
      → less b a ≡ false
      → less c b ≡ false
      → bit (between at_least less a c x)
        ≡ bit (between at_least less a b x) + bit (between at_least less b c x)
  between_split a b c x ab bc = rw (o.at_least_iff x a) (
      rw (o.at_least_iff x b) (elim (Bool-cases (less x b)) [
        | inl below ↦
            let below' : less x c ≡ true = elim (Bool-cases (less x c)) [
              | inl e ↦ e
              | inr e ↦ let e' = o.split x c b e bc in cc
            ] in
            rw below
              (rw below' (elim (Bool-cases (less x a)) [ inl e ↦ rw e refl | inr e ↦ rw e refl ]))
        | inr above ↦
            let above' : less x a ≡ false = o.split x b a above ab in
            rw above
              (rw above' (elim (Bool-cases (less x c)) [ inl e ↦ rw e refl | inr e ↦ rw e refl ]))
      ]))

  between_none : (a x : F) → between at_least less a a x ≡ false
  between_none a x =
      rw (o.at_least_iff x a)
        (elim (Bool-cases (less x a)) [ inl e ↦ rw e refl | inr e ↦ rw e refl ])

  pub between_below : (a b x : F) → between at_least less a b x ≡ true → less x b ≡ true
  between_below a b x h = elim (Bool-cases (at_least x a)) [
    | inl e ↦ rw e at h
    | inr e ↦ let h' : false ≡ true = rw e at h in cc
  ]

  pub between_above : (a b x : F) → between at_least less a b x ≡ true → less x a ≡ false
  between_above a b x h = elim (Bool-cases (less x a)) [
    | inl e ↦
        let k : at_least x a ≡ false = o.at_least_iff x a ∙ ap not e in
        let h' : false ≡ true = rw k at h in cc
    | inr e ↦ e
  ]

  less_le : (x y z : F) → less x y ≡ true → less z y ≡ false → less x z ≡ true
  less_le x y z h k = elim (Bool-cases (less x z)) [
    | inl e ↦ e
    | inr e ↦ let e' = o.split x z y e k in cc
  ]

  -- The sorted numbers of thread `i`, and those of the first `n` threads.
  module _ (m : ℕ → F) (xs : List F) where
    abbrev pub target : ℕ → List F
    target i = qsort (float_cmp less) (chosen (between at_least less (m i) (m (i + 1))) xs)

    unfoldable pub joined : ℕ → List F
    joined zero = []
    joined (suc n) = joined n ++ target n

    pub count-joined :
        (p : F → Bool) (n : ℕ)
        → ((k : ℕ) → k ≤ n → less (m k) (m 0) ≡ false)
        → ((k : ℕ) → k < n → less (m (k + 1)) (m k) ≡ false)
        → count p (joined n) ≡ count p (chosen (between at_least less (m 0) (m n)) xs)
    unfolding joined count
    count-joined p zero low up =
        sym (count-chosen_none (between at_least less (m 0) (m 0)) p xs (between_none (m 0)))
    count-joined p (suc n) low up =
        let e : n + 1 ≡ suc n = omega arith in
        let parts =
          count-chosen_split (between at_least less (m 0) (m (n + 1)))
            (between at_least less (m 0) (m n)) (between at_least less (m n) (m (n + 1))) p xs
            (λ x.
              between_split (m 0) (m n) (m (n + 1)) x (low n (omega arith)) (up n (omega arith))) in
        let before = count-joined p n (λ k h. low k (omega arith)) (λ k h. up k (omega arith)) in
        let here = q.counts p (chosen (between at_least less (m n) (m (n + 1))) xs) in
        let last = ap (λ k. count p (chosen (between at_least less (m 0) (m k)) xs)) e in
        omega (arith, count-append p (joined n) (target n), parts, before, here, last)

    target-above : (n : ℕ) → All (λ x. not (less x (m n)) ≡ true) (target n)
    target-above n =
        let k = between at_least less (m n) (m (n + 1)) in
        qsort-All (λ x. not (less x (m n))) (chosen k xs)
          (All-imp (chosen k xs) (λ x h. ap not (between_above (m n) (m (n + 1)) x h))
            (chosen-All k xs))

    joined-below :
        (n : ℕ)
        → ((k : ℕ) → k < n → less (m (k + 1)) (m k) ≡ false)
        → All (λ x. less x (m n) ≡ true) (joined n)
    unfolding joined
    joined-below zero up = tt
    joined-below (suc n) up =
        let e : n + 1 ≡ suc n = omega arith in
        let k = between at_least less (m n) (m (n + 1)) in
        let first =
          All-imp (joined n) (λ x h. less_le x (m n) (m (n + 1)) h (up n (omega arith)))
            (joined-below n (λ j h. up j (omega arith))) in
        let second =
          qsort-All (λ x. less x (m (n + 1))) (chosen k xs)
            (All-imp (chosen k xs) (λ x h. between_below (m n) (m (n + 1)) x h)
              (chosen-All k xs)) in
        subst (λ j. All (λ x. less x (m j) ≡ true) (joined n ++ target n)) e
          (All-append (λ x. less x (m (n + 1)) ≡ true) (joined n) (target n) first second)

    pub joined-Ascending :
        (n : ℕ)
        → ((k : ℕ) → k < n → less (m (k + 1)) (m k) ≡ false)
        → Ascending (NotAbove less) (joined n)
    unfolding joined Ascending
    joined-Ascending zero up = tt
    joined-Ascending (suc n) up =
        let up' : (k : ℕ) → k < n → less (m (k + 1)) (m k) ≡ false = λ k h. up k (omega arith) in
        let cross : (x : F) → less x (m n) ≡ true → All (λ y. less y x ≡ false) (target n) = λ x h.
          All-imp (target n)
            (λ y above. elim (Bool-cases (less y x)) [
              | inl e ↦
                  let t = o.trans y x (m n) e h in let f : not true ≡ true = rw t at above in cc
              | inr e ↦ e
            ])
            (target-above n) in
        Ascending-append (NotAbove less) (joined n) (target n) (joined-Ascending n up')
          (qsort-Ascending (chosen (between at_least less (m n) (m (n + 1))) xs))
          (All-imp (joined n) cross (joined-below n up'))
