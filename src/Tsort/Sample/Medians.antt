-- ===== src/Tsort/Sample/Medians.antt =====
-- The samples and the medians of hw07/hw07-assignment/tsort.c.
use cs.Base.{
  int, lt→ltb, ◌^◌, length-append, ℕ, zero, suc, ◌+◌, ◌-◌, ◌*◌, ◌%◌, ◌≤◌, ◌<◌, ◌≡◌, refl, sym, ◌∙◌,
  subst, List, [], ◌∷◌, ◌++◌, Bool, true, false, inl, inr, arith, ℤ, ◌==◌, Bool-cases, dec_lt,
  ℕ_discrete, length, All, get_or,
}
use cs.Base.{int, lt→ltb, ◌^◌, Succeeds, ◌>>=◌, for_range-Succeeds, All-append, All-get_or}
use cs.Tsort.{Floats, floats_get, floats_push, floats_make}
use cs.Tsort.Vector.{Holds, between, floats_push-Holds, floats_make-Holds}
use cs.Tsort.Sample.{float_cmp, qsort_floats, take_samples, choose_medians, remainder}
use cs.Tsort.Sample.Ordered.{
  get_or-Ascending, get_or-Ascending, Ascending, IsOrder, IsSort, NotAbove,
}
use cs.Tsort.Sample.Buckets.{length-qsort, qsort-Ascending, qsort-All}
use cs.Tsort.Sample.Cells.{get_or-last, get_or-front}
use cs.Tsort.Sample.Vectors.{floats_get-Holds, qsort_floats-Holds}
use cs.Tsort.Sample.Buckets.{between_below, between_above}

module _ {F : Type 0} (at_least less : F → F → Bool) (qsort : (F → F → ℤ) → List F → List F)
    (o : IsOrder at_least less) (q : IsSort less qsort) (zero_float infinity : F) (random : ℕ → ℕ)
    (d : F) (positive : less zero_float infinity ≡ true) where
  abbrev pub AllBetween : List F → Type 0
  AllBetween = All (λ x. between at_least less zero_float infinity x ≡ true)

  -- The first samples are numbers of the input.
  record Sampled (i : ℕ) (r : Floats F) : Type 0 where
    samples : List F
    holds : Holds r samples
    samples_count : length samples ≡ i
    within : AllBetween samples

  take_samples-Sampled :
      (fs : Floats F) (xs : List F) (n : ℕ)
      → Holds fs xs
      → 0 < length xs
      → length xs < 2 ^ 31
      → AllBetween xs
      → Succeeds (take_samples at_least less qsort zero_float infinity random fs n) (Sampled n)
  unfolding take_samples remainder
  take_samples-Sampled fs xs n h some_x small all =
      let nonzero : (fs.size == 0) ≡ false = ground (arith, h.count, some_x) in
      for_range-Succeeds Sampled
        (λ i sampled.
          remainder (random i) fs.size >>= int >>= λ loc. floats_get fs loc >>= floats_push sampled)
        n
        (λ i s lt p.
          let loc = random i % fs.size in
          let inside : loc < length xs = omega (arith, h.count, some_x) in
          let found = floats_get-Holds fs xs loc d h inside in
          let (s', run, holds') = floats_push-Holds s p.samples (get_or xs loc d) p.holds in
          (
            s',
            rw nonzero (rw (lt→ltb loc (2 ^ 31) (omega (arith, inside, small))) (rw found run)),
            record {
              samples = p.samples ++ get_or xs loc d ∷ [];
              holds = holds';
              samples_count =
                  omega (arith, length-append p.samples (get_or xs loc d ∷ []), p.samples_count);
              within =
                  All-append _ p.samples (get_or xs loc d ∷ []) p.within
                    (All-get_or _ xs loc d inside all, tt);
            },
          ))
        n 0 floats_make (omega arith)
        (record { samples = []; holds = floats_make-Holds; samples_count = refl; within = tt })

  -- Zero, and then every third sample, from the second on.
  unfoldable first_medians : List F → ℕ → List F
  first_medians ss zero = zero_float ∷ []
  first_medians ss (suc k) = first_medians ss k ++ get_or ss (3 * k + 1) d ∷ []

  abbrev median_at : List F → ℕ → F
  median_at ss zero = zero_float
  median_at ss (suc k) = get_or ss (3 * k + 1) d

  length-first_medians : (ss : List F) (k : ℕ) → length (first_medians ss k) ≡ suc k
  unfolding first_medians
  length-first_medians ss zero = refl
  length-first_medians ss (suc k) = omega (
    arith,
    length-append (first_medians ss k) (get_or ss (3 * k + 1) d ∷ []),
    length-first_medians ss k,
  )

  get_or-first_medians :
      (ss : List F) (k j : ℕ) → j ≤ k → get_or (first_medians ss k) j d ≡ median_at ss j
  unfolding first_medians
  get_or-first_medians ss zero j h = let e : j ≡ zero = omega arith in rw e refl
  get_or-first_medians ss (suc k) j h = elim (ℕ_discrete j (suc k)) [
    | yes e ↦ rw e (
        get_or-last d (first_medians ss k) (get_or ss (3 * k + 1) d) (suc k)
          (length-first_medians ss k))
    | no ne ↦
        get_or-front d (first_medians ss k) (get_or ss (3 * k + 1) d ∷ []) j
          (omega (arith, length-first_medians ss k, h, ne))
        ∙ get_or-first_medians ss k j (omega (arith, h, ne))
  ]

  choose_medians-first :
      (sampled : Floats F) (ss : List F) (n : ℕ)
      → Holds sampled ss
      → 0 < n
      → length ss ≡ 3 * (n - 1)
      → Succeeds
          (choose_medians at_least less qsort zero_float infinity random sampled n)
          λ r. Holds r (first_medians ss (n - 1) ++ infinity ∷ [])
  unfolding choose_medians first_medians
  choose_medians-first sampled ss n h some_n size =
      let (first, run1, h1) = floats_push-Holds floats_make [] zero_float floats_make-Holds in
      let (r2, run2, h2) =
        for_range-Succeeds (λ k r. Holds r (first_medians ss k))
          (λ k medians. floats_get sampled (3 * k + 1) >>= floats_push medians) (n - 1)
          (λ k s lt p.
            let (s', run, p') =
              floats_push-Holds s (first_medians ss k) (get_or ss (3 * k + 1) d) p in
            let e : k + 1 ≡ suc k = omega arith in
            (
              s',
              rw (floats_get-Holds sampled ss (3 * k + 1) d h (omega (arith, size, lt))) run,
              subst (λ j. Holds s' (first_medians ss j)) (sym e) p',
            ))
          (n - 1) 0 first (omega arith) h1 in
      let (r3, run3, h3) = floats_push-Holds r2 (first_medians ss (n - 1)) infinity h2 in
      (r3, rw run1 (rw run2 run3), h3)

  -- What the threads are told: the medians are ascending from zero to infinity.
  pub record Chosen (n : ℕ) (medians : Floats F) : Type 0 where
    pub ms : List F
    pub holds : Holds medians ms
    pub medians_count : length ms ≡ n + 1
    pub from : get_or ms 0 d ≡ zero_float
    pub to : get_or ms n d ≡ infinity
    pub low : (k : ℕ) → k ≤ n → less (get_or ms k d) (get_or ms 0 d) ≡ false
    pub up : (k : ℕ) → k < n → less (get_or ms (k + 1) d) (get_or ms k d) ≡ false

  above_of_less : (x y : F) → less x y ≡ true → less y x ≡ false
  above_of_less x y h = elim (Bool-cases (less y x)) [
    | inl e ↦ let t = o.trans x y x h e in let f = o.irrefl x in cc
    | inr e ↦ e
  ]

  between_zero : between at_least less zero_float infinity zero_float ≡ true
  between_zero = rw (o.at_least_iff zero_float zero_float) (rw (o.irrefl zero_float) positive)

  module _ (ss : List F) (n : ℕ) (some_n : 0 < n) (size : length ss ≡ 3 * (n - 1))
      (sorted : Ascending (NotAbove less) ss) (within : AllBetween ss) where
    abbrev all_medians : List F
    all_medians = first_medians ss (n - 1) ++ infinity ∷ []

    get_or-all_medians : (k : ℕ) → k < n → get_or all_medians k d ≡ median_at ss k
    get_or-all_medians k h =
        get_or-front d (first_medians ss (n - 1)) (infinity ∷ []) k
          (omega (arith, length-first_medians ss (n - 1)))
        ∙ get_or-first_medians ss (n - 1) k (omega arith)

    last_median : get_or all_medians n d ≡ infinity
    last_median =
        get_or-last d (first_medians ss (n - 1)) infinity n
          (omega (arith, length-first_medians ss (n - 1), some_n))

    median_between :
        (k : ℕ) → k < n → between at_least less zero_float infinity (median_at ss k) ≡ true
    median_between zero h = between_zero
    median_between (suc k) h = All-get_or _ ss (3 * k + 1) d (omega (arith, size, h)) within

    median_up : (k : ℕ) → suc k < n → less (median_at ss (suc k)) (median_at ss k) ≡ false
    median_up zero h =
        between_above at_least less qsort o q zero_float infinity _ (median_between 1 h)
    median_up (suc k) h =
        get_or-Ascending (NotAbove less) ss (3 * k + 1) (3 * suc k + 1) d sorted (omega arith)
          (omega (arith, size, h))

    medians_low : (k : ℕ) → k ≤ n → less (get_or all_medians k d) (get_or all_medians 0 d) ≡ false
    medians_low k h = rw (get_or-all_medians 0 some_n) (elim (dec_lt k n) [
      | yes lt ↦
          rw (get_or-all_medians k lt)
            (between_above at_least less qsort o q zero_float infinity _ (median_between k lt))
      | no ge ↦
          let e : k ≡ n = omega (arith, h, ge) in
          rw e (rw last_median (above_of_less zero_float infinity positive))
    ])

    medians_up :
        (k : ℕ) → k < n → less (get_or all_medians (k + 1) d) (get_or all_medians k d) ≡ false
    medians_up k h = rw (get_or-all_medians k h) (elim (dec_lt (suc k) n) [
      | yes lt ↦
          let e : k + 1 ≡ suc k = omega arith in
          rw e (rw (get_or-all_medians (suc k) lt) (median_up k lt))
      | no ge ↦
          let e : k + 1 ≡ n = omega (arith, h, ge) in
          rw e (
            rw last_median (
              above_of_less _ infinity
                (between_below at_least less qsort o q zero_float infinity _ (median_between k h))))
    ])

    all_medians-Chosen : (medians : Floats F) → Holds medians all_medians → Chosen n medians
    all_medians-Chosen medians h = record {
      ms = all_medians;
      holds = h;
      medians_count = omega (
        arith,
        length-append (first_medians ss (n - 1)) (infinity ∷ []),
        length-first_medians ss (n - 1),
        some_n,
      );
      from = get_or-all_medians 0 some_n;
      to = last_median;
      low = medians_low;
      up = medians_up;
    }

  -- Sampling, sorting the samples and choosing do not fault.
  pub medians-Chosen :
      (fs : Floats F) (xs : List F) (n : ℕ)
      → Holds fs xs
      → 0 < length xs
      → length xs < 2 ^ 31
      → AllBetween xs
      → 0 < n
      → Succeeds
          (take_samples at_least less qsort zero_float infinity random fs (3 * (n - 1)))
          λ samples. Succeeds (qsort_floats qsort less samples) λ sampled.
            Succeeds
              (choose_medians at_least less qsort zero_float infinity random sampled n)
              (Chosen n)
  medians-Chosen fs xs n h some_x small all some_n =
      let (r1, run1, s) = take_samples-Sampled fs xs (3 * (n - 1)) h some_x small all in
      let (r2, run2, h2) = qsort_floats-Holds at_least less qsort o q r1 s.samples s.holds in
      let ss = qsort (float_cmp less) s.samples in
      let size = length-qsort at_least less qsort o q s.samples ∙ s.samples_count in
      let (r3, run3, h3) = choose_medians-first r2 ss n h2 some_n size in
      (
        r1,
        run1,
        (
          r2,
          run2,
          (
            r3,
            run3,
            all_medians-Chosen ss n some_n size (qsort-Ascending at_least less qsort o q s.samples)
                (qsort-All at_least less qsort o q (between at_least less zero_float infinity)
                  s.samples s.within)
                r3 h3,
          ),
        ),
      )
