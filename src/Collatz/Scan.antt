-- ===== src/Collatz/Scan.antt =====
-- A scan of the tasks of chal2/starter-ch02/ivec_main.c.
use cs.Base.{
  minus_one, ℕ, suc, ◌+◌, ◌-◌, ◌*◌, ◌%◌, ◌≤◌, ◌<◌, ◌≡◌, ◌≢◌, refl, sym, ◌∙◌, ap, subst, List, Bool,
  true, inl, inr, arith, pos, ◌==◌, if◌then◌else◌, ==_iff, Bool-cases, dec_lt, ℕ_discrete, length,
  get_or,
}
use cs.Base.{Succeeds, store-set, for_range-Succeeds, read-get_or, set, length-set}
use cs.Tsort.Sample.Cells.{get_or-set_self, get_or-set_other}
use cs.Collatz.{NumTask, scan_one, scan_and_iterate}
use cs.Collatz.Orbit.{Ends}
use cs.Collatz.Visits.{Visited, visit-After}
use native.Mathlib.Nat.{mod-lt, mod-eq_of_lt, mod-add-mod, add-mod_right}

-- A scan that starts anywhere gets to every task.
pub reach_all : (n base c : ℕ) → c < n → (j : ℕ) × (0 < j) × (j ≤ n) × ((base + j) % n ≡ c)
reach_all n base c h =
    let r = base % n in
    let r_lt : r < n = mod-lt base (omega arith) in
    elim (dec_lt r c) [
      | yes lt ↦
          let e : r + (c - r) ≡ c = omega arith in
          (
            c - r,
            omega arith,
            omega (arith, h),
            sym (mod-add-mod base n (c - r)) ∙ ap (λ x. x % n) e ∙ mod-eq_of_lt h,
          )
      | no ge ↦
          let e : r + (c + n - r) ≡ c + n = omega (arith, r_lt) in
          (
            c + n - r,
            omega (arith, r_lt),
            omega (arith, ge),
            sym (mod-add-mod base n (c + n - r))
                ∙ ap (λ x. x % n) e
                ∙ add-mod_right c n
                ∙ mod-eq_of_lt h,
          )
    ]

-- A task that nobody holds and that was visited at least `n` times.
pub record Good (i k n : ℕ) (t : NumTask) : Type 0 where
  pub unclaimed : t.dibs ≡ 0
  pub times : ℕ
  pub enough : n ≤ times
  pub visited : Visited i k times t

-- Numbers from 1 below `top`, the lengths of their sequences, and a place for what is not a task.
module _ (top : ℕ) (k : ℕ → ℕ) (ends : (i : ℕ) → 0 < i → i < top → Ends i (k i)) (d : NumTask) where
  abbrev pub AllGood : ℕ → List NumTask → Type 0
  AllGood n tasks =
      ((get_or tasks 0 d).steps ≡ minus_one)
      × ((i : ℕ) → 0 < i → i < top → Good i (k i) n (get_or tasks i d))

  abbrev pub Finished : List NumTask → ℕ → Type 0
  Finished tasks i = (get_or tasks i d).steps ≡ pos (k i)

  -- What a round of the scan does: task `ii` was visited, the others are as they were.
  record Rounded (n ii : ℕ) (start : List NumTask × ℕ) (r : List NumTask × ℕ) : Type 0 where
    size : length r.0 ≡ top
    good : AllGood n r.0
    again : Good ii (k ii) (n + 1) (get_or r.0 ii d)
    others : (j : ℕ) → j ≢ ii → get_or r.0 j d ≡ get_or start.0 j d
    is_done : Bool
    count : r.1 ≡ (if is_done then start.1 + 1 else start.1)
    finished : is_done ≡ true → Finished r.0 ii
    late : k ii ≤ 50 * n → is_done ≡ true

  scan_one-Rounded :
      (n ii : ℕ) (tasks : List NumTask) (c : ℕ)
      → 0 < ii
      → ii < top
      → length tasks ≡ top
      → AllGood n tasks
      → Succeeds (scan_one ii (tasks, c)) (Rounded n ii (tasks, c))
  unfolding scan_one
  scan_one-Rounded n ii tasks c some_i below size all =
      let g = all.1 ii some_i below in
      let task = get_or tasks ii d in
      let mine : NumTask = record task { dibs = 1 } in
      let inside : ii < length tasks = omega (arith, size, below) in
      let free : (task.dibs == 0) ≡ true = ap (λ x. x == 0) g.unclaimed in
      let (r, run, after) = visit-After ii (k ii) (ends ii some_i below) g.times mine (record {
        holds = g.visited.holds;
        not_wrong = g.visited.not_wrong;
        counted = g.visited.counted;
      }) in
      let back : NumTask = record r.0 { dibs = 0 } in
      let claimed = set tasks ii mine in
      let inside' : ii < length claimed = omega (arith, length-set tasks ii mine, inside) in
      let here : get_or (set claimed ii back) ii d ≡ back =
        get_or-set_self claimed ii back d inside' in
      let there : (j : ℕ) → j ≢ ii → get_or (set claimed ii back) j d ≡ get_or tasks j d = λ j ne.
        get_or-set_other claimed ii j back d inside' ne
        ∙ get_or-set_other tasks ii j mine d inside ne in
      let v : Visited ii (k ii) (suc g.times) back = record {
        holds = after.visited.holds;
        not_wrong = after.visited.not_wrong;
        counted = after.visited.counted;
      } in
      let after_all = set claimed ii back in
      let good_back : (m : ℕ) → m ≤ suc g.times → Good ii (k ii) m back =
        λ m h. record { unclaimed = refl; times = suc g.times; enough = h; visited = v } in
      (
        (set claimed ii back, if r.1 then c + 1 else c),
        rw (read-get_or tasks ii d inside) (
            rw free (
              rw (store-set tasks ii mine inside)
                (rw run (rw (store-set claimed ii back inside') refl)))),
        record {
          size = length-set claimed ii back ∙ length-set tasks ii mine ∙ size;
          good = (
            ap (λ t. t.steps) (there 0 (λ e. absurd (omega (arith, e, some_i)))) ∙ all.0,
            λ i p q. elim (ℕ_discrete i ii) [
              | yes e ↦
                  subst (λ j. Good j (k j) n (get_or after_all j d)) (sym e)
                    (subst (Good ii (k ii) n) (sym here) (good_back n (omega (arith, g.enough))))
              | no ne ↦ subst (Good i (k i) n) (sym (there i ne)) (all.1 i p q)
            ],
          );
          again =
              subst (Good ii (k ii) (n + 1)) (sym here)
                (good_back (n + 1) (omega (arith, g.enough)));
          others = there;
          is_done = r.1;
          count = refl;
          finished = λ e. ap (λ t. t.steps) here ∙ after.finished e;
          late = λ h. after.late (omega (arith, h, g.enough));
        },
      )

  module _ (n base : ℕ) (some_tasks : 1 < top) where
    abbrev at : ℕ → ℕ
    at i0 = 1 + (base + i0) % (top - 1)

    at_lt : (i0 : ℕ) → at i0 < top
    at_lt i0 =
        let h : (base + i0) % (top - 1) < top - 1 = mod-lt (base + i0) (omega arith) in
        omega (arith, h, some_tasks)

    -- In front of round `i0` of the scan that comes after `n` others.
    record Scanning (i0 : ℕ) (s : List NumTask × ℕ) : Type 0 where
      size : length s.0 ≡ top
      good : AllGood n s.0
      again : (j : ℕ) → 0 < j → j < i0 → Good (at j) (k (at j)) (n + 1) (get_or s.0 (at j) d)
      bound : s.1 < i0
      finished : suc s.1 ≡ i0 → (j : ℕ) → 0 < j → j < i0 → Finished s.0 (at j)
      late : ((i : ℕ) → 0 < i → i < top → k i ≤ 50 * n) → suc s.1 ≡ i0

    earlier : (i0 j : ℕ) → at j ≢ at i0 → j < i0 + 1 → j < i0
    earlier i0 j ne h = elim (ℕ_discrete j i0) [
      | yes e ↦ absurd (ne (ap (λ x. at x) e))
      | no other ↦ omega (arith, h, other)
    ]

    Scanning-step :
        (i0 : ℕ) (s r : List NumTask × ℕ)
        → Scanning i0 s
        → Rounded n (at i0) s r
        → Scanning (i0 + 1) r
    Scanning-step i0 s r g p = record {
      size = p.size;
      good = p.good;
      again = λ j some_j h. elim (ℕ_discrete (at j) (at i0)) [
        | yes e ↦ subst (λ x. Good x (k x) (n + 1) (get_or r.0 x d)) (sym e) p.again
        | no ne ↦
            subst (Good (at j) (k (at j)) (n + 1)) (sym (p.others (at j) ne))
              (g.again j some_j (earlier i0 j ne h))
      ];
      bound = elim (Bool-cases p.is_done) [
        | inl e ↦
            let c : r.1 ≡ s.1 + 1 = p.count ∙ ap (λ b. if b then s.1 + 1 else s.1) e in
            omega (arith, c, g.bound)
        | inr e ↦
            let c : r.1 ≡ s.1 = p.count ∙ ap (λ b. if b then s.1 + 1 else s.1) e in
            omega (arith, c, g.bound)
      ];
      finished = λ whole j some_j h. elim (Bool-cases p.is_done) [
        | inl e ↦
            let c : r.1 ≡ s.1 + 1 = p.count ∙ ap (λ b. if b then s.1 + 1 else s.1) e in
            elim (ℕ_discrete (at j) (at i0)) [
              | yes same ↦ subst (λ x. Finished r.0 x) (sym same) (p.finished e)
              | no ne ↦
                  ap (λ t. t.steps) (p.others (at j) ne)
                  ∙ g.finished (omega (arith, c, whole)) j some_j (earlier i0 j ne h)
            ]
        | inr e ↦
            let c : r.1 ≡ s.1 = p.count ∙ ap (λ b. if b then s.1 + 1 else s.1) e in
            absurd (omega (arith, c, whole, g.bound))
      ];
      late = λ all.
          let c : r.1 ≡ s.1 + 1 =
            p.count
            ∙ ap (λ b. if b then s.1 + 1 else s.1)
                (p.late (all (at i0) (omega arith) (at_lt i0))) in
          omega (arith, c, g.late all);
    }

    -- A scan visits every task once more, and is done only if all have their steps.
    pub record Scanned (r : List NumTask × Bool) : Type 0 where
      pub size : length r.0 ≡ top
      pub good : AllGood (n + 1) r.0
      pub finished : r.1 ≡ true → (i : ℕ) → 0 < i → i < top → Finished r.0 i
      pub late : ((i : ℕ) → 0 < i → i < top → k i ≤ 50 * n) → r.1 ≡ true

    pub scan_and_iterate-Scanned :
        (tasks : List NumTask)
        → length tasks ≡ top
        → AllGood n tasks
        → Succeeds (scan_and_iterate top base tasks) Scanned
    unfolding scan_and_iterate
    scan_and_iterate-Scanned tasks size good =
        let (s, run, g) =
          for_range-Succeeds Scanning (λ i0. scan_one (at i0)) top
            (λ i0 s h g.
              let (r, run, p) =
                scan_one-Rounded n (at i0) s.0 s.1 (omega arith) (at_lt i0) g.size g.good in
              (r, run, Scanning-step i0 s r g p))
            (top - 1) 1 (tasks, 0) (omega (arith, some_tasks))
            (record {
              size = size;
              good = good;
              again = λ j some_j h. absurd (omega arith);
              bound = omega arith;
              finished = λ _ j some_j h. absurd (omega arith);
              late = λ _. refl;
            }) in
        let place : (i : ℕ) → 0 < i → i < top → (j : ℕ) × (0 < j) × (j < top) × (at j ≡ i) =
          λ i some_i h.
            let (j, some_j, last, e) =
              reach_all (top - 1) base (i - 1) (omega (arith, some_i, h)) in
            (j, some_j, omega (arith, last, some_tasks), omega (arith, e, some_i)) in
        (
          (s.0, s.1 == (top - 1)),
          rw run refl,
          record {
            size = g.size;
            good = (
              g.good.0,
              λ i some_i h.
                  let (j, some_j, below, e) = place i some_i h in
                  subst (λ x. Good x (k x) (n + 1) (get_or s.0 x d)) e (g.again j some_j below),
            );
            finished = λ e i some_i h.
                let (j, some_j, below, e') = place i some_i h in
                let whole = (==_iff s.1 (top - 1)).0 e in
                subst (λ x. Finished s.0 x) e'
                  (g.finished (omega (arith, whole, some_tasks)) j some_j below);
            late = λ all. (==_iff s.1 (top - 1)).1 (omega (arith, g.late all));
          },
        )
