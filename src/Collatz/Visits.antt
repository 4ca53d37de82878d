-- ===== src/Collatz/Visits.antt =====
-- The visits of a task of chal2/starter-ch02/ivec_main.c.
use cs.Base.{
  ◌≤◌, ◌*◌, ℕ, zero, suc, ◌+◌, ◌-◌, ◌*◌, ◌/◌, ◌%◌, ◌^◌, ◌≤◌, ◌<◌, min, max, ◌≡◌, ◌≢◌, ◌↔◌, refl,
  sym, ◌∙◌, ap, ap₂, subst, List, [], ◌∷◌, ◌++◌, map, reverse, Bool, true, false, not, ◌&&◌, ◌||◌,
  Option, none, some, ◌⊎◌, inl, inr, arith, ℤ, pos, negsuc, minus_one, no_entry, already_exists,
  ltb, leb, ◌==◌, if◌then◌else◌, ltb→lt, lt→ltb, le→not_ltb, leb→le, le→leb, lt→not_leb, not_leb→lt,
  not_ltb→le, ==_iff, Bool-cases, Option-cases, dec_lt, ℕ_discrete, length, All, get_or, take, drop,
  replicate,
}
use cs.Base.{◌≤◌, ◌*◌, Outcome, ret, ◌>>=◌, Succeeds, get_or-append}
use cs.Tsort.Vector.{Holds}
use cs.Collatz.{
  ivec_last, Ivec, NumTask, iterate_from, iterate, make_task, less_one, is_minus_one, visit,
}
use cs.Collatz.Orbit.{orbit, sequence, Ends, length-sequence, collatz_step-orbit, one-end}
use cs.Collatz.Vector.{ivec_push-bound, ivec_push-Holds, ivec_last-get_or, ivec_copy-Holds}

get_or-sequence : (i p : ℕ) → get_or (sequence i p) p 0 ≡ orbit i p
unfolding sequence orbit
get_or-sequence i zero = refl
get_or-sequence i (suc p) =
    let at_end : suc p - length (sequence i p) ≡ 0 = omega (arith, length-sequence i p) in
    get_or-append (sequence i p) (orbit i (suc p) ∷ []) (suc p) 0
    ∙ rw (le→not_ltb (suc p) (length (sequence i p)) (omega (arith, length-sequence i p)))
        (rw at_end refl)

-- A vector with the members up to `p`, and not much more room.
abbrev pub Keeps : ℕ → ℕ → Ivec → Type 0
Keeps i p xs = Holds xs (sequence i p) × (xs.cap ≤ 2 * suc p + 4)

module _ (i k : ℕ) where
  -- A task after `n` visits: 50 members more with each of them, up to the first 1. A visit behind the
  -- one that found the 1 counts the steps.
  pub record Visited (n : ℕ) (t : NumTask) : Type 0 where
    pub holds : Keeps i (min k (50 * n)) t.vals
    pub not_wrong : (t.steps ≡ minus_one) ⊎ (t.steps ≡ pos k)
    pub counted : k + 50 ≤ 50 * n → t.steps ≡ pos k

  pub make_task-Visited :
      Succeeds (make_task i) λ t. Visited 0 t × (t.dibs ≡ 0) × (t.steps ≡ minus_one)
  unfolding make_task sequence cs.Base.store
  make_task-Visited =
      let zero_min : min k 0 ≡ 0 = omega arith in
      (
        _,
        refl,
        (
          record {
            holds = rw zero_min (
              record {
                room = omega arith;
                sized = refl;
                count = refl;
                fits = omega arith;
                written = refl;
              },
              omega arith,
            );
            not_wrong = inl refl;
            counted = λ h. absurd (omega arith);
          },
          refl,
          refl,
        ),
      )

  -- What a visit does to the task `t`.
  pub record After (n : ℕ) (t : NumTask) (r : NumTask × Bool) : Type 0 where
    pub visited : Visited (suc n) r.0
    pub finished : r.1 ≡ true → r.0.steps ≡ pos k
    pub late : k ≤ 50 * n → r.1 ≡ true

module _ (i k : ℕ) (ends : Ends i k) where
  last_lem : (xs : Ivec) (p : ℕ) → Holds xs (sequence i p) → ivec_last xs ≡ ret (orbit i p)
  last_lem xs p h =
      ivec_last-get_or xs (sequence i p) p h (length-sequence i p) ∙ ap ret (get_or-sequence i p)

  -- The rounds of `iterate` push the members up to the first 1.
  iterate_from-Holds :
      (n p vv : ℕ) (xs : Ivec)
      → p ≤ k
      → (vv == 1) ≡ (p == k)
      → Keeps i p xs
      → Succeeds (iterate_from n vv xs) (Keeps i (min k (p + n)))
  unfolding iterate_from sequence
  iterate_from-Holds zero p vv xs h e holds =
      let same : min k (p + 0) ≡ p = omega arith in (xs, refl, rw same holds)
  iterate_from-Holds (suc n) p vv xs h e holds = elim (ℕ_discrete p k) [
    | yes p_k ↦
        let stop : (vv == 1) ≡ true = e ∙ (==_iff p k).1 p_k in
        let same : min k (p + suc n) ≡ p = omega (arith, p_k) in (xs, rw stop refl, rw same holds)
    | no ne ↦
        let go : (vv == 1) ≡ false = e ∙ (let b : (p == k) ≡ false = ground (arith, ne) in b) in
        let step = collatz_step-orbit i p (ends.small (suc p) (omega (arith, h, ne))) in
        let (pushed, run, holds') = ivec_push-Holds xs (sequence i p) (orbit i (suc p)) holds.0 in
        let bound =
          ivec_push-bound xs pushed (sequence i p) (orbit i (suc p)) holds.0
            (omega (arith, holds.1, length-sequence i p)) run in
        let (r, run', holds'') =
          iterate_from-Holds n (suc p) (orbit i (suc p)) pushed (omega (arith, h, ne))
            (one-end i k (suc p) ends (omega (arith, h, ne)))
            (holds', omega (arith, bound, length-sequence i p)) in
        let e' : min k (suc p + n) ≡ min k (p + suc n) = omega arith in
        (
          r,
          rw go (rw (last_lem xs p holds.0) (rw step (rw run run'))),
          subst (λ m. Keeps i m r) e' holds'',
        )
  ]

  -- The visit of a task that is not at its 1 yet.
  visit_on :
      (n : ℕ) (t : NumTask) → 50 * n < k → Visited i k n t → Succeeds (visit t) (After i k n t)
  unfolding visit iterate
  visit_on n t h v =
      let p : ℕ = 50 * n in
      let at : min k (50 * n) ≡ p = omega (arith, h) in
      let holds = subst (λ m. Keeps i m t.vals) at v.holds in
      let big : ltb 1 (orbit i p) ≡ true = lt→ltb 1 (orbit i p) (ends.on_the_way p h) in
      let (xs, run, (copied, cap)) =
        ivec_copy-Holds t.vals (sequence i p) holds.0 (omega (arith, holds.1, ends.short, h)) in
      let start : (0 == 1) ≡ (p == k) = (let b : (p == k) ≡ false = ground (arith, h) in sym b) in
      let (ys, run', holds') =
        iterate_from-Holds 50 p 0 xs (omega (arith, h)) start
          (copied, omega (arith, cap, holds.1)) in
      let there : min k (p + 50) ≡ min k (50 * suc n) = omega arith in
      (
        (record t { vals = ys }, false),
        rw (last_lem t.vals p holds.0) (rw big (rw run (rw run' refl))),
        record {
          visited = record {
            holds = subst (λ m. Keeps i m ys) there holds';
            not_wrong = v.not_wrong;
            counted = λ late. absurd (omega (arith, late, h));
          };
          finished = λ e. let e' : false ≡ true = e in cc;
          late = λ late. absurd (omega (arith, late, h));
        },
      )

  -- The visit of one that is.
  visit_end :
      (n : ℕ) (t : NumTask) → k ≤ 50 * n → Visited i k n t → Succeeds (visit t) (After i k n t)
  unfolding visit less_one is_minus_one
  visit_end n t h v =
      let at : min k (50 * n) ≡ k = omega (arith, h) in
      let holds = subst (λ m. Keeps i m t.vals) at v.holds in
      let last = last_lem t.vals k holds.0 ∙ ap ret ends.at_end in
      let size : t.vals.size ≡ suc k = sym holds.0.count ∙ length-sequence i k in
      let steps' = if is_minus_one t.steps then less_one t.vals.size else t.steps in
      let right : steps' ≡ pos k = elim v.not_wrong [
        | inl unset ↦ rw unset (rw size refl)
        | inr set ↦ rw set refl
      ] in
      let there : k ≡ min k (50 * suc n) = omega (arith, h) in
      (
        (record t { steps = steps' }, true),
        rw last refl,
        record {
          visited = record {
            holds = subst (λ m. Keeps i m t.vals) there holds;
            not_wrong = inr right;
            counted = λ _. right;
          };
          finished = λ _. right;
          late = λ _. refl;
        },
      )

  pub visit-After : (n : ℕ) (t : NumTask) → Visited i k n t → Succeeds (visit t) (After i k n t)
  visit-After n t v = elim (dec_lt (50 * n) k) [
    | yes lt ↦ visit_on n t lt v
    | no ge ↦ visit_end n t (omega (arith, ge)) v
  ]
