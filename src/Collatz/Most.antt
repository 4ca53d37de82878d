-- ===== src/Collatz/Most.antt =====
-- What chal2/starter-ch02/ivec_main.c prints.
use cs.Base.{
  ◌^◌, int, lt→ltb, ℕ, suc, ◌+◌, ◌*◌, ◌≤◌, ◌<◌, ◌≡◌, refl, ◌∙◌, ap, List, ◌⊎◌, inl, inr, arith, ℤ,
  pos, minus_one, ltb, if◌then◌else◌, ltb→lt, not_ltb→le, Bool-cases, ℕ_discrete, get_or,
}
use cs.Base.{◌^◌, int, lt→ltb, ret, ◌>>=◌, Succeeds, read, read-get_or, for_range-Succeeds}
use cs.Collatz.{NumTask, worker, make_tasks, most_steps, above}
use cs.Collatz.Orbit.{Ends}
use cs.Collatz.Worker.{no_task, AllCounted, make_tasks-worker}

module _ (top : ℕ) (k : ℕ → ℕ) (ends : (i : ℕ) → 0 < i → i < top → Ends i (k i)) where
  -- `best.1` is the most steps of a number from 1 on below `i`, and `best.0` has them; both are 0 where
  -- no number has steps.
  pub record IsMost (i : ℕ) (best : ℕ × ℤ) : Type 0 where
    pub steps : ℕ
    pub value : best.1 ≡ pos steps
    pub attained : ((best.0 ≡ 0) × (steps ≡ 0)) ⊎ ((0 < best.0) × (best.0 < i) × (steps ≡ k best.0))
    pub most : (j : ℕ) → 0 < j → j < i → k j ≤ steps

  IsMost-step :
      (i : ℕ) (best : ℕ × ℤ) (s : ℤ)
      → IsMost i best
      → ((i ≡ 0) × (s ≡ minus_one)) ⊎ ((0 < i) × (s ≡ pos (k i)))
      → IsMost (i + 1) (if above s best.1 then (i, s) else best)
  unfolding above
  IsMost-step i best s b (inl (z, e)) = rw e (
      rw b.value (record {
        steps = b.steps;
        value = refl;
        attained = elim b.attained [
          | inl h ↦ inl h
          | inr (h1, h2, h3) ↦ inr (h1, omega (arith, h2), h3)
        ];
        most = λ j some_j h. absurd (omega (arith, z, some_j, h));
      }))
  IsMost-step i best s b (inr (some_i, e)) = rw e (
      rw b.value (elim (Bool-cases (ltb b.steps (k i))) [
        | inl more ↦
            let l = ltb→lt b.steps (k i) more in
            rw more (record {
              steps = k i;
              value = refl;
              attained = inr (some_i, omega arith, refl);
              most = λ j some_j h. elim (ℕ_discrete j i) [
                | yes same ↦ rw same (omega arith)
                | no ne ↦ let m = b.most j some_j (omega (arith, h, ne)) in omega (arith, l, m)
              ];
            })
        | inr less ↦
            let l = not_ltb→le b.steps (k i) less in
            rw less (record {
              steps = b.steps;
              value = refl;
              attained = elim b.attained [
                | inl h ↦ inl h
                | inr (h1, h2, h3) ↦ inr (h1, omega (arith, h2), h3)
              ];
              most = λ j some_j h. elim (ℕ_discrete j i) [
                | yes same ↦ rw same l
                | no ne ↦ b.most j some_j (omega (arith, h, ne))
              ];
            })
      ]))

  most_steps-IsMost :
      (tasks : List NumTask)
      → top < 2 ^ 31
      → AllCounted top k ends tasks
      → Succeeds (most_steps top tasks) (IsMost top)
  unfolding most_steps
  most_steps-IsMost tasks few (size, first, counted) =
      for_range-Succeeds IsMost
        (λ ii best. read tasks ii >>= λ task. int (ii + 1) >>= λ counted.
          ret (if above task.steps best.1 then (ii, task.steps) else best))
        top
        (λ i best h b. (
          _,
          rw (read-get_or tasks i no_task (omega (arith, size, h)))
              (rw (lt→ltb (i + 1) (2 ^ 31) (omega (arith, few, h))) refl),
          IsMost-step i best (get_or tasks i no_task).steps b (elim (ℕ_discrete i 0) [
            | yes z ↦ inl (z, ap (λ x. (get_or tasks x no_task).steps) z ∙ first)
            | no ne ↦ let p : 0 < i = omega (arith, ne) in inr (p, counted i p h)
          ]),
        ))
        top 0 (0, pos 0) (omega arith)
        (record {
          steps = 0;
          value = refl;
          attained = inl (refl, refl);
          most = λ j some_j h. absurd (omega arith);
        })

  -- For the numbers from 1 on below `top`, of which there is one at least and which an `int` holds, each
  -- with a Collatz sequence that gets to 1 after `k` steps for the first time, fewer than 2 ^ 30 - 3, and in
  -- which no member overflows a long, what `main` does with one worker succeeds, wherever its scans start,
  -- if the worker has rounds for 50 members each of the longest sequence and one more: it finds the most
  -- steps, and a number that has them, or 0 and 0 where no number has steps.
  pub worker-most_steps :
      (random : ℕ → ℕ) (f : ℕ)
      → 1 < top
      → top < 2 ^ 31
      → ((i : ℕ) → 0 < i → i < top → k i ≤ 50 * f)
      → Succeeds (make_tasks top >>= worker (suc f) random top 0 >>= most_steps top) (IsMost top)
  worker-most_steps random f some_tasks few soon =
      let (tasks, run, counted) = make_tasks-worker top k ends random f some_tasks few soon in
      let (best, run', b) = most_steps-IsMost tasks few counted in (best, rw run run', b)
