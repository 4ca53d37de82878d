-- ===== src/Collatz/Tests.antt =====
-- Runs and examples of the tasks of chal2/starter-ch02/ivec_main.c.
use cs.Base.{ℕ, zero, suc, ◌*◌, ◌≤◌, ◌<◌, ◌≡◌, refl, arith}
use cs.Base.{◌>>=◌, Succeeds}
use cs.Collatz.{most_steps, make_tasks, worker, long_limit}
use cs.Collatz.Orbit.{orbit, Ends}
use cs.Collatz.Most.{IsMost, worker-most_steps}

three_way : (j : ℕ) → j < 7 → 1 < orbit 3 j
unfolding orbit
three_way zero h = omega arith
three_way (suc zero) h = omega arith
three_way (suc (suc zero)) h = omega arith
three_way (suc (suc (suc zero))) h = omega arith
three_way (suc (suc (suc (suc zero)))) h = omega arith
three_way (suc (suc (suc (suc (suc zero))))) h = omega arith
three_way (suc (suc (suc (suc (suc (suc zero)))))) h = omega arith
three_way (suc (suc (suc (suc (suc (suc (suc j))))))) h = absurd (omega arith)

three_small : (j : ℕ) → j ≤ 7 → orbit 3 j < long_limit
unfolding orbit
three_small zero h = omega arith
three_small (suc zero) h = omega arith
three_small (suc (suc zero)) h = omega arith
three_small (suc (suc (suc zero))) h = omega arith
three_small (suc (suc (suc (suc zero)))) h = omega arith
three_small (suc (suc (suc (suc (suc zero))))) h = omega arith
three_small (suc (suc (suc (suc (suc (suc zero)))))) h = omega arith
three_small (suc (suc (suc (suc (suc (suc (suc zero))))))) h = omega arith
three_small (suc (suc (suc (suc (suc (suc (suc (suc j)))))))) h = absurd (omega arith)

three-Ends : Ends 3 7
unfolding orbit
three-Ends = record {
  at_end = refl;
  on_the_way = three_way;
  small = three_small;
  short = omega arith;
}

two-Ends : Ends 2 1
unfolding orbit
two-Ends = record {
  at_end = refl;
  on_the_way = λ j h. (let e : j ≡ 0 = omega arith in rw e (let l : 1 < 2 = omega arith in l));
  small = two_small;
  short = omega arith;
}
  where
    two_small : (j : ℕ) → j ≤ 1 → orbit 2 j < long_limit
    two_small zero h = omega arith
    two_small (suc zero) h = omega arith
    two_small (suc (suc j)) h = absurd (omega arith)

one-Ends : Ends 1 0
unfolding orbit
one-Ends = record {
  at_end = refl;
  on_the_way = λ j h. absurd (omega arith);
  small = λ j h. (let e : j ≡ 0 = omega arith in rw e (let l : 1 < long_limit = omega arith in l));
  short = omega arith;
}

abbrev steps_of : ℕ → ℕ
steps_of zero = 0
steps_of (suc zero) = 0
steps_of (suc (suc zero)) = 1
steps_of (suc (suc (suc i))) = 7

up_to_three : (i : ℕ) → 0 < i → i < 4 → Ends i (steps_of i)
up_to_three zero some_i h = absurd (omega arith)
up_to_three (suc zero) some_i h = one-Ends
up_to_three (suc (suc zero)) some_i h = two-Ends
up_to_three (suc (suc (suc zero))) some_i h = three-Ends
up_to_three (suc (suc (suc (suc i)))) some_i h = absurd (omega arith)

few_steps : (i : ℕ) → 0 < i → i < 4 → steps_of i ≤ 50 * 1
few_steps zero some_i h = omega arith
few_steps (suc zero) some_i h = omega arith
few_steps (suc (suc zero)) some_i h = omega arith
few_steps (suc (suc (suc i))) some_i h = omega arith

worker-most_steps_example :
    Succeeds
      (make_tasks 4 >>= worker 2 (λ r. r) 4 0 >>= most_steps 4)
      (IsMost 4 steps_of up_to_three 4)
worker-most_steps_example =
    worker-most_steps 4 steps_of up_to_three (λ r. r) 1 (omega arith) (omega arith) few_steps
