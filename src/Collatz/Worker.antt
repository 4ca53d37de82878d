-- ===== src/Collatz/Worker.antt =====
-- worker of chal2/starter-ch02/ivec_main.c on the tasks that main makes.
use cs.Base.{
  ◌^◌, lt→ltb, ◌+◌, ℕ, zero, suc, ◌+◌, ◌*◌, ◌%◌, ◌≤◌, ◌<◌, ◌≡◌, refl, sym, ◌∙◌, subst, List, [],
  ◌∷◌, ◌++◌, Bool, true, false, inl, inr, arith, pos, minus_one, ◌==◌, Bool-cases, ℕ_discrete,
  length, get_or,
}
use cs.Base.{◌^◌, lt→ltb, ◌+◌, ret, ◌>>=◌, Succeeds, length-append}
use cs.Tsort.Sample.{remainder}
use cs.Tsort.Sample.Cells.{get_or-last, get_or-front}
use cs.Collatz.{scan_and_iterate, NumTask, worker, make_tasks}
use cs.Collatz.Orbit.{Ends}
use cs.Collatz.Visits.{make_task-Visited}
use cs.Collatz.Scan.{Good, AllGood, scan_and_iterate-Scanned}

abbrev pub no_task : NumTask
no_task = record { vals = record { size = 0; cap = 0; cells = [] }; steps = minus_one; dibs = 0 }

module _ (top : ℕ) (k : ℕ → ℕ) (ends : (i : ℕ) → 0 < i → i < top → Ends i (k i)) where
  -- Every task from 1 on has the steps of its sequence, and task 0 was not visited.
  abbrev pub AllCounted : List NumTask → Type 0
  AllCounted tasks =
      (length tasks ≡ top)
      × ((get_or tasks 0 no_task).steps ≡ minus_one)
      × ((i : ℕ) → 0 < i → i < top → (get_or tasks i no_task).steps ≡ pos (k i))

  abbrev Fresh : List NumTask → ℕ → Type 0
  Fresh tasks i =
      Good i (k i) 0 (get_or tasks i no_task) × ((get_or tasks i no_task).steps ≡ minus_one)

  make_tasks-Good :
      (m : ℕ)
      → m < 2 ^ 31
      → Succeeds (make_tasks m) λ tasks. (length tasks ≡ m) × ((i : ℕ) → i < m → Fresh tasks i)
  unfolding make_tasks
  make_tasks-Good zero few = ([], refl, (refl, λ i h. absurd (omega arith)))
  make_tasks-Good (suc m) few =
      let (tasks, run, (size, good)) = make_tasks-Good m (omega arith) in
      let (task, run', (v, free, unset)) = make_task-Visited m (k m) in
      let last = get_or-last no_task tasks task m size in
      (
        tasks ++ task ∷ [],
        rw run (rw run' (rw (lt→ltb (m + 1) (2 ^ 31) (omega (arith, few))) refl)),
        (
          omega (arith, length-append tasks (task ∷ []), size),
          λ i h. elim (ℕ_discrete i m) [
            | yes e ↦
                let fresh : Good m (k m) 0 task = record {
                  unclaimed = free;
                  times = 0;
                  enough = omega arith;
                  visited = v;
                } in
                subst (Fresh (tasks ++ task ∷ [])) (sym e)
                  (subst (λ t. Good m (k m) 0 t × (t.steps ≡ minus_one)) (sym last) (fresh, unset))
            | no ne ↦
                subst (λ t. Good i (k i) 0 t × (t.steps ≡ minus_one))
                  (sym (get_or-front no_task tasks (task ∷ []) i (omega (arith, size, h, ne))))
                  (good i (omega (arith, h, ne)))
          ],
        ),
      )

  -- A scan that is not done is followed by the rest of the rounds.
  worker_again :
      (random : ℕ → ℕ) (f r : ℕ) (tasks : List NumTask) (s : List NumTask × Bool)
      → 1 < top
      → scan_and_iterate top (random r % top) tasks ≡ ret s
      → s.1 ≡ false
      → worker (suc f) random top r tasks ≡ worker f random top (r + 1) s.0
  unfolding worker remainder
  worker_again random f r tasks s some_tasks run more =
      let nonzero : (top == 0) ≡ false = ground (arith, some_tasks) in
      rw nonzero (rw run (rw more refl))

  worker-AllCounted :
      (random : ℕ → ℕ) (f n r : ℕ) (tasks : List NumTask)
      → 1 < top
      → length tasks ≡ top
      → AllGood top k ends no_task n tasks
      → ((i : ℕ) → 0 < i → i < top → k i ≤ 50 * (n + f))
      → Succeeds (worker (suc f) random top r tasks) AllCounted
  unfolding worker remainder
  worker-AllCounted random zero n r tasks some_tasks size good soon =
      let nonzero : (top == 0) ≡ false = ground (arith, some_tasks) in
      let (s, run, scanned) =
        scan_and_iterate-Scanned top k ends no_task n (random r % top) some_tasks tasks size good in
      let done : s.1 ≡ true =
        scanned.late (λ i some_i h. let l = soon i some_i h in omega (arith, l)) in
      (
        s.0,
        rw nonzero (rw run (rw done refl)),
        (scanned.size, scanned.good.0, scanned.finished done),
      )
  worker-AllCounted random (suc f) n r tasks some_tasks size good soon =
      let nonzero : (top == 0) ≡ false = ground (arith, some_tasks) in
      let (s, run, scanned) =
        scan_and_iterate-Scanned top k ends no_task n (random r % top) some_tasks tasks size good in
      elim (Bool-cases s.1) [
        | inl done ↦ (
          s.0,
          rw nonzero (rw run (rw done refl)),
          (scanned.size, scanned.good.0, scanned.finished done),
        )
        | inr more ↦
            let (result, run', counted) =
              worker-AllCounted random f (n + 1) (r + 1) s.0 some_tasks scanned.size scanned.good
                (λ i some_i h. let l = soon i some_i h in omega (arith, l)) in
            (result, worker_again random (suc f) r tasks s some_tasks run more ∙ run', counted)
      ]

  -- All tasks are counted in the end.
  pub make_tasks-worker :
      (random : ℕ → ℕ) (f : ℕ)
      → 1 < top
      → top < 2 ^ 31
      → ((i : ℕ) → 0 < i → i < top → k i ≤ 50 * f)
      → Succeeds (make_tasks top >>= worker (suc f) random top 0) AllCounted
  make_tasks-worker random f some_tasks few soon =
      let (tasks, run, (size, good)) = make_tasks-Good top few in
      let (result, run', counted) =
        worker-AllCounted random f 0 0 tasks some_tasks size
          ((good 0 (omega (arith, some_tasks))).1, λ i some_i h. (good i h).0)
          (λ i some_i h. let l = soon i some_i h in omega (arith, l)) in
      (result, rw run run', counted)
