-- ===== src/Collatz.antt =====
-- chal2/starter-ch02: the vector of longs of ivec.h, and the tasks of ivec_main.c, which counts the steps
-- of Collatz sequences. The numbers start above zero and stay there; a long that overflows
-- is a fault, and so is one that no `int` holds where it becomes one.
-- One worker runs alone, so that it finds `dibs` unset; a worker that ends its visit without unsetting it
-- would not get the task again.
pub mod Orbit
pub mod Vector
pub mod Visits
pub mod Scan
pub mod Worker
pub mod Most
mod Tests
use cs.Base.{
  int, ℕ, zero, suc, ◌+◌, ◌-◌, ◌*◌, ◌/◌, ◌%◌, ◌^◌, ◌≤◌, ◌<◌, min, max, ◌≡◌, ◌≢◌, ◌↔◌, refl, sym,
  ◌∙◌, ap, ap₂, subst, List, [], ◌∷◌, ◌++◌, map, reverse, Bool, true, false, not, ◌&&◌, ◌||◌,
  Option, none, some, ◌⊎◌, inl, inr, arith, ℤ, pos, negsuc, minus_one, no_entry, already_exists,
  ltb, leb, ◌==◌, if◌then◌else◌, ltb→lt, lt→ltb, le→not_ltb, leb→le, le→leb, lt→not_leb, not_leb→lt,
  not_ltb→le, ==_iff, Bool-cases, Option-cases, dec_lt, ℕ_discrete, length, All, get_or, take, drop,
  replicate,
}
use cs.Base.{
  int, Outcome, ret, fault, Fault, overflow, out_of_bounds, assert, ◌>>=◌, ◌>>◌, read, store,
  for_range,
}
use cs.Tsort.{Floats, number}
use cs.Tsort.Sample.{remainder}
use cs.Base.{int, out_of_fuel}

-- The fields of `ivec` are those of the vector of numbers.
abbrev pub Ivec : Type 0
Ivec = Floats ℕ

unfoldable pub make_ivec : ℕ → Outcome Ivec
make_ivec cap0 = do
  assert (ltb 0 cap0)
  ret (record { size = 0; cap = cap0; cells = replicate cap0 none })

unfoldable pub ivec_push : Ivec → ℕ → Outcome Ivec
ivec_push xs item = do
  let cap = if leb xs.cap xs.size then xs.cap * 2 else xs.cap
  let cells =
      if leb xs.cap xs.size
      then take cap xs.cells ++ replicate (cap - length xs.cells) none
      else xs.cells
  written ← store cells xs.size (some item)
  ret (record { size = xs.size + 1; cap = cap; cells = written })

unfoldable pub ivec_last : Ivec → Outcome ℕ
unfolding number
ivec_last xs = if xs.size == 0 then fault out_of_bounds else read xs.cells (xs.size - 1) >>= number

unfoldable pub ivec_copy : Ivec → Outcome Ivec
unfolding make_ivec ivec_push number
ivec_copy xs = do
  cap0 ← int xs.cap
  ys ← make_ivec cap0
  for_range xs.size 0 (λ ii ys. read xs.cells ii >>= number >>= ivec_push ys) ys

abbrev pub long_limit : ℕ
long_limit = 2 ^ 63

unfoldable pub collatz_step : ℕ → Outcome ℕ
collatz_step n =
    if n % 2 == 0
    then ret (n / 2)
    else (if ltb (3 * n + 1) long_limit then ret (3 * n + 1) else fault overflow)

-- The loop of `iterate`, with the rounds that are left of its 50.
unfoldable pub iterate_from : ℕ → ℕ → Ivec → Outcome Ivec
unfolding ivec_last collatz_step ivec_push
iterate_from zero vv xs = ret xs
iterate_from (suc n) vv xs = if vv == 1 then ret xs else do
  last ← ivec_last xs
  next ← collatz_step last
  pushed ← ivec_push xs next
  iterate_from n next pushed

unfoldable pub iterate : Ivec → Outcome Ivec
unfolding iterate_from
iterate xs = iterate_from 50 0 xs

-- A task without its lock.
pub record NumTask : Type 0 where
  pub vals : Ivec
  pub steps : ℤ
  pub dibs : ℕ

-- What `main` makes of number `ii`.
unfoldable pub make_task : ℕ → Outcome NumTask
unfolding make_ivec ivec_push
make_task ii = do
  xs ← make_ivec 4
  vals ← ivec_push xs ii
  ret (record { vals = vals; steps = minus_one; dibs = 0 })

-- A size less one, as a long.
unfoldable pub less_one : ℕ → ℤ
less_one zero = minus_one
less_one (suc n) = pos n

unfoldable pub is_minus_one : ℤ → Bool
is_minus_one (pos n) = false
is_minus_one (negsuc zero) = true
is_minus_one (negsuc (suc n)) = false

-- What `scan_and_iterate` does with a task it got, and whether it counts it as done.
unfoldable pub visit : NumTask → Outcome (NumTask × Bool)
unfolding ivec_last ivec_copy iterate less_one is_minus_one
visit task = do
  vv ← ivec_last task.vals
  if ltb 1 vv
      then (do xs ← ivec_copy task.vals; ys ← iterate xs; ret (record task { vals = ys }, false))
      else ret (
        record task {
          steps = if is_minus_one task.steps then less_one task.vals.size else task.steps;
        },
        true,
      )

-- The body of the loop of `scan_and_iterate`, with the tasks and `done_count`.
unfoldable pub scan_one : ℕ → List NumTask × ℕ → Outcome (List NumTask × ℕ)
unfolding visit
scan_one ii (tasks, done_count) = do
  task ← read tasks ii
  if task.dibs == 0
      then (do
        claimed ← store tasks ii (record task { dibs = 1 })
        (visited, is_done) ← visit (record task { dibs = 1 })
        released ← store claimed ii (record visited { dibs = 0 })
        ret (released, if is_done then done_count + 1 else done_count))
      else ret (tasks, done_count)

unfoldable pub scan_and_iterate : ℕ → ℕ → List NumTask → Outcome (List NumTask × Bool)
unfolding scan_one
scan_and_iterate data_top base tasks = do
  (tasks', done_count) ←
      for_range (data_top - 1) 1 (λ i0. scan_one (1 + (base + i0) % (data_top - 1))) (tasks, 0)
  ret (tasks', done_count == (data_top - 1))

-- One thread, with the rounds it is given; `random r` is the result of the call in round `r`.
unfoldable pub worker : ℕ → (ℕ → ℕ) → ℕ → ℕ → List NumTask → Outcome (List NumTask)
unfolding scan_and_iterate remainder
worker zero random data_top r tasks = fault out_of_fuel
worker (suc f) random data_top r tasks = do
  base ← remainder (random r) data_top
  (tasks', done) ← scan_and_iterate data_top base tasks
  let rest = worker f random data_top (r + 1) tasks'
  if done then ret tasks' else rest

-- The tasks that `main` makes; the `int` ii is counted up behind each.
unfoldable pub make_tasks : ℕ → Outcome (List NumTask)
unfolding make_task
make_tasks zero = ret []
make_tasks (suc ii) = do
  tasks ← make_tasks ii
  task ← make_task ii
  counted ← int (ii + 1)
  ret (tasks ++ (task ∷ []))

-- `a > b` of longs.
unfoldable pub above : ℤ → ℤ → Bool
above (pos a) (pos b) = ltb b a
above (pos a) (negsuc b) = true
above (negsuc a) (pos b) = false
above (negsuc a) (negsuc b) = ltb a b

-- `max_v` and `max_s`, which `main` prints.
unfoldable pub most_steps : ℕ → List NumTask → Outcome (ℕ × ℤ)
unfolding above
most_steps data_top tasks =
    for_range data_top 0
      (λ ii best. read tasks ii >>= λ task. int (ii + 1) >>= λ counted.
        ret (if above task.steps best.1 then (ii, task.steps) else best))
      (0, pos 0)
