-- ===== src/Tsort/Sample.antt =====
-- sample_sort of hw07/hw07-assignment/tsort.c. `float` and its comparisons, 0.0 and INFINITY, `qsort` and
-- `random` are parameters. The threads run `sort_worker` in two halves with the barrier between them,
-- so a run is an order of the first halves and an order of the second. A first half only reads what
-- all share and writes its own cell of `sizes`. A long that no `int` holds is a fault where it becomes one.
pub mod Overwrite
pub mod Cells
pub mod Ordered
pub mod Buckets
pub mod Vectors
pub mod Threads
pub mod Halves
pub mod Medians
pub mod Sorts
mod Tests
use cs.Base.{
  int, ℕ, zero, suc, ◌+◌, ◌-◌, ◌*◌, ◌/◌, ◌%◌, ◌^◌, ◌≤◌, ◌<◌, min, max, ◌≡◌, ◌≢◌, ◌↔◌, refl, sym,
  ◌∙◌, ap, ap₂, subst, List, [], ◌∷◌, ◌++◌, map, reverse, Bool, true, false, not, ◌&&◌, ◌||◌,
  Option, none, some, ◌⊎◌, inl, inr, arith, ℤ, pos, negsuc, minus_one, no_entry, already_exists,
  ltb, leb, ◌==◌, if◌then◌else◌, ltb→lt, lt→ltb, le→not_ltb, leb→le, le→leb, lt→not_leb, not_leb→lt,
  not_ltb→le, ==_iff, Bool-cases, Option-cases, dec_lt, ℕ_discrete, length, All, get_or, take, drop,
  replicate,
}
use cs.Base.{
  int, Outcome, ret, fault, Fault, uninitialised, out_of_bounds, division_by_zero, ◌>>=◌, ◌>>◌,
  read, store, for_range,
}
use cs.Tsort.{Floats, number, floats_make, floats_push, floats_get, floats_size, in_range}

module _ {F : Type 0} (less : F → F → Bool) where
  unfoldable pub float_cmp : F → F → ℤ
  float_cmp x y = if less y x then pos 1 else (if less x y then minus_one else pos 0)

-- The numbers of cells that were all written.
unfoldable pub read_all : {F : Type 0} → List (Option F) → Outcome (List F)
read_all [] = ret []
read_all (c ∷ cs) = do x ← number c; xs ← read_all cs; ret (x ∷ xs)

-- `qsort` sees the numbers and the comparison.
module _ {F : Type 0} (qsort : (F → F → ℤ) → List F → List F) (less : F → F → Bool) where
  unfoldable pub qsort_floats : Floats F → Outcome (Floats F)
  unfolding read_all
  qsort_floats fs = do
    xs ← read_all (take fs.size fs.cells)
    ret (record fs { cells = map some (qsort (float_cmp less) xs) ++ drop fs.size fs.cells })

-- `memcpy(&xs[count], ys, ...)`
unfoldable pub overwrite {ℓ} : {A : Type ℓ} → ℕ → List A → List A → List A
overwrite zero [] xs = xs
overwrite zero (y ∷ ys) [] = []
overwrite zero (y ∷ ys) (x ∷ xs) = y ∷ overwrite zero ys xs
overwrite (suc n) ys [] = []
overwrite (suc n) ys (x ∷ xs) = x ∷ overwrite n ys xs

-- What the threads share, and the `range` of each.
pub record Shared (F : Type 0) : Type 0 where
  pub fs : Floats F
  pub medians : Floats F
  pub sizes : List (Option ℕ)
  pub ranges : List (Option (Floats F))

-- The sum of the sizes in front of a thread's.
unfoldable pub count_before : ℕ → List (Option ℕ) → Outcome ℕ
count_before zero sizes = ret 0
count_before (suc i) sizes = do
  count ← count_before i sizes
  c ← read sizes i
  size ← number c
  int (count + size)

module _ {F : Type 0} (at_least less : F → F → Bool) (qsort : (F → F → ℤ) → List F → List F) where
  -- `sort_worker` of thread `i` up to the barrier.
  unfoldable pub first_half : Shared F → ℕ → Outcome (Shared F)
  unfolding floats_get in_range qsort_floats
  first_half s i = do
    start ← floats_get s.medians i
    end ← floats_get s.medians (i + 1)
    range ← in_range at_least less s.fs start end
    sizes ← store s.sizes i (some range.size)
    sorted ← qsort_floats qsort less range
    ranges ← store s.ranges i (some sorted)
    ret (record s { sizes = sizes; ranges = ranges })

-- And behind it.
unfoldable pub second_half : {F : Type 0} → Shared F → ℕ → Outcome (Shared F)
unfolding count_before overwrite
second_half s i = do
  count ← count_before i s.sizes
  c ← read s.ranges i
  range ← number c
  cells ←
      if leb (count + range.size) (length s.fs.cells)
      then ret (overwrite count (take range.size range.cells) s.fs.cells)
      else fault out_of_bounds
  ret (record s { fs = record s.fs { cells = cells } })

-- The threads take a step one after the other.
unfoldable pub each {ℓ} : {S : Type ℓ} → (S → ℕ → Outcome S) → List ℕ → S → Outcome S
each step [] s = ret s
each step (i ∷ is) s = step s i >>= λ s'. each step is s'

-- `x % n`
unfoldable pub remainder : ℕ → ℕ → Outcome ℕ
remainder x n = if n == 0 then fault division_by_zero else ret (x % n)

module _ {F : Type 0} (at_least less : F → F → Bool) (qsort : (F → F → ℤ) → List F → List F)
    (zero_float infinity : F) (random : ℕ → ℕ) where
  -- `random i` is the result of the call in round `i`.
  unfoldable pub take_samples : Floats F → ℕ → Outcome (Floats F)
  unfolding remainder floats_get floats_push floats_make
  take_samples fs num_samples =
      for_range num_samples 0
        (λ i sampled.
          remainder (random i) fs.size >>= int >>= λ loc. floats_get fs loc >>= floats_push sampled)
        floats_make

  -- In round `k` of the loop `i` is 3 k + 1, which is below 3 (num_threads - 1) as long as k is below
  -- num_threads - 1.
  unfoldable pub choose_medians : Floats F → ℕ → Outcome (Floats F)
  unfolding floats_get floats_push floats_make
  choose_medians sampled num_threads = do
    first ← floats_push floats_make zero_float
    medians ←
        for_range (num_threads - 1) 0
          (λ k medians. floats_get sampled (3 * k + 1) >>= floats_push medians) first
    floats_push medians infinity

  -- `before` and `behind` are the orders of the threads.
  unfoldable pub sample_sort : Floats F → ℕ → List ℕ → List ℕ → Outcome (Floats F)
  unfolding take_samples choose_medians qsort_floats first_half second_half each
  sample_sort fs num_threads before behind = do
    num_samples ← int (3 * (num_threads - 1))
    samples ← take_samples fs num_samples
    sampled ← qsort_floats qsort less samples
    medians ← choose_medians sampled num_threads
    let start : Shared F = record {
      fs = fs;
      medians = medians;
      sizes = replicate num_threads none;
      ranges = replicate num_threads none;
    }
    arrived ← each (first_half at_least less qsort) before start
    done ← each second_half behind arrived
    ret done.fs
