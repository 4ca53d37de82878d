-- ===== src/Tsort/Sample/Sorts.antt =====
-- sample_sort of hw07/hw07-assignment/tsort.c sorts.
use cs.Base.{
  ◌*◌, ◌-◌, lt→ltb, ◌^◌, length-replicate, ℕ, ◌≤◌, ◌<◌, ◌≡◌, refl, sym, ◌∙◌, ap, ap₂, List, Bool,
  true, Option, none, inr, arith, ℤ, length, All, get_or, take, replicate,
}
use cs.Base.{◌*◌, ◌-◌, lt→ltb, ◌^◌, Succeeds}
use cs.Tsort.{Floats}
use cs.Tsort.Vector.{Holds, chosen, between}
use cs.Tsort.Sample.{Shared, first_half, second_half, each, sample_sort}
use cs.Tsort.Sample.Ordered.{Ascending, IsOrder, IsSort, NotAbove, count, count-everything}
use cs.Tsort.Sample.Buckets.{joined, count-joined, joined-Ascending, count-chosen_all}
use cs.Tsort.Sample.Threads.{IsOrderOf, each-Succeeds}
use cs.Tsort.Sample.Halves.{
  Arriving, Arrived, first_half-Arrived, Leaving, Left, second_half-Left, Left-parts,
}
use cs.Tsort.Sample.Medians.{AllBetween, Chosen, medians-Chosen}

-- The vector has the numbers in order.
pub record Sorted {F : Type 0} (less : F → F → Bool) (xs : List F) (fs : Floats F) : Type 0 where
  pub numbers : List F
  pub holds : Holds fs numbers
  pub ascending : Ascending (NotAbove less) numbers
  pub counts : (p : F → Bool) → count p numbers ≡ count p xs

module _ {F : Type 0} (at_least less : F → F → Bool) (qsort : (F → F → ℤ) → List F → List F)
    (o : IsOrder at_least less) (q : IsSort less qsort) (zero_float infinity : F) (random : ℕ → ℕ)
    (positive : less zero_float infinity ≡ true) where
  module _ (fs : Floats F) (xs : List F) (h : Holds fs xs) (d : F)
      (all : AllBetween at_least less qsort o q zero_float infinity random d positive xs) (n : ℕ)
      (medians : Floats F)
      (c : Chosen at_least less qsort o q zero_float infinity random d positive n medians) where
    abbrev all_parts : List F
    all_parts = joined at_least less qsort o q (λ i. get_or c.ms i d) xs n

    count-all_parts : (p : F → Bool) → count p all_parts ≡ count p xs
    count-all_parts p =
        count-joined at_least less qsort o q (λ i. get_or c.ms i d) xs p n c.low c.up
        ∙ ap₂ (λ a b. count p (chosen (between at_least less a b) xs)) c.from c.to
        ∙ count-chosen_all (between at_least less zero_float infinity) p xs all

    length-all_parts : length all_parts ≡ length xs
    length-all_parts =
        sym (count-everything all_parts) ∙ count-all_parts (λ _. true) ∙ count-everything xs

    -- Both halves of all threads, in any two orders.
    halves-Sorted :
        (before behind : List ℕ) (s : Shared F)
        → IsOrderOf n before
        → IsOrderOf n behind
        → length xs < 2 ^ 31
        → Arriving at_least less qsort o q fs medians xs c.ms d n h c.holds c.medians_count s
        → Succeeds
            (each (first_half at_least less qsort) before s)
            λ arrived. Succeeds (each second_half behind arrived) λ done. Sorted less xs done.fs
    halves-Sorted before behind s ob oh small a =
        let (arrived, run1, (arriving, done_first)) =
          each-Succeeds
            (Arriving at_least less qsort o q fs medians xs c.ms d n h c.holds c.medians_count)
            (Arrived at_least less qsort o q fs medians xs c.ms d n h c.holds c.medians_count) n
            (first_half at_least less qsort)
            (λ t i lt b.
              first_half-Arrived at_least less qsort o q fs medians xs c.ms d n h c.holds
                c.medians_count t i lt small b)
            before s ob.bounded a in
        let ranges = λ (i : ℕ) (lt : i < n). done_first i lt (inr (ob.occurs i lt)) in
        let whole : length all_parts ≤ fs.size = omega (arith, length-all_parts, h.count) in
        let (done, run2, (leaving, done_second)) =
          each-Succeeds
            (Leaving at_least less qsort o q fs medians xs c.ms d n h c.holds c.medians_count
              arrived)
            (Left at_least less qsort o q fs medians xs c.ms d n h c.holds c.medians_count) n
            second_half
            (λ t i lt b.
              second_half-Left at_least less qsort o q fs medians xs c.ms d n h c.holds
                c.medians_count arrived arriving ranges whole (omega (arith, small, h.count)) t i lt
                b)
            behind arrived oh.bounded
            (record {
              same_sizes = refl;
              same_ranges = refl;
              same_size = ap (λ v. v.size) arriving.same_fs;
              same_cap = ap (λ v. v.cap) arriving.same_fs;
              cells_count = ap (λ v. length v.cells) arriving.same_fs ∙ h.sized;
            }) in
        let copied =
          Left-parts at_least less qsort o q fs medians xs c.ms d n h c.holds c.medians_count done
            (λ i lt. done_second i lt (inr (oh.occurs i lt))) n (omega arith) in
        let size : length all_parts ≡ done.fs.size =
          length-all_parts ∙ h.count ∙ sym leaving.same_size in
        (
          arrived,
          run1,
          (
            done,
            run2,
            record {
              numbers = all_parts;
              holds = record {
                room = omega (arith, h.room, leaving.same_cap);
                sized = leaving.cells_count ∙ sym leaving.same_cap;
                count = size;
                fits = omega (arith, h.fits, leaving.same_size, leaving.same_cap);
                written = ap (λ k. take k done.fs.cells) (sym size) ∙ copied;
              };
              ascending = joined-Ascending at_least less qsort o q (λ i. get_or c.ms i d) xs n c.up;
              counts = count-all_parts;
            },
          ),
        )

  -- On a vector of at least one number and fewer than 2 ^ 31, each from 0.0 on and below INFINITY, with at least one thread and
  -- fewer than 2 ^ 31 / 3, and in whatever order the threads run their halves, `sample_sort` does not fault: it returns a
  -- vector with the same numbers, each as often as before, none in front of one below it. `qsort` is
  -- one that sorts, and the comparisons are those of an order.
  pub sample_sort-Sorted :
      (fs : Floats F) (xs : List F) (n : ℕ) (before behind : List ℕ)
      → Holds fs xs
      → 0 < length xs
      → length xs < 2 ^ 31
      → All (λ x. between at_least less zero_float infinity x ≡ true) xs
      → 0 < n
      → 3 * n < 2 ^ 31
      → IsOrderOf n before
      → IsOrderOf n behind
      → Succeeds
          (sample_sort at_least less qsort zero_float infinity random fs n before behind)
          (Sorted less xs)
  unfolding sample_sort
  sample_sort-Sorted fs xs n before behind h some_x small all some_n few ob oh =
      let (samples, run1, (sampled, run2, (medians, run3, c))) =
        medians-Chosen at_least less qsort o q zero_float infinity random zero_float positive fs xs
          n h some_x small all some_n in
      let no_size : Option ℕ = none in
      let no_range : Option (Floats F) = none in
      let (arrived, run4, (done, run5, sorted)) =
        halves-Sorted fs xs h zero_float all n medians c before behind
          (record {
            fs = fs;
            medians = medians;
            sizes = replicate n none;
            ranges = replicate n none;
          })
          ob oh small
          (record {
            same_fs = refl;
            same_medians = refl;
            sizes_count = length-replicate n no_size;
            ranges_count = length-replicate n no_range;
          }) in
      (
        done.fs,
        rw (lt→ltb (3 * (n - 1)) (2 ^ 31) (omega (arith, few)))
            (rw run1 (rw run2 (rw run3 (rw run4 (rw run5 refl))))),
        sorted,
      )
