-- ===== src/Quicksort/Tests.antt =====
-- Small arrays on which the theorems are used.
use cs.Base.{
  ℕ, zero, suc, ◌+◌, ◌-◌, ◌*◌, ◌/◌, ◌%◌, ◌^◌, ◌≤◌, ◌<◌, min, max, ◌≡◌, ◌≢◌, ◌↔◌, refl, sym, ◌∙◌, ap,
  ap₂, subst, List, [], ◌∷◌, ◌++◌, map, reverse, Bool, true, false, not, ◌&&◌, ◌||◌, Option, none,
  some, ◌⊎◌, inl, inr, arith, ℤ, pos, negsuc, minus_one, no_entry, already_exists, ltb, leb, ◌==◌,
  if◌then◌else◌, ltb→lt, lt→ltb, le→not_ltb, leb→le, le→leb, lt→not_leb, not_leb→lt, not_ltb→le,
  ==_iff, Bool-cases, Option-cases, dec_lt, ℕ_discrete, length, All, get_or, take, drop, replicate,
}
use cs.Base.{ret, Succeeds}
use cs.Quicksort.{quicksort, partition, less, swap, partition_round, quicksort_fuel}
use cs.Quicksort.Partition.{Parted, partition-Parted}
use cs.Quicksort.Sorted.{Sorts, quicksort-Sorts}

abbrev readings : List ℤ
readings = pos 5 ∷ negsuc 2 ∷ pos 8 ∷ pos 5 ∷ negsuc 0 ∷ pos 1 ∷ []

readings-quicksort :
    quicksort readings 0 6 ≡ ret (negsuc 2 ∷ negsuc 0 ∷ pos 1 ∷ pos 5 ∷ pos 5 ∷ pos 8 ∷ [])
unfolding quicksort quicksort_fuel partition partition_round swap less cs.Base.read
    cs.Base.for_range cs.Base.store
readings-quicksort = refl

quicksort-Sorts_example : Succeeds (quicksort readings 1 6) (Sorts 1 6 readings)
quicksort-Sorts_example = quicksort-Sorts readings 1 6 (omega arith)

partition-Parted_example : Succeeds (partition readings 0 6) λ r. Parted 0 6 readings r.0 r.1
partition-Parted_example = partition-Parted readings 0 6 (omega arith) (omega arith)
