-- ===== src/Tsort/Sample/Halves.antt =====
-- The two halves of sort_worker of hw07/hw07-assignment/tsort.c, in any order of the threads.
use cs.Base.{
  lt→ltb, ◌^◌, length-append, set, ℕ, zero, suc, ◌+◌, ◌≤◌, ◌<◌, ◌≡◌, refl, sym, ◌∙◌, ap, ap₂, subst,
  List, ◌++◌, map, Bool, true, none, some, arith, ℤ, leb, le→leb, dec_lt, ℕ_discrete, length,
  get_or, take, drop,
}
use cs.Base.{lt→ltb, ◌^◌, read-get_or, length-map, length-set, Succeeds, ret, read, store-set}
use cs.Tsort.{Floats, number, floats_get, in_range}
use cs.Tsort.Vector.{Holds, chosen, between, in_range-chosen}
use cs.Tsort.Sample.{Shared, count_before, first_half, second_half, overwrite}
use cs.Tsort.Sample.Ordered.{IsOrder, IsSort}
use cs.Tsort.Sample.Overwrite.{
  length-overwrite, overwrite_self, overwrite-below, overwrite-above, take-add,
}
use cs.Tsort.Sample.Buckets.{length-qsort, target, joined}
use cs.Tsort.Sample.Cells.{get_or-set_self, get_or-set_other, map_append}
use cs.Tsort.Sample.Vectors.{floats_get-Holds, qsort_floats-Holds}

module _ {F : Type 0} (at_least less : F → F → Bool) (qsort : (F → F → ℤ) → List F → List F)
    (o : IsOrder at_least less) (q : IsSort less qsort) (fs medians : Floats F) (xs ms : List F)
    (d : F) (n : ℕ) (fs_holds : Holds fs xs) (medians_hold : Holds medians ms)
    (medians_count : length ms ≡ n + 1) where
  abbrev pub median : ℕ → F
  median i = get_or ms i d

  -- The numbers of thread `i`, in order, and those of the first threads.
  abbrev pub part : ℕ → List F
  part = target at_least less qsort o q median xs

  abbrev pub parts : ℕ → List F
  parts = joined at_least less qsort o q median xs

  -- Before and while the threads run their first halves.
  pub record Arriving (s : Shared F) : Type 0 where
    pub same_fs : s.fs ≡ fs
    pub same_medians : s.medians ≡ medians
    pub sizes_count : length s.sizes ≡ n
    pub ranges_count : length s.ranges ≡ n

  -- Thread `i` has its sorted range, and its size is known.
  pub record Arrived (s : Shared F) (i : ℕ) : Type 0 where
    pub range : Floats F
    pub mine : get_or s.ranges i none ≡ some range
    pub holds : Holds range (part i)
    pub size : get_or s.sizes i none ≡ some (length (part i))

  pub first_half-Arrived :
      (s : Shared F) (i : ℕ)
      → i < n
      → length xs < 2 ^ 31
      → Arriving s
      → Succeeds
          (first_half at_least less qsort s i)
          λ s'. Arriving s' × Arrived s' i × ((j : ℕ) → j < n → Arrived s j → Arrived s' j)
  unfolding first_half
  first_half-Arrived s i lt small a =
      let start =
        ap (λ v. floats_get v i) a.same_medians
        ∙ floats_get-Holds medians ms i d medians_hold (omega (arith, lt, medians_count)) in
      let end =
        ap (λ v. floats_get v (i + 1)) a.same_medians
        ∙ floats_get-Holds medians ms (i + 1) d medians_hold (omega (arith, lt, medians_count)) in
      let (range, run, range_holds) =
        in_range-chosen at_least less (median i) (median (i + 1)) fs xs fs_holds small in
      let (sorted, run', holds) =
        qsort_floats-Holds at_least less qsort o q range
          (chosen (between at_least less (median i) (median (i + 1))) xs) range_holds in
      let size : range.size ≡ length (part i) =
        sym range_holds.count
        ∙ sym (
            length-qsort at_least less qsort o q
              (chosen (between at_least less (median i) (median (i + 1))) xs)) in
      let in_sizes : i < length s.sizes = omega (arith, lt, a.sizes_count) in
      let in_ranges : i < length s.ranges = omega (arith, lt, a.ranges_count) in
      let sizes' = set s.sizes i (some range.size) in
      let ranges' = set s.ranges i (some sorted) in
      let s' : Shared F = record s { sizes = sizes'; ranges = ranges' } in
      let here : Arrived s' i = record {
        range = sorted;
        mine = get_or-set_self s.ranges i (some sorted) none in_ranges;
        holds = holds;
        size = get_or-set_self s.sizes i (some range.size) none in_sizes ∙ ap some size;
      } in
      let run_range =
        ap (λ v. in_range at_least less v (median i) (median (i + 1))) a.same_fs ∙ run in
      (
        s',
        rw start (
            rw end (
              rw run_range (
                rw (store-set s.sizes i (some range.size) in_sizes)
                  (rw run' (rw (store-set s.ranges i (some sorted) in_ranges) refl))))),
        (
          record {
            same_fs = a.same_fs;
            same_medians = a.same_medians;
            sizes_count = length-set s.sizes i (some range.size) ∙ a.sizes_count;
            ranges_count = length-set s.ranges i (some sorted) ∙ a.ranges_count;
          },
          here,
          λ j lt_j p. elim (ℕ_discrete j i) [
            | yes e ↦ subst (Arrived s') (sym e) here
            | no ne ↦ record {
              range = p.range;
              mine = get_or-set_other s.ranges i j (some sorted) none in_ranges ne ∙ p.mine;
              holds = p.holds;
              size = get_or-set_other s.sizes i j (some range.size) none in_sizes ne ∙ p.size;
            }
          ],
        ),
      )

  length-parts : (i : ℕ) → length (parts (suc i)) ≡ length (parts i) + length (part i)
  unfolding joined
  length-parts i = length-append (parts i) (part i)

  pub parts_mono : (i j : ℕ) → i ≤ j → length (parts i) ≤ length (parts j)
  parts_mono i zero h = let e : i ≡ zero = omega arith in rw e (omega arith)
  parts_mono i (suc j) h = elim (ℕ_discrete i (suc j)) [
    | yes e ↦ rw e (omega arith)
    | no ne ↦ omega (arith, parts_mono i j (omega (arith, h, ne)), length-parts j)
  ]

  -- While the threads run their second halves: those that have arrived stay us they are.
  pub record Leaving (a s : Shared F) : Type 0 where
    pub same_sizes : s.sizes ≡ a.sizes
    pub same_ranges : s.ranges ≡ a.ranges
    pub same_size : s.fs.size ≡ fs.size
    pub same_cap : s.fs.cap ≡ fs.cap
    pub cells_count : length s.fs.cells ≡ fs.cap

  -- Thread `i` has copied its numbers to their place.
  abbrev pub Left : Shared F → ℕ → Type 0
  Left s i = take (length (part i)) (drop (length (parts i)) s.fs.cells) ≡ map some (part i)

  count_before_lem :
      (a : Shared F)
      → length a.sizes ≡ n
      → ((i : ℕ) → i < n → Arrived a i)
      → length (parts n) < 2 ^ 31
      → (i : ℕ) → i ≤ n
      → count_before i a.sizes ≡ ret (length (parts i))
  unfolding count_before number joined
  count_before_lem a e all small zero h = refl
  count_before_lem a e all small (suc i) h =
      let found =
        read-get_or a.sizes i none (omega (arith, h, e)) ∙ ap ret (all i (omega arith)).size in
      let below : length (parts i) + length (part i) < 2 ^ 31 =
        omega (arith, parts_mono (suc i) n h, length-parts i, small) in
      rw (count_before_lem a e all small i (omega arith)) (
        rw found (
          rw (lt→ltb (length (parts i) + length (part i)) (2 ^ 31) below)
            (ap ret (sym (length-parts i)))))

  pub second_half-Left :
      (a : Shared F)
      → Arriving a
      → ((i : ℕ) → i < n → Arrived a i)
      → length (parts n) ≤ fs.size
      → fs.size < 2 ^ 31
      → (s : Shared F) (i : ℕ) → i < n
      → Leaving a s
      → Succeeds
          (second_half s i)
          λ s'. Leaving a s' × Left s' i × ((j : ℕ) → j < n → Left s j → Left s' j)
  unfolding second_half number
  second_half-Left a arriving all whole small s i lt l =
      let at = length (parts i) in
      let mine = all i lt in
      let range = mine.range in
      let len = length (part i) in
      let size : range.size ≡ len = sym mine.holds.count in
      let counted =
        ap (count_before i) l.same_sizes
        ∙ count_before_lem a arriving.sizes_count all (omega (arith, whole, small)) i
            (omega arith) in
      let found =
        ap (λ r. read r i) l.same_ranges
        ∙ read-get_or a.ranges i none (omega (arith, lt, arriving.ranges_count))
        ∙ ap ret mine.mine in
      let ends = parts_mono (suc i) n (omega arith) in
      let total = length-parts i in
      let room : at + len ≤ length s.fs.cells =
        omega (arith, ends, total, whole, fs_holds.fits, l.cells_count) in
      let fits : leb (at + range.size) (length s.fs.cells) ≡ true =
        le→leb (at + range.size) (length s.fs.cells) (omega (arith, room, size)) in
      let ys = map some (part i) in
      let length_ys : length ys ≡ len = length-map (part i) some in
      let written : take range.size range.cells ≡ ys = mine.holds.written in
      let cells' = overwrite at (take range.size range.cells) s.fs.cells in
      let s' : Shared F = record s { fs = record s.fs { cells = cells' } } in
      let cells_e : cells' ≡ overwrite at ys s.fs.cells =
        ap (λ y. overwrite at y s.fs.cells) written in
      let here : Left s' i =
        ap (λ c. take len (drop at c)) cells_e
        ∙ ap (λ k. take k (drop at (overwrite at ys s.fs.cells))) (sym length_ys)
        ∙ overwrite_self at ys s.fs.cells (omega (arith, room, length_ys)) in
      (
        s',
        rw counted (rw found (rw fits refl)),
        (
          record {
            same_sizes = l.same_sizes;
            same_ranges = l.same_ranges;
            same_size = l.same_size;
            same_cap = l.same_cap;
            cells_count =
                length-overwrite at (take range.size range.cells) s.fs.cells ∙ l.cells_count;
          },
          here,
          λ j lt_j p.
              let len_j = length (part j) in
              let at_j = length (parts j) in
              elim (ℕ_discrete j i) [
                | yes e ↦ subst (Left s') (sym e) here
                | no ne ↦ elim (dec_lt j i) [
                  | yes below ↦
                      ap (λ c. take len_j (drop at_j c)) cells_e
                      ∙ overwrite-below at at_j len_j ys s.fs.cells (
                          omega
                            (arith, length-parts j, parts_mono (suc j) i (omega (arith, below))))
                      ∙ p
                  | no above ↦
                      ap (λ c. take len_j (drop at_j c)) cells_e
                      ∙ ap (take len_j) (
                          overwrite-above at at_j ys s.fs.cells (
                            omega (
                              arith,
                              length_ys,
                              total,
                              parts_mono (suc i) j (omega (arith, above, ne)),
                            )))
                      ∙ p
                ]
              ],
        ),
      )

  -- The parts stand behind one another.
  pub Left-parts :
      (s : Shared F)
      → ((i : ℕ) → i < n → Left s i)
      → (k : ℕ) → k ≤ n
      → take (length (parts k)) s.fs.cells ≡ map some (parts k)
  unfolding joined
  Left-parts s all zero h = refl
  Left-parts s all (suc k) h =
      ap (λ m. take m s.fs.cells) (length-parts k)
      ∙ take-add (length (parts k)) (length (part k)) s.fs.cells
      ∙ ap₂ (λ u v. u ++ v) (Left-parts s all k (omega arith)) (all k (omega arith))
      ∙ sym (map_append (parts k) (part k))
