-- ===== src/Tsort/Sample/Tests.antt =====
-- Runs and examples of sample_sort of hw07/hw07-assignment/tsort.c, on numbers and an insertion sort.
use cs.Base.{
  ℕ, zero, suc, ◌+◌, ◌≤◌, ◌<◌, ◌≡◌, ◌≢◌, refl, sym, ◌∙◌, ap, List, [], ◌∷◌, Bool, true, false, none,
  some, inl, inr, arith, ℤ, pos, negsuc, ltb, leb, if◌then◌else◌, ltb→lt, not_ltb→le, Bool-cases,
  All,
}
use cs.Base.{Succeeds, ret, read, store, for_range, All-imp}
use cs.Tsort.{Floats, number, floats_get, floats_push, floats_make, in_range}
use cs.Tsort.Vector.{Holds}
use cs.Tsort.Sample.{float_cmp, sample_sort}
use cs.Tsort.Sample.Ordered.{Ascending, IsOrder, IsSort, count}
use cs.Tsort.Sample.Threads.{Occurs, IsOrderOf}
use cs.Tsort.Sample.Ordered.{bit, Ascending-imp}
use cs.Tsort.Sample.Sorts.{Sorted, sample_sort-Sorted}

unfoldable over : ℤ → Bool
over (pos zero) = false
over (pos (suc n)) = true
over (negsuc n) = false

unfoldable insert : {F : Type 0} → (F → F → ℤ) → F → List F → List F
unfolding over
insert cmp x [] = x ∷ []
insert cmp x (y ∷ ys) = if over (cmp x y) then y ∷ insert cmp x ys else x ∷ y ∷ ys

unfoldable insertion_sort : {F : Type 0} → (F → F → ℤ) → List F → List F
unfolding insert
insertion_sort cmp [] = []
insertion_sort cmp (x ∷ xs) = insert cmp x (insertion_sort cmp xs)

count-insert :
    {F : Type 0} (cmp : F → F → ℤ) (p : F → Bool) (x : F) (ys : List F)
    → count p (insert cmp x ys) ≡ bit (p x) + count p ys
unfolding insert count
count-insert cmp p x [] = refl
count-insert cmp p x (y ∷ ys) = elim (Bool-cases (over (cmp x y))) [
  | inl h ↦ rw h (omega (arith, count-insert cmp p x ys))
  | inr h ↦ rw h refl
]

count-insertion_sort :
    {F : Type 0} (cmp : F → F → ℤ) (p : F → Bool) (xs : List F)
    → count p (insertion_sort cmp xs) ≡ count p xs
unfolding insertion_sort count
count-insertion_sort cmp p [] = refl
count-insertion_sort cmp p (x ∷ xs) =
    count-insert cmp p x (insertion_sort cmp xs)
    ∙ ap (λ k. bit (p x) + k) (count-insertion_sort cmp p xs)

over-float_cmp : (x y : ℕ) → over (float_cmp ltb x y) ≡ ltb y x
unfolding over float_cmp
over-float_cmp x y = elim (Bool-cases (ltb y x)) [
  | inl h ↦ rw h refl
  | inr h ↦ rw h (elim (Bool-cases (ltb x y)) [ inl k ↦ rw k refl | inr k ↦ rw k refl ])
]

insert-All :
    (P : ℕ → Type 0) (x : ℕ) (ys : List ℕ) → P x → All P ys → All P (insert (float_cmp ltb) x ys)
unfolding insert
insert-All P x [] h all = (h, tt)
insert-All P x (y ∷ ys) h (k, all) = elim (Bool-cases (over (float_cmp ltb x y))) [
  | inl e ↦ rw e (k, insert-All P x ys h all)
  | inr e ↦ rw e (h, (k, all))
]

insert-Ascending :
    (x : ℕ) (ys : List ℕ) → Ascending ◌≤◌ ys → Ascending ◌≤◌ (insert (float_cmp ltb) x ys)
unfolding insert Ascending
insert-Ascending x [] a = (tt, tt)
insert-Ascending x (y ∷ ys) (h, a) =
    let e = over-float_cmp x y in
    elim (Bool-cases (ltb y x)) [
      | inl k ↦
          let l = ltb→lt y x k in
          rw (e ∙ k) (insert-All (λ z. y ≤ z) x ys (omega arith) h, insert-Ascending x ys a)
      | inr k ↦
          let l = not_ltb→le y x k in
          rw (e ∙ k) ((omega arith, All-imp ys (λ z yz. omega (arith, yz, l)) h), (h, a))
    ]

insertion_sort-Ascending : (xs : List ℕ) → Ascending ◌≤◌ (insertion_sort (float_cmp ltb) xs)
unfolding insertion_sort Ascending
insertion_sort-Ascending [] = tt
insertion_sort-Ascending (x ∷ xs) =
    insert-Ascending x (insertion_sort (float_cmp ltb) xs) (insertion_sort-Ascending xs)

le_cmp : (x y : ℕ) → x ≤ y → float_cmp ltb x y ≢ pos 1
unfolding float_cmp over
le_cmp x y h e =
    let k : over (float_cmp ltb x y) ≡ true = rw e refl in
    let l = ltb→lt y x (sym (over-float_cmp x y) ∙ k) in absurd (omega (arith, h, l))

insertion_sort-IsSort : IsSort ltb insertion_sort
insertion_sort-IsSort = record {
  counts = λ p xs. count-insertion_sort (float_cmp ltb) p xs;
  sorts =
      λ xs. Ascending-imp (insertion_sort (float_cmp ltb) xs) le_cmp (insertion_sort-Ascending xs);
}

abbrev at_least : ℕ → ℕ → Bool
at_least a b = leb b a

ltb-IsOrder : IsOrder at_least ltb
ltb-IsOrder = record {
  at_least_iff = λ x y. ground arith;
  irrefl = λ x. ground arith;
  trans = λ x y z h k. ground arith;
  split = λ x y z h k. ground arith;
}

abbrev numbers : Floats ℕ
numbers = record { size = 3; cap = 4; cells = some 5 ∷ some 1 ∷ some 7 ∷ none ∷ [] }

numbers-Holds : Holds numbers (5 ∷ 1 ∷ 7 ∷ [])
numbers-Holds = record {
  room = omega arith;
  sized = refl;
  count = refl;
  fits = omega arith;
  written = refl;
}

two_threads : (i : ℕ) → i < 2 → Occurs i (1 ∷ 0 ∷ [])
unfolding Occurs
two_threads zero h = inr (inl refl)
two_threads (suc zero) h = inl refl
two_threads (suc (suc i)) h = absurd (omega arith)

both_ways : IsOrderOf 2 (1 ∷ 0 ∷ [])
both_ways = record { bounded = (omega arith, (omega arith, tt)); once = refl; occurs = two_threads }

sample_sort_run :
    sample_sort at_least ltb insertion_sort 0 100 (λ i. i) numbers 2 (1 ∷ 0 ∷ []) (1 ∷ 0 ∷ [])
    ≡ ret (record { size = 3; cap = 4; cells = some 1 ∷ some 5 ∷ some 7 ∷ none ∷ [] })
unfolding sample_sort insertion_sort for_range read store float_cmp cs.Tsort.floats_size
sample_sort_run = refl

sample_sort-Sorted_example :
    Succeeds
      (sample_sort at_least ltb insertion_sort 0 100 (λ i. i) numbers 2 (1 ∷ 0 ∷ []) (1 ∷ 0 ∷ []))
      (Sorted ltb (5 ∷ 1 ∷ 7 ∷ []))
sample_sort-Sorted_example =
    sample_sort-Sorted at_least ltb insertion_sort ltb-IsOrder insertion_sort-IsSort 0 100 (λ i. i)
      refl numbers (5 ∷ 1 ∷ 7 ∷ []) 2 (1 ∷ 0 ∷ []) (1 ∷ 0 ∷ []) numbers-Holds (omega arith)
      (omega arith) (refl, (refl, (refl, tt))) (omega arith) (omega arith) both_ways both_ways
