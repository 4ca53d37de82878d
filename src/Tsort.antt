-- ===== src/Tsort.antt =====
-- hw07/hw07-assignment: the vector of numbers of float_vec.c, and `in_range` of tsort.c, the part of the
-- numbers that a thread sorts; in child modules the barrier of barrier.c and `sample_sort` of tsort.c.
-- `float` and its comparisons are parameters. A long that no `int` holds is a fault of the model where
-- it becomes one, since the compiler decides what it is converted to.
pub mod Vector
pub mod Extreme
pub mod Barrier
pub mod Sample
mod Tests
use cs.Base.{
  int, ℕ, zero, suc, ◌+◌, ◌-◌, ◌*◌, List, [], ◌∷◌, ◌++◌, Bool, true, false, not, ◌&&◌, Option, none,
  some, Outcome, ret, fault, assert, uninitialised, ◌>>=◌, ◌>>◌, read, store, length, take,
  replicate, ltb, leb, if◌then◌else◌,
}

-- `malloc` and `realloc` leave new cells unwritten, which is `none`.
pub record Floats (F : Type 0) : Type 0 where
  pub size : ℕ
  pub cap : ℕ
  pub cells : List (Option F)

module _ {F : Type 0} where
  unfoldable pub floats_make : Floats F
  floats_make = record { size = 0; cap = 1; cells = none ∷ [] }

  unfoldable pub floats_push : Floats F → F → Outcome (Floats F)
  floats_push xs xx = do
    let cap = if leb xs.cap xs.size then xs.cap * 2 else xs.cap
    let cells =
        if leb xs.cap xs.size
        then take cap xs.cells ++ replicate (cap - length xs.cells) none
        else xs.cells
    written ← store cells xs.size (some xx)
    ret (record { size = xs.size + 1; cap = cap; cells = written })

  -- The size is a long and the result an int.
  unfoldable pub floats_size : Floats F → Outcome ℕ
  floats_size fs = int fs.size

  -- The number in a cell.
  unfoldable pub number : Option F → Outcome F
  number none = fault uninitialised
  number (some x) = ret x

  unfoldable pub floats_get : Floats F → ℕ → Outcome F
  unfolding number
  floats_get fs ii = assert (ltb ii fs.size) >> read fs.cells ii >>= number

  unfoldable pub floats_put : Floats F → ℕ → F → Outcome (Floats F)
  floats_put fs ii num = do
    assert (ltb ii fs.size)
    cells ← store fs.cells ii (some num)
    ret (record fs { cells = cells })

  unfoldable pub floats_swap : Floats F → ℕ → ℕ → Outcome (Floats F)
  unfolding floats_get
  floats_swap fs ii jj = do
    slot1 ← floats_get fs ii
    slot2 ← floats_get fs jj
    cells ← store fs.cells ii (some slot2)
    cells' ← store cells jj (some slot1)
    ret (record fs { cells = cells' })

  -- The loops of `floats_largest` and `floats_smallest`, which take the number when `better` says so.
  unfoldable pub best_from : (F → F → Bool) → ℕ → ℕ → Floats F → F → Outcome F
  unfolding number
  best_from better zero i fs best = ret best
  best_from better (suc n) i fs best = do
    c ← read fs.cells i
    x ← number c
    best_from better n (i + 1) fs (if better x best then x else best)

-- `less` is `<` of `float`.
module _ {F : Type 0} (less : F → F → Bool) where
  unfoldable pub floats_largest : Floats F → Outcome F
  unfolding number best_from
  floats_largest fs = do
    c ← read fs.cells 0
    x ← number c
    best_from (λ a b. less b a) fs.size 0 fs x

  unfoldable pub floats_smallest : Floats F → Outcome F
  unfolding number best_from
  floats_smallest fs = do c ← read fs.cells 0; x ← number c; best_from less fs.size 0 fs x

-- `at_least` is `>=` of `float`, which is no negation of `<` where a number is none.
module _ {F : Type 0} (at_least less : F → F → Bool) where
  -- The loop of `in_range` from `i` on with `n` rounds left.
  unfoldable pub in_range_from : ℕ → ℕ → Floats F → F → F → Floats F → Outcome (Floats F)
  unfolding floats_get floats_push
  in_range_from zero i fs start end range = ret range
  in_range_from (suc n) i fs start end range = do
    test ← floats_get fs i
    range' ← if at_least test start && less test end then floats_push range test else ret range
    in_range_from n (i + 1) fs start end range'

  unfoldable pub in_range : Floats F → F → F → Outcome (Floats F)
  unfolding in_range_from floats_size
  in_range fs start end = floats_size fs >>= λ size. in_range_from size 0 fs start end floats_make
