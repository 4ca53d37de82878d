-- ===== src/Nush/Svec.antt =====
-- chal1/challenge01/svec.c: a growing vector of strings that it owns.
-- A string is the list of its bytes before the NUL. Allocation succeeds, and `free` of what the
-- vector owns has no effect that the model sees. An index is a natural number, so the test
-- `ii >= 0` holds; the -1 of `svec_index_of` is `none`.
pub mod Valid
pub mod Reverse
pub mod Slice
pub mod Search
mod Tests
use cs.Base.{
  ℕ, zero, suc, ◌+◌, ◌-◌, ◌*◌, ◌/◌, List, [], ◌∷◌, ◌++◌, Bool, true, false, ◌&&◌, Option, none,
  some, Outcome, ret, fault, null_pointer, uninitialised, out_of_bounds, ◌>>=◌, ◌>>◌, assert, int,
  read, store, for_range, length, take, drop, replicate, ltb, leb, ◌==◌, if◌then◌else◌,
}

abbrev pub Str : Type 0
Str = List ℕ

-- `strcmp(a, b) == 0`
unfoldable pub str_eq : Str → Str → Bool
str_eq [] [] = true
str_eq [] (y ∷ ys) = false
str_eq (x ∷ xs) [] = false
str_eq (x ∷ xs) (y ∷ ys) = x == y && str_eq xs ys

-- A `char*` in the array: not yet written, NULL, or a string.
pub data Slot : Type 0 where
  junk null : Slot
  text : Str → Slot

-- `struct svec`; `slots` is the block that `data` points to.
pub record Svec : Type 0 where
  pub size : ℕ
  pub spaces : ℕ
  pub slots : List Slot

-- `calloc` clears the block.
unfoldable pub make_svec : Svec
make_svec = record { size = 2; spaces = 0; slots = replicate 2 null }

unfoldable pub svec_length : Svec → ℕ
svec_length sv = sv.spaces

unfoldable pub svec_get : Svec → ℕ → Outcome Slot
svec_get sv ii = assert (ltb ii sv.spaces) >> read sv.slots ii

-- `item ? strdup(item) : item`, where the test reads the pointer.
unfoldable pub duplicate : Slot → Outcome Slot
duplicate junk = fault uninitialised
duplicate null = ret null
duplicate (text s) = ret (text s)

-- `if (p) free(p)`
unfoldable pub release : Slot → Outcome (Unit {0})
release junk = fault uninitialised
release null = ret tt
release (text s) = ret tt

unfoldable pub svec_put : Svec → ℕ → Slot → Outcome Svec
unfolding duplicate release
svec_put sv ii item = do
  assert (ltb ii sv.spaces)
  copy ← duplicate item
  old ← read sv.slots ii
  release old
  slots ← store sv.slots ii copy
  ret (record sv { slots = slots })

-- `realloc` to `n` cells keeps what fits, and leaves new cells unwritten.
unfoldable pub realloc : List Slot → ℕ → List Slot
realloc xs n = take n xs ++ replicate (n - length xs) junk

-- `memset(xs + from, 0, n * sizeof(char*))`
unfoldable pub clear : List Slot → ℕ → ℕ → Outcome (List Slot)
clear xs from n =
    if leb (from + n) (length xs)
    then ret (take from xs ++ (replicate n null ++ drop (from + n) xs))
    else fault out_of_bounds

-- The growth step of `svec_push_back`.
unfoldable pub grow : Svec → Outcome Svec
unfolding realloc clear
grow sv = do
  new_size ← int (sv.size * 2)
  slots ← clear (realloc sv.slots new_size) sv.size sv.size
  ret (record sv { size = new_size; slots = slots })

unfoldable pub svec_push_back : Svec → Slot → Outcome Svec
unfolding grow svec_put
svec_push_back sv item = do
  let ii = sv.spaces
  grown ← if leb sv.size sv.spaces then grow sv else ret sv
  spaces ← int (grown.spaces + 1)
  svec_put (record grown { spaces = spaces }) ii item

unfoldable pub svec_swap : Svec → ℕ → ℕ → Outcome Svec
unfolding svec_get
svec_swap sv ii jj = do
  slot1 ← svec_get sv ii
  slot2 ← svec_get sv jj
  slots ← store sv.slots ii slot2
  slots' ← store slots jj slot1
  ret (record sv { slots = slots' })

unfoldable pub svec_reverse : Svec → Outcome Svec
unfolding svec_swap
svec_reverse sv = for_range (sv.spaces / 2) 0 (λ ii s. svec_swap s ii (s.spaces - ii - 1)) sv

unfoldable pub strcmp_slot : Slot → Str → Outcome Bool
strcmp_slot junk item = fault uninitialised
strcmp_slot null item = fault null_pointer
strcmp_slot (text s) item = ret (str_eq s item)

-- The loop of `svec_index_of`, with `n` rounds left.
unfoldable pub index_of_from : ℕ → ℕ → List Slot → Str → Outcome (Option ℕ)
unfolding strcmp_slot
index_of_from zero ii slots item = ret none
index_of_from (suc n) ii slots item = do
  s ← read slots ii
  same ← strcmp_slot s item
  elim same [ true ↦ ret (some ii) | false ↦ index_of_from n (ii + 1) slots item ]

unfoldable pub svec_index_of : Svec → Str → Outcome (Option ℕ)
unfolding index_of_from
svec_index_of sv item = index_of_from sv.spaces 0 sv.slots item

unfoldable pub sub_svec : Svec → ℕ → ℕ → Outcome Svec
unfolding make_svec svec_get svec_push_back
sub_svec sv start_index end_index = do
  assert (leb end_index sv.spaces)
  for_range (end_index - start_index) start_index
      (λ ii new_sv. svec_get sv ii >>= svec_push_back new_sv) make_svec

unfoldable pub svec_clone : Svec → Outcome Svec
unfolding sub_svec
svec_clone sv = sub_svec sv 0 sv.spaces
