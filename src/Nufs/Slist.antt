-- ===== src/Nufs/Slist.antt =====
-- hw10/starter-fshw/slist.c: lists of strings. `s_cons` copies the text and starts a count of one,
-- which nothing raises, so a list is its texts in order and `s_free` ends its life.
pub mod Split
use cs.Base.{
  int, ℕ, zero, suc, ◌+◌, List, [], ◌∷◌, Outcome, ret, fault, out_of_fuel, ◌>>=◌, length, take,
  drop, get_or, ◌==◌, if◌then◌else◌,
}

abbrev pub Text : Type 0
Text = List ℕ

unfoldable pub s_cons : Text → List Text → List Text
s_cons text rest = text ∷ rest

-- `s_concat(xs, 0)`
unfoldable pub s_concat_nil : List Text → List Text
s_concat_nil [] = []
s_concat_nil (x ∷ xs) = s_cons x (s_concat_nil xs)

unfoldable pub s_concat : List Text → List Text → List Text
unfolding s_concat_nil
s_concat [] ys = s_concat_nil ys
s_concat (x ∷ xs) ys = s_cons x (s_concat xs ys)

unfoldable pub s_copy : List Text → List Text
unfolding s_concat
s_copy xs = s_concat xs []

-- The loop of `s_reverse`.
unfoldable pub s_reverse_onto : List Text → List Text → List Text
unfolding s_cons
s_reverse_onto [] ys = ys
s_reverse_onto (x ∷ xs) ys = s_reverse_onto xs (s_cons x ys)

unfoldable pub s_reverse : List Text → List Text
unfolding s_reverse_onto
s_reverse xs = s_reverse_onto xs []

-- The loop that finds the length of the first part.
unfoldable pub part_length : Text → ℕ → ℕ
part_length [] delim = 0
part_length (c ∷ s) delim = let rest = part_length s delim in if c == delim then 0 else suc rest

-- The fuel bounds the depth of the calls: each takes a byte of the text at least. The length of a part
-- is an `int`.
unfoldable pub s_split_fuel : ℕ → Text → ℕ → Outcome (List Text)
unfolding part_length s_cons
s_split_fuel zero text delim = fault out_of_fuel
s_split_fuel (suc f) [] delim = ret []
s_split_fuel (suc f) (c ∷ s) delim =
    let text = c ∷ s in
    int (part_length text delim) >>= λ plen.
    let skip : ℕ = if get_or text plen 0 == delim then 1 else 0 in
    s_split_fuel f (drop (plen + skip) text) delim >>= λ rest. ret (s_cons (take plen text) rest)

unfoldable pub s_split : Text → ℕ → Outcome (List Text)
unfolding s_split_fuel
s_split text delim = s_split_fuel (length text + 1) text delim
