-- ===== src/Nush/Astree.antt =====
-- chal1/challenge01/astree.c: the syntax trees of the shell and their parser.
-- The null pointer is a tree. The fuel of `parse` is above the number of tokens, which bounds the
-- depth of its calls. `free_astree` and `print_astree` have no effect that the model sees.
pub mod Grammar
pub mod Parse
pub mod Unique
mod Tests
use cs.Base.{
  ℕ, zero, suc, ◌+◌, List, [], ◌∷◌, none, some, Outcome, ret, fault, out_of_fuel, ◌>>=◌, ltb,
  if◌then◌else◌,
}
use cs.Nush.Svec.{Str, Svec, svec_length, svec_index_of, sub_svec, svec_clone}

-- `struct astree`: a command has no operator and no branches, an operator has no command.
pub data Astree : Type 0 where
  null : Astree
  cmd : Svec → Astree
  node : Str → Astree → Astree → Astree

unfoldable pub make_cmd : Svec → Outcome Astree
make_cmd sv = svec_clone sv >>= λ copy. ret (cmd copy)

unfoldable pub make_op : Str → Astree → Astree → Astree
make_op op branch1 branch2 = node op branch1 branch2

-- `";", "&", "||", "&&", "|", ">", "<"`
abbrev pub op_list : List Str
op_list =
    (b';' ∷ [])
    ∷ (b'&' ∷ [])
    ∷ (b'|' ∷ b'|' ∷ [])
    ∷ (b'&' ∷ b'&' ∷ [])
    ∷ (b'|' ∷ [])
    ∷ (b'>' ∷ [])
    ∷ (b'<' ∷ [])
    ∷ []

-- The loop over the operators, where `parse` is the parser for the branches.
unfoldable pub parse_ops : (Svec → Outcome Astree) → List Str → Svec → Outcome Astree
unfolding make_cmd make_op
parse_ops parse [] tokens = make_cmd tokens
parse_ops parse (op ∷ ops) tokens = do
  index ← svec_index_of tokens op
  elim index [
    | none ↦ parse_ops parse ops tokens
    | some ii ↦ do
      branch1 ← sub_svec tokens 0 ii
      branch2 ← sub_svec tokens (ii + 1) (svec_length tokens)
      left ← parse branch1
      right ← parse branch2
      ret (make_op op left right)
  ]

unfoldable pub parse_fuel : ℕ → Svec → Outcome Astree
unfolding parse_ops
parse_fuel zero tokens = fault out_of_fuel
parse_fuel (suc f) tokens =
    if ltb (svec_length tokens) 1 then ret null else parse_ops (parse_fuel f) op_list tokens

unfoldable pub parse : Svec → Outcome Astree
unfolding parse_fuel
parse tokens = parse_fuel (svec_length tokens + 1) tokens
