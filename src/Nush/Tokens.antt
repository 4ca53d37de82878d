-- ===== src/Nush/Tokens.antt =====
-- chal1/challenge01/tokens.c: the tokenizer of the shell.
-- A line is the list of its bytes before the NUL. `count_while` is the loop that `add_op` and
-- `add_token` share; its fuel, the length of the line, is more than the rounds that it can make.
pub mod Munch
pub mod Splits
pub mod Loop
pub mod Join
mod Tests
use cs.Base.{
  ℕ, zero, suc, ◌+◌, Bool, true, false, not, ◌&&◌, ◌||◌, Outcome, ret, fault, out_of_fuel, ◌>>=◌,
  length, take, drop, get_or, ltb, leb, ◌==◌, if◌then◌else◌,
}
use cs.Nush.Svec.{Str, text, Svec, make_svec, svec_push_back}

unfoldable pub is_op : ℕ → Bool
is_op x = x == b'&' || (x == b'<' || (x == b'>' || (x == b'|' || x == b';')))

-- `isspace` of the C locale: the blank, and the bytes from tab to carriage return.
unfoldable pub isspace : ℕ → Bool
isspace x = x == b' ' || (leb 9 x && leb x 13)

-- What a token that is no operator is made of.
unfoldable pub is_word : ℕ → Bool
is_word x = not (is_op x || isspace x)

unfoldable pub count_while : (ℕ → Bool) → ℕ → Str → ℕ → ℕ → ℕ
count_while keep zero line start num_chars = num_chars
count_while keep (suc f) line start num_chars =
    let more = count_while keep f line start (num_chars + 1) in
    if ltb (num_chars + start) (length line)
    then (if keep (get_or line (num_chars + start) 0) then more else num_chars)
    else num_chars

-- Both return the number of bytes taken, and push a copy of them.
unfoldable pub add_op : Svec → Str → ℕ → Outcome (ℕ × Svec)
unfolding count_while
add_op sv line start = do
  let num_chars = count_while is_op (length line) line start 0
  sv' ← svec_push_back sv (text (take num_chars (drop start line)))
  ret (num_chars, sv')

unfoldable pub add_token : Svec → Str → ℕ → Outcome (ℕ × Svec)
unfolding count_while
add_token sv line start = do
  let num_chars = count_while is_word (length line) line start 0
  sv' ← svec_push_back sv (text (take num_chars (drop start line)))
  ret (num_chars, sv')

unfoldable pub tokenize_loop : ℕ → Svec → Str → ℕ → Outcome Svec
tokenize_loop zero sv line ii = fault out_of_fuel
tokenize_loop (suc f) sv line ii =
    let after_space = tokenize_loop f sv line (ii + 1) in
    let after_op = add_op sv line ii >>= λ r. tokenize_loop f r.1 line (ii + r.0) in
    let after_token = add_token sv line ii >>= λ r. tokenize_loop f r.1 line (ii + r.0) in
    if ltb ii (length line)
    then (if isspace (get_or line ii 0)
        then after_space
        else (if is_op (get_or line ii 0) then after_op else after_token))
    else ret sv

unfoldable pub tokenize : Str → Outcome Svec
unfolding tokenize_loop
tokenize line = tokenize_loop (length line + 1) make_svec line 0
