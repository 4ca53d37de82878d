-- ===== src/Nush/Tokens/Splits.antt =====
-- The tokens of a line, described by a grammar: blanks separate, and a token is a longest run of
-- operator bytes or of other bytes.
use cs.Base.{ℕ, ◌<◌, ◌≡◌, List, [], ◌∷◌, ◌++◌, Bool, true, length, All}
use cs.Nush.Svec.{Str}
use cs.Nush.Tokens.{is_op, isspace, is_word}
use cs.Nush.Tokens.Munch.{Stops}

-- The two kinds of token.
pub data Kind : Type 0 where
  operator word : Kind

abbrev pub member : Kind → ℕ → Bool
member operator = is_op
member word = is_word

-- Some bytes, all of one kind.
abbrev pub IsToken : Kind → Str → Type 0
IsToken k w = (0 < length w) × All (λ c. member k c ≡ true) w

pub data Splits : Str → List Str → Type 0 where
  done : Splits [] []
  blank : {c : ℕ} {s : Str} {ws : List Str} → isspace c ≡ true → Splits s ws → Splits (c ∷ s) ws
  token :
      {s : Str} (k : Kind) (w rest : Str) {ws : List Str}
      → s ≡ w ++ rest
      → IsToken k w
      → Stops (member k) rest
      → Splits rest ws
      → Splits s (w ∷ ws)
