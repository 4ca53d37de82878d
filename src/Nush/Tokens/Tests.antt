-- ===== src/Nush/Tokens/Tests.antt =====
-- A line of the shell, tokenized.
use cs.Base.{ℕ, ◌≡◌, refl, true, List, [], ◌∷◌, map, ret, Succeeds, arith, codes, All, read, store}
use cs.Nush.Svec.{Str, text, svec_push_back, make_svec}
use cs.Nush.Svec.Valid.{IsValid, contents}
use cs.Nush.Tokens.{is_op, isspace, is_word, tokenize, add_op, add_token}
use cs.Nush.Tokens.Join.{AnyToken, join, tokenize-join}
use cs.Nush.Tokens.Loop.{tokenize-Splits}
use cs.Nush.Tokens.Splits.{Kind, member, Splits, operator, word}

abbrev line : Str
line = codes " ls -l|wc"

abbrev words : List Str
words = codes "ls" ∷ codes "-l" ∷ codes "|" ∷ codes "wc" ∷ []

tokenize_runs : tokenize line ≡ ret (record { size = 4; spaces = 4; slots = map text words })
unfolding tokenize add_op add_token is_op isspace is_word svec_push_back make_svec read store
tokenize_runs = refl

words-AnyToken : All AnyToken words
unfolding is_op is_word isspace
words-AnyToken =
    let two : (k : Kind) (a b : ℕ) → member k a ≡ true → member k b ≡ true → AnyToken (a ∷ b ∷ []) =
      λ k a b p q. (k, (omega arith, (p, (q, tt)))) in
    (
      two word b'l' b's' refl refl,
      (
        two word b'-' b'l' refl refl,
        ((operator, (omega arith, (refl, tt))), (two word b'w' b'c' refl refl, tt)),
      ),
    )

tokenize-Splits_example :
    Succeeds
      (tokenize line)
      λ sv. IsValid sv × ((ws : List Str) × (contents sv ≡ map text ws) × Splits line ws)
tokenize-Splits_example = tokenize-Splits line (omega arith)

tokenize-join_example :
    Succeeds (tokenize (join words)) λ sv. IsValid sv × (contents sv ≡ map text words)
unfolding join
tokenize-join_example = tokenize-join words words-AnyToken (omega arith)
