-- ===== src/Nush/Astree/Tests.antt =====
-- The tokens of `a ; b | c`, parsed.
use cs.Base.{◌≡◌, sym, subst, refl, List, [], ◌∷◌, ◌++◌, map, Succeeds, arith, codes}
use cs.Nush.Astree.{Astree, parse}
use cs.Nush.Astree.Parse.{Carries, Reads, parse-Reads}
use cs.Nush.Astree.Unique.{shape, parse-yield_words}
use cs.Nush.Svec.{Str, null, text, Svec}

abbrev words : List Str
words = codes "a" ∷ codes ";" ∷ codes "b" ∷ codes "|" ∷ codes "c" ∷ []

abbrev tokens : Svec
tokens = record { size = 8; spaces = 5; slots = map text words ++ null ∷ null ∷ null ∷ [] }

tokens-Carries : Carries tokens words
tokens-Carries = record { valid = omega arith; items = refl; small = omega arith }

parse-Reads_example : Succeeds (parse tokens) (Reads words)
parse-Reads_example = parse-Reads tokens-Carries

abbrev reading : Succeeds (parse tokens) (Reads words)
reading = parse-Reads tokens-Carries

abbrev tree : Astree
tree = reading.0

parse-yield_words_example : Succeeds (parse tokens) λ t'. shape t' ≡ shape tree
parse-yield_words_example =
    parse-yield_words tree reading.2.graded
      (subst (Carries tokens) (sym reading.2.words) tokens-Carries)
