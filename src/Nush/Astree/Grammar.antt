-- ===== src/Nush/Astree/Grammar.antt =====
-- The trees that stand for a token list: the words under a tree, and where an operator may stand.
use cs.Base.{◌<◌, ◌≡◌, ◌≢◌, refl, ◌∙◌, ap, List, [], ◌∷◌, ◌++◌, map, length, All}
use cs.Nush.Astree.{Astree, null, cmd, node, op_list}
use cs.Nush.Svec.{Str, Slot, text, Svec}
use cs.Nush.Svec.Valid.{IsValid, contents}

abbrev pub text_of : Slot → Str
text_of Slot.junk = []
text_of Slot.null = []
text_of (text s) = s

abbrev pub words_of : Svec → List Str
words_of sv = map text_of (contents sv)

-- The words under a tree, from left to right.
unfoldable pub yield_words : Astree → List Str
yield_words null = []
yield_words (cmd sv) = words_of sv
yield_words (node op l r) = yield_words l ++ op ∷ yield_words r

-- None of the operators is among the words.
abbrev pub Absent : List Str → List Str → Type 0
Absent ops ws = All (λ op. All (λ w. w ≢ op) ws) ops

-- An operator stands above its branches only if no operator that binds looser is below it, and it
-- is the first of its kind. A command has a word, and no operator.
unfoldable pub IsGraded : Astree → Type 0
IsGraded null = Unit
IsGraded (cmd sv) =
    IsValid sv
    × (contents sv ≡ map text (words_of sv))
    × (0 < length (words_of sv))
    × Absent op_list (words_of sv)
IsGraded (node op l r) =
    IsGraded l
    × IsGraded r
    × ((before : List Str) × (after : List Str) × (op_list ≡ before ++ op ∷ after)
        × Absent before (yield_words l ++ op ∷ yield_words r)
        × All (λ w. w ≢ op) (yield_words l))

pub words_of-text : (sv : Svec) (ws : List Str) → contents sv ≡ map text ws → words_of sv ≡ ws
words_of-text sv ws e = ap (map text_of) e ∙ back ws
  where
    back : (ws : List Str) → map text_of (map text ws) ≡ ws
    back [] = refl
    back (w ∷ ws) = ap (λ t. w ∷ t) (back ws)
