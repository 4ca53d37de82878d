-- ===== src/Nufs/Slist/Split.antt =====
-- `s_split` cuts a text at its delimiters, and `s_reverse` and `s_concat` are what they say.
use cs.Base.{
  ℕ, ◌+◌, ◌≤◌, ◌≡◌, refl, sym, ◌∙◌, ap, List, [], ◌∷◌, ◌++◌, reverse, false, ◌⊎◌, ◌==◌, length, All,
  take, drop,
}
use cs.Base.{append-nil, append_assoc}
use mathlib.Core.List.{reverse-append}
use cs.Nufs.Slist.{Text, s_cons, s_concat_nil, s_concat, s_reverse_onto, s_reverse}

-- `s_concat` appends, and `s_reverse` reverses.
s_concat_nil-same : (ys : List Text) → s_concat_nil ys ≡ ys
unfolding s_concat_nil s_cons
s_concat_nil-same [] = refl
s_concat_nil-same (y ∷ ys) = ap (λ t. y ∷ t) (s_concat_nil-same ys)

pub s_concat-append : (xs ys : List Text) → s_concat xs ys ≡ xs ++ ys
unfolding s_concat s_cons
s_concat-append [] ys = s_concat_nil-same ys
s_concat-append (x ∷ xs) ys = ap (λ t. x ∷ t) (s_concat-append xs ys)

reverse_onto-append : (xs ys : List Text) → s_reverse_onto xs ys ≡ reverse xs ++ ys
unfolding s_reverse_onto s_cons
reverse_onto-append [] ys = refl
reverse_onto-append (x ∷ xs) ys =
    reverse_onto-append xs (x ∷ ys)
    ∙ sym (ap (λ t. t ++ ys) (reverse-append (x ∷ []) xs) ∙ append_assoc (reverse xs) (x ∷ []) ys)

pub s_reverse-reverse : (xs : List Text) → s_reverse xs ≡ reverse xs
unfolding s_reverse
s_reverse-reverse xs = reverse_onto-append xs [] ∙ append-nil (reverse xs)

-- The parts with a delimiter behind each.
unfoldable pub unsplit : ℕ → List Text → Text
unsplit delim [] = []
unsplit delim (p ∷ ps) = p ++ delim ∷ unsplit delim ps

abbrev pub Without : ℕ → Text → Type 0
Without delim p = All (λ c. (c == delim) ≡ false) p

-- The first part: no delimiter in it, and one behind it or the end.
abbrev Front : ℕ → Text → ℕ → Type 0
Front delim text n =
    Without delim (take n text)
    × (n ≤ length text)
    × ((drop n text ≡ []) ⊎ (drop n text ≡ delim ∷ drop (n + 1) text))

-- What `s_split` returns for a text: parts without a delimiter that make up the text, or the text
-- with a delimiter behind it.
pub record Parts (delim : ℕ) (text : Text) (ps : List Text) : Type 0 where
  pub clean : All (Without delim) ps
  pub whole : (unsplit delim ps ≡ text) ⊎ (unsplit delim ps ≡ text ++ delim ∷ [])
