-- ===== src/Nush/Astree/Unique.antt =====
-- The grammar is not ambiguous: the words under a graded tree determine its shape.
use cs.Base.{
  ◌≡◌, ◌≢◌, refl, sym, ◌∙◌, ap, ap₂, subst, List, [], ◌∷◌, ◌++◌, ◌⊎◌, inl, inr, Succeeds, length,
  All, arith,
}
use cs.Nush.Astree.{Astree, null, cmd, node, op_list, parse}
use cs.Nush.Astree.Grammar.{yield_words, words_of, Absent, IsGraded}
use cs.Nush.Astree.Parse.{Carries, parse-Reads}
use cs.Nush.Svec.{Str, Svec}

-- A tree without the room that its vectors keep.
pub data Shape : Type 0 where
  leaf : List Str → Shape
  nothing : Shape
  branch : Str → Shape → Shape → Shape

unfoldable pub shape : Astree → Shape
shape null = nothing
shape (cmd sv) = leaf (words_of sv)
shape (node op l r) = branch op (shape l) (shape r)

-- Two ways to cut a list at an item: at the same place, or the first item lies before the second
-- cut, or the other way round.
cuts :
    (xs : List Str) (a : Str) (ys xs' : List Str) (a' : Str) (ys' : List Str)
    → xs ++ a ∷ ys ≡ xs' ++ a' ∷ ys'
    → ((xs ≡ xs') × (a ≡ a') × (ys ≡ ys'))
      ⊎ (((zs : List Str) × (xs' ≡ xs ++ a ∷ zs)) ⊎ ((zs : List Str) × (xs ≡ xs' ++ a' ∷ zs)))
cuts [] a ys [] a' ys' e = inl (refl, cc, cc)
cuts [] a ys (x ∷ xs') a' ys' e = inr (inl (xs', cc))
cuts (x ∷ xs) a ys [] a' ys' e = inr (inr (xs, cc))
cuts (x ∷ xs) a ys (x' ∷ xs') a' ys' e =
    let h : x ≡ x' = cc in
    elim (cuts xs a ys xs' a' ys' (cc)) [
      | inl (p, q, r) ↦ inl (ap₂ ◌∷◌ h p, q, r)
      | inr (inl (zs, p)) ↦ inr (inl (zs, ap₂ ◌∷◌ (sym h) p))
      | inr (inr (zs, p)) ↦ inr (inr (zs, ap₂ ◌∷◌ h p))
    ]

All-middle {ℓ} :
    (P : Str → Type ℓ) (xs : List Str) (a : Str) (ys : List Str) → All P (xs ++ a ∷ ys) → P a
All-middle P [] a ys h = h.0
All-middle P (x ∷ xs) a ys h = All-middle P xs a ys h.1

-- An operator that is absent is not one of the words.
not-Absent :
    (before : List Str) (op : Str) (after ops : List Str) (us : List Str) (vs ws : List Str)
    → ops ≡ before ++ op ∷ after
    → ws ≡ us ++ op ∷ vs
    → Absent ops ws
    → ⊥
not-Absent before op after ops us vs ws p q h =
    let all : All (λ w. w ≢ op) ws = All-middle _ before op after (subst (λ o. Absent o ws) p h) in
    All-middle (λ w. w ≢ op) us op vs (subst (λ t. All (λ w. w ≢ op) t) q all) refl

-- Two graded operators over the same words are the same, with the same words in their branches.
same_root :
    (op op' : Str) (before after before' after' l r l' r' : List Str)
    → op_list ≡ before ++ op ∷ after
    → op_list ≡ before' ++ op' ∷ after'
    → Absent before (l ++ op ∷ r)
    → Absent before' (l' ++ op' ∷ r')
    → All (λ w. w ≢ op) l
    → All (λ w. w ≢ op') l'
    → l ++ op ∷ r ≡ l' ++ op' ∷ r'
    → (op ≡ op') × (l ≡ l') × (r ≡ r')
same_root op op' before after before' after' l r l' r' p p' a a' f f' e =
    elim (cuts before op after before' op' after' (sym p ∙ p')) [
      | inr (inl (zs, q)) ↦ absurd (not-Absent before op zs before' l r _ q (sym e) a')
      | inr (inr (zs, q)) ↦ absurd (not-Absent before' op' zs before l' r' _ q e a)
      | inl (_, o, _) ↦ elim (cuts l op r l' op' r' e) [
        | inl (x, y, z) ↦ (o, x, z)
        | inr (inl (zs, q)) ↦
            absurd (All-middle (λ w. w ≢ op') l op zs (subst (λ t. All (λ w. w ≢ op') t) q f') o)
        | inr (inr (zs, q)) ↦
            absurd
              (All-middle (λ w. w ≢ op) l' op' zs (subst (λ t. All (λ w. w ≢ op) t) q f) (sym o))
      ]
    ]

not_nil : (us : List Str) (a : Str) (vs : List Str) → [] ≡ us ++ a ∷ vs → ⊥
not_nil [] a vs e = cc
not_nil (u ∷ us) a vs e = cc

-- Graded trees with the same words under them have the same shape.
pub IsGraded-unique :
    (t t' : Astree) → IsGraded t → IsGraded t' → yield_words t ≡ yield_words t' → shape t ≡ shape t'
unfolding IsGraded yield_words shape
IsGraded-unique null null g g' e = refl
IsGraded-unique null (cmd sv) g g' e = absurd (omega (arith, ap length e, g'.2))
IsGraded-unique null (node op l r) g g' e = absurd (not_nil (yield_words l) op (yield_words r) e)
IsGraded-unique (cmd sv) null g g' e = absurd (omega (arith, ap length e, g.2))
IsGraded-unique (cmd sv) (cmd sv') g g' e = ap leaf e
IsGraded-unique (cmd sv) (node op l r) g (gl, gr, (before, after, p, a, f)) e =
    absurd (not-Absent before op after op_list (yield_words l) (yield_words r) _ p e g.3)
IsGraded-unique (node op l r) null g g' e =
    absurd (not_nil (yield_words l) op (yield_words r) (sym e))
IsGraded-unique (node op l r) (cmd sv) (gl, gr, (before, after, p, a, f)) g' e =
    absurd (not-Absent before op after op_list (yield_words l) (yield_words r) _ p (sym e) g'.3)
IsGraded-unique (node op l r) (node op' l' r') (gl, gr, (before, after, p, a, f))
      (gl', gr', (before', after', p', a', f')) e =
    let (o, x, y) = same_root op op' before after before' after' _ _ _ _ p p' a a' f f' e in
    let left = IsGraded-unique l l' gl gl' x in
    let right = IsGraded-unique r r' gr gr' y in cc (left, right, o)

-- `parse` is a left inverse of writing a graded tree down: on the words of such a tree it does not
-- fault, and gives back a tree of the same shape.
pub parse-yield_words :
    (t : Astree) {sv : Svec}
    → IsGraded t
    → Carries sv (yield_words t)
    → Succeeds (parse sv) λ t'. shape t' ≡ shape t
parse-yield_words t g c =
    let (t', run, r) = parse-Reads c in (t', run, IsGraded-unique t' t r.graded g r.words)
