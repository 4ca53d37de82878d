-- ===== src/Nush/Tokens/Join.antt =====
-- The grammar has one reading of a line, and the tokens put side by side are read back.
use mathlib.Core.List.{flatten}
use cs.Base.{
  ℕ, ◌^◌, ◌<◌, ◌≡◌, refl, sym, ◌∙◌, ap, ap₂, subst, Bool-cases, List, [], ◌∷◌, ◌++◌, map, Bool,
  true, inl, inr, Succeeds, length, All, if◌then◌else◌, arith,
}
use cs.Nush.Svec.{Str, text}
use cs.Nush.Svec.Valid.{IsValid, contents}
use cs.Nush.Tokens.{is_op, isspace, is_word, tokenize}
use cs.Nush.Tokens.Loop.{tokenize-Splits}
use cs.Nush.Tokens.Munch.{Stops}
use cs.Nush.Tokens.Splits.{Kind, operator, word, member, IsToken, Splits, done, blank, token}

-- A longest run is determined by the text.
run_unique :
    (keep : ℕ → Bool) (w w' rest rest' : Str)
    → All (λ c. keep c ≡ true) w
    → All (λ c. keep c ≡ true) w'
    → Stops keep rest
    → Stops keep rest'
    → w ++ rest ≡ w' ++ rest'
    → (w ≡ w') × (rest ≡ rest')
run_unique keep [] [] rest rest' a a' s s' e = (refl, e)
run_unique keep [] (c ∷ w') [] rest' a a' s s' e = cc
run_unique keep [] (c ∷ w') (d ∷ rest) rest' a a' s s' e = let k = a'.0 in cc
run_unique keep (c ∷ w) [] rest [] a a' s s' e = cc
run_unique keep (c ∷ w) [] rest (d ∷ rest') a a' s s' e = let k = a.0 in cc
run_unique keep (c ∷ w) (c' ∷ w') rest rest' a a' s s' e =
    let (p, q) = run_unique keep w w' rest rest' a.1 a'.1 s s' (cc) in (cc, q)

-- A byte is a blank, or of one kind.
blank-member : (k : Kind) (c : ℕ) → isspace c ≡ true → member k c ≡ true → ⊥
unfolding isspace is_op is_word
blank-member operator c p q = ground arith
blank-member word c p q = ground arith

same_kind : (k k' : Kind) (c : ℕ) → member k c ≡ true → member k' c ≡ true → k ≡ k'
unfolding is_word
same_kind operator operator c p q = refl
same_kind word word c p q = refl
same_kind operator word c p q = ground arith
same_kind word operator c p q = ground arith

-- The first byte of a token.
front : (k : Kind) (w : Str) → IsToken k w → (c : ℕ) × (t : Str) × (w ≡ c ∷ t) × (member k c ≡ true)
front k [] h = absurd (omega (arith, h.0))
front k (c ∷ t) h = (c, t, refl, h.1.0)

token-ne-nil : (k : Kind) (w rest : Str) → IsToken k w → w ++ rest ≡ [] → ⊥
token-ne-nil k w rest t e = let (c, u, f, m) = front k w t in cc (ap (λ x. x ++ rest) f)

token-ne-blank :
    (k : Kind) (w rest : Str) (c : ℕ) (s : Str)
    → IsToken k w
    → isspace c ≡ true
    → w ++ rest ≡ c ∷ s
    → ⊥
token-ne-blank k w rest c s t p e =
    let (c', u, f, m) = front k w t in
    let same : c' ≡ c = cc (ap (λ x. x ++ rest) f) in
    blank-member k c p (subst (λ x. member k x ≡ true) same m)

token_unique :
    (k k' : Kind) (w w' rest rest' : Str)
    → IsToken k w
    → IsToken k' w'
    → Stops (member k) rest
    → Stops (member k') rest'
    → w ++ rest ≡ w' ++ rest'
    → (w ≡ w') × (rest ≡ rest')
token_unique k k' w w' rest rest' t t' s s' e =
    let (c, u, f, m) = front k w t in
    let (c', u', f', m') = front k' w' t' in
    let same : c' ≡ c = cc (ap (λ x. x ++ rest) f, ap (λ x. x ++ rest') f') in
    let kk : k' ≡ k = same_kind k' k c (subst (λ x. member k' x ≡ true) same m') m in
    run_unique (member k) w w' rest rest' t.1 (subst (λ x. All (λ b. member x b ≡ true) w') kk t'.1)
      s (subst (λ x. Stops (member x) rest') kk s') e

reads_same : {s s' : Str} {ws ws' : List Str} → Splits s ws → Splits s' ws' → s ≡ s' → ws ≡ ws'
reads_same done done e = refl
reads_same done (blank p b) e = cc
reads_same done (token k w rest f t st b) e = absurd (token-ne-nil k w rest t (sym f ∙ sym e))
reads_same (blank p a) done e = cc
reads_same (blank p a) (blank q b) e = reads_same a b (cc)
reads_same (blank {c = c} {s = s} p a) (token k w rest f t st b) e =
    absurd (token-ne-blank k w rest c s t p (sym f ∙ sym e))
reads_same (token k w rest f t st a) done e = absurd (token-ne-nil k w rest t (sym f ∙ e))
reads_same (token k w rest f t st a) (blank {c = c} {s = s} q b) e =
    absurd (token-ne-blank k w rest c s t q (sym f ∙ e))
reads_same (token k w rest f t st a) (token k' w' rest' f' t' st' b) e =
    let (p, q) = token_unique k k' w w' rest rest' t t' st st' (sym f ∙ e ∙ f') in
    ap₂ ◌∷◌ p (reads_same a b q)

-- The grammar gives a line one list of tokens.
pub Splits-unique : {s : Str} {ws ws' : List Str} → Splits s ws → Splits s ws' → ws ≡ ws'
Splits-unique a b = reads_same a b refl

-- A token of either kind.
abbrev pub AnyToken : Str → Type 0
AnyToken w = (k : Kind) × IsToken k w

-- Only tokens come out.
pub Splits-AnyToken : {s : Str} {ws : List Str} → Splits s ws → All AnyToken ws
Splits-AnyToken done = tt
Splits-AnyToken (blank p a) = Splits-AnyToken a
Splits-AnyToken (token k w rest f t st a) = ((k, t), Splits-AnyToken a)

-- The line without its blanks.
unfoldable pub squeeze : Str → Str
squeeze [] = []
squeeze (c ∷ s) = if isspace c then squeeze s else c ∷ squeeze s

squeeze-token :
    (k : Kind) (w rest : Str)
    → All (λ c. member k c ≡ true) w
    → squeeze (w ++ rest) ≡ w ++ squeeze rest
unfolding squeeze
squeeze-token k [] rest a = refl
squeeze-token k (c ∷ w) rest a = elim (Bool-cases (isspace c)) [
  | inl sp ↦ absurd (blank-member k c sp a.0)
  | inr no_sp ↦ rw no_sp (ap (λ t. c ∷ t) (squeeze-token k w rest a.1))
]

-- The tokens, put together, are the line without its blanks.
pub Splits-squeeze : {s : Str} {ws : List Str} → Splits s ws → flatten ws ≡ squeeze s
unfolding squeeze flatten
Splits-squeeze done = refl
Splits-squeeze (blank p a) = rw p (Splits-squeeze a)
Splits-squeeze (token k w rest f t st a) =
    rw (f, squeeze-token k w rest t.1) (ap (λ u. w ++ u) (Splits-squeeze a))

-- The tokens of a list, a blank behind each.
unfoldable pub join : List Str → Str
join [] = []
join (w ∷ ws) = w ++ b' ' ∷ join ws

blank-Stops : (k : Kind) (s : Str) → Stops (member k) (b' ' ∷ s)
unfolding is_op isspace is_word
blank-Stops operator s = refl
blank-Stops word s = refl

join-Splits : (ws : List Str) → All AnyToken ws → Splits (join ws) ws
unfolding join isspace
join-Splits [] a = done
join-Splits (w ∷ ws) ((k, t), a) =
    token k w (b' ' ∷ join ws) refl t (blank-Stops k (join ws)) (blank refl (join-Splits ws a))

-- `tokenize` reads back any list of tokens from the line that has a blank behind each: it does not
-- fault when that line has fewer than 2^30 bytes, and the vector holds exactly these tokens.
pub tokenize-join :
    (ws : List Str)
    → All AnyToken ws
    → length (join ws) < 2 ^ 30
    → Succeeds (tokenize (join ws)) λ sv. IsValid sv × (contents sv ≡ map text ws)
tokenize-join ws a small =
    let (sv, run, (valid, (ws', e, s))) = tokenize-Splits (join ws) small in
    (sv, run, (valid, e ∙ ap (map text) (Splits-unique s (join-Splits ws a))))

-- `tokenize` loses only blanks: the items of the vector that it returns are tokens, and their bytes
-- in order are the bytes of the line that are no blanks.
pub tokenize-squeeze :
    (line : Str)
    → length line < 2 ^ 30
    → Succeeds (tokenize line) λ sv.
      (ws : List Str) × (contents sv ≡ map text ws) × All AnyToken ws × (flatten ws ≡ squeeze line)
tokenize-squeeze line small =
    let (sv, run, (valid, (ws, e, s))) = tokenize-Splits line small in
    (sv, run, (ws, e, Splits-AnyToken s, Splits-squeeze s))
