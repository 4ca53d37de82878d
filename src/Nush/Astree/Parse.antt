-- ===== src/Nush/Astree/Parse.antt =====
-- `parse` returns, and its tree stands for the tokens.
use cs.Base.{
  ℕ, zero, suc, ◌+◌, ◌-◌, ◌^◌, ◌≤◌, ◌<◌, ◌≡◌, refl, sym, ◌∙◌, ap, ap₂, subst, List, [], ◌∷◌, ◌++◌,
  map, none, some, Option, Outcome, ret, Succeeds, length, take, drop, get_or, All-append, arith,
  length-take, length-drop, length-map, take-map, drop-map, take-le, take-append-drop, drop-get_or,
  append-nil, append_assoc, le→not_ltb, lt→ltb,
}
use cs.Nush.Astree.{Astree, null, cmd, node, op_list, make_cmd, parse_ops, parse_fuel, parse}
use cs.Nush.Astree.Grammar.{yield_words, words_of, Absent, IsGraded, words_of-text}
use cs.Nush.Svec.{Str, text, Svec, svec_length, svec_index_of, sub_svec}
use cs.Nush.Svec.Valid.{IsValid, contents, length-contents}
use cs.Nush.Svec.Search.{FirstAt, svec_index_of-FirstAt}
use cs.Nush.Svec.Slice.{sub_svec-Slice, svec_clone-contents}

-- A valid vector that holds the words `ws`, few enough for it to be copied.
pub record Carries (sv : Svec) (ws : List Str) : Type 0 where
  pub valid : IsValid sv
  pub items : contents sv ≡ map text ws
  pub small : sv.spaces < 2 ^ 30

pub spaces-length : {sv : Svec} {ws : List Str} → Carries sv ws → sv.spaces ≡ length ws
spaces-length {sv} {ws} c =
    omega (arith, length-contents c.valid, ap length c.items, length-map ws text)

-- A tree that is graded and has the words `ws` under it.
pub record Reads (ws : List Str) (t : Astree) : Type 0 where
  pub graded : IsGraded t
  pub words : yield_words t ≡ ws

module _ {sv : Svec} {ws : List Str} (c : Carries sv ws) where
  slice-Carries :
      (a b : ℕ)
      → a ≤ b
      → b ≤ sv.spaces
      → Succeeds (sub_svec sv a b) λ s. Carries s (take (b - a) (drop a ws))
  slice-Carries a b h k =
      let (s, run, (valid, e)) = sub_svec-Slice c.valid c.small a b k h in
      let items : contents s ≡ map text (take (b - a) (drop a ws)) =
        e
        ∙ ap (λ t. take (b - a) (drop a t)) c.items
        ∙ ap (take (b - a)) (drop-map a ws text)
        ∙ take-map (b - a) (drop a ws) text in
      (
        s,
        run,
        record {
          valid = valid;
          items = items;
          small = omega (
            arith,
            c.small,
            length-contents valid,
            ap length items,
            length-map (take (b - a) (drop a ws)) text,
            length-take {0} (b - a) (drop a ws),
          );
        },
      )

  -- A command that holds no operator.
  make_cmd-Reads : 0 < length ws → Absent op_list ws → Succeeds (make_cmd sv) (Reads ws)
  unfolding make_cmd IsGraded yield_words
  make_cmd-Reads pos none_in =
      let (s, run, (valid, e)) = svec_clone-contents c.valid c.small in
      let items : contents s ≡ map text ws = e ∙ c.items in
      let w : words_of s ≡ ws = words_of-text s ws items in
      (cmd s, rw run, record { graded = (valid, rw w items, rw w pos, rw w none_in); words = w })

-- A word list, cut at one of its places.
cut :
    (ws : List Str) (k : ℕ) (op : Str)
    → k < length ws
    → get_or ws k [] ≡ op
    → ws ≡ take k ws ++ op ∷ drop (k + 1) ws
cut ws k op h e =
    sym (take-append-drop k ws)
    ∙ ap (λ t. take k ws ++ t) (drop-get_or ws k [] h ∙ ap (λ w. w ∷ drop (k + 1) ws) e)

node-Reads :
    (op : Str) (before after ws : List Str) (k : ℕ) {l r : Astree}
    → op_list ≡ before ++ op ∷ after
    → Absent before ws
    → FirstAt op ws (some k)
    → Reads (take k ws) l
    → Reads (drop (k + 1) ws) r
    → Reads ws (node op l r)
unfolding IsGraded yield_words
node-Reads op before after ws k {l} {r} split absent (lt, e, first) a b =
    let words : yield_words l ++ op ∷ yield_words r ≡ ws =
      ap₂ (λ u v. u ++ op ∷ v) a.words b.words ∙ sym (cut ws k op lt e) in
    record {
      graded = (a.graded, b.graded, (before, after, split, rw words absent, rw a.words first));
      words = words;
    }

-- The parser of the branches does its work on fewer than `n` words.
abbrev ReadsBelow : ℕ → (Svec → Outcome Astree) → Type 0
ReadsBelow n p =
    (sv : Svec) (ws : List Str) → length ws < n → Carries sv ws → Succeeds (p sv) (Reads ws)

-- What `parse` does with the place of an operator.
at_index :
    (p : Svec → Outcome Astree) {sv : Svec} {ws : List Str} (before : List Str) (op : Str)
    (ops : List Str)
    → Carries sv ws
    → ReadsBelow (length ws) p
    → op_list ≡ before ++ op ∷ ops
    → Absent before ws
    → (index : Option ℕ) → svec_index_of sv op ≡ ret index
    → FirstAt op ws index
    → (Absent (before ++ op ∷ []) ws → Succeeds (parse_ops p ops sv) (Reads ws))
    → Succeeds (parse_ops p (op ∷ ops) sv) (Reads ws)
unfolding parse_ops svec_length
at_index p {ws = ws} before op ops c below split absent none run first more =
    let (t, rest, r) = more (All-append _ before (op ∷ []) absent (first, tt)) in
    (t, rw run rest, r)
at_index p {sv = sv} {ws = ws} before op ops c below split absent (some k) run first more =
    let len = spaces-length c in
    let (s1, run1, c1) = slice-Carries c 0 k (omega arith) (omega (arith, first.0)) in
    let (s2, run2, c2) = slice-Carries c (k + 1) sv.spaces (omega (arith, first.0)) (omega arith) in
    let (l, run3, a) = below s1 _ (omega (arith, first.0, length-take {0} (k - 0) ws)) c1 in
    let (r, run4, b) =
      below s2 _
        (omega (
          arith,
          first.0,
          length-drop {0} (k + 1) ws,
          length-take {0} (sv.spaces - (k + 1)) (drop (k + 1) ws),
        ))
        c2 in
    (
      node op l r,
      rw (run, run1, run2, run3, run4),
      node-Reads op before ops ws k split absent first
          (subst (λ n. Reads (take n ws) l) (let e : k - 0 ≡ k = omega arith in e) a)
          (subst (λ u. Reads u r)
            (take-le (drop (k + 1) ws) (sv.spaces - (k + 1))
              (omega (arith, length-drop {0} (k + 1) ws)))
            b),
    )

parse_ops-Reads :
    (p : Svec → Outcome Astree) {sv : Svec} {ws : List Str} (before ops : List Str)
    → Carries sv ws
    → ReadsBelow (length ws) p
    → op_list ≡ before ++ ops
    → 0 < length ws
    → Absent before ws
    → Succeeds (parse_ops p ops sv) (Reads ws)
unfolding parse_ops
parse_ops-Reads p {sv} {ws} before [] c below split pos absent =
    make_cmd-Reads c pos (subst (λ ops. Absent ops ws) (sym (split ∙ append-nil before)) absent)
parse_ops-Reads p {sv} {ws} before (op ∷ ops) c below split pos absent =
    let (index, run, first) = svec_index_of-FirstAt sv op ws c.valid c.items in
    at_index p before op ops c below split absent index run first (
      parse_ops-Reads p (before ++ op ∷ []) ops c below
        (split ∙ sym (append_assoc before (op ∷ []) ops)) pos)

parse_fuel-Reads :
    (f : ℕ) (sv : Svec) (ws : List Str)
    → length ws < f
    → Carries sv ws
    → Succeeds (parse_fuel f sv) (Reads ws)
unfolding parse_fuel svec_length IsGraded yield_words
parse_fuel-Reads zero sv ws h c = absurd (omega arith)
parse_fuel-Reads (suc f) sv [] h c = (
  null,
  rw (lt→ltb sv.spaces 1 (omega (arith, spaces-length c))),
  record { graded = tt; words = refl },
)
parse_fuel-Reads (suc f) sv (w ∷ ws) h c =
    rw (le→not_ltb sv.spaces 1 (omega (arith, spaces-length c))) (
      parse_ops-Reads (parse_fuel f) [] op_list c
        (λ sv' ws' lt c'. parse_fuel-Reads f sv' ws' (omega arith) c') refl (omega arith) tt)

-- `parse` does not fault and does not run out of its depth on a valid vector of fewer than 2^30
-- words: the tree has these words under it in order, and is graded by the order of the operators.
pub parse-Reads : {sv : Svec} {ws : List Str} → Carries sv ws → Succeeds (parse sv) (Reads ws)
unfolding parse svec_length
parse-Reads {sv} {ws} c = parse_fuel-Reads (sv.spaces + 1) sv ws (omega (arith, spaces-length c)) c
