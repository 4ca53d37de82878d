-- ===== src/Nush/Tokens/Loop.antt =====
-- `tokenize` returns, and its vector holds the tokens of the line.
use cs.Base.{
  ℕ, zero, suc, ◌+◌, ◌^◌, ◌≤◌, ◌<◌, ◌≡◌, sym, ◌∙◌, ap, List, [], ◌∷◌, ◌++◌, map, true, false, inl,
  inr, Outcome, ret, ◌>>=◌, Succeeds, length, take, drop, get_or, ltb, Bool-cases, arith, ltb→lt,
  not_ltb→le, drop-get_or, drop-length, length-take, length-drop, drop-drop, take-append-drop,
  append-nil, append_assoc, subst,
}
use cs.Nush.Svec.{Str, text, Svec, svec_push_back}
use cs.Nush.Svec.Valid.{
  IsValid, contents, svec_push_back-Pushed, make_svec-IsValid, contents-make_svec, spaces-make_svec,
}
use cs.Nush.Tokens.{
  is_op, isspace, is_word, count_while, add_op, add_token, tokenize_loop, tokenize,
}
use cs.Nush.Tokens.Munch.{IsMunch, count_while-IsMunch, IsMunch-pos}
use cs.Nush.Tokens.Splits.{Kind, operator, word, member, Splits, done, blank, token}

-- The step that `add_op` and `add_token` share, for the kind `k`.
add : Kind → Svec → Str → ℕ → Outcome (ℕ × Svec)
unfolding add_op add_token
add operator = add_op
add word = add_token

-- What `add` leaves when it starts at byte `ii`: one more token, and the bytes that it took.
record Added (k : Kind) (sv : Svec) (line : Str) (ii : ℕ) (r : ℕ × Svec) : Type 0 where
  valid : IsValid r.1
  counted : r.1.spaces ≡ sv.spaces + 1
  munch : IsMunch (member k) (drop ii line) r.0
  appended : contents r.1 ≡ contents sv ++ text (take r.0 (drop ii line)) ∷ []

push_run :
    (k : Kind) {sv : Svec} (line : Str) (ii : ℕ)
    → IsValid sv
    → sv.spaces < 2 ^ 30
    → Succeeds
        (let n = count_while (member k) (length line) line ii 0 in
          svec_push_back sv (text (take n (drop ii line))) >>= λ sv'. ret (n, sv'))
        (Added k sv line ii)
push_run k {sv} line ii v small =
    let (m, e, run) = count_while-IsMunch (member k) (length line) line ii 0 (omega arith) in
    let n = count_while (member k) (length line) line ii 0 in
    let (sv', pushed, p) = svec_push_back-Pushed (text (take n (drop ii line))) v small tt in
    (
      (n, sv'),
      rw pushed,
      record {
        valid = p.valid;
        counted = p.counted;
        munch =
            subst (λ j. IsMunch (member k) (drop j line) n)
              (let e' : 0 + ii ≡ ii = omega arith in e')
              (subst (IsMunch (member k) (drop (0 + ii) line))
                (let e' : m ≡ n = omega (arith, e) in e') run);
        appended = p.appended;
      },
    )

add-Added :
    (k : Kind) {sv : Svec} (line : Str) (ii : ℕ)
    → IsValid sv
    → sv.spaces < 2 ^ 30
    → Succeeds (add k sv line ii) (Added k sv line ii)
unfolding add
add-Added operator line ii v small = push_run operator line ii v small
add-Added word line ii v small = push_run word line ii v small

-- A vector that holds what `sv` held and then the tokens of `rest`.
pub record Holds (sv : Svec) (rest : Str) (r : Svec) : Type 0 where
  pub valid : IsValid r
  pub words : List Str
  pub splits : Splits rest words
  pub appended : contents r ≡ contents sv ++ map text words

Holds-done : {sv : Svec} {rest : Str} → IsValid sv → rest ≡ [] → Holds sv rest sv
Holds-done {sv} v e = record { valid = v; words = []; splits = rw e done; appended = rw append-nil }

Holds-blank :
    {sv r : Svec} {c : ℕ} {s rest : Str}
    → rest ≡ c ∷ s
    → isspace c ≡ true
    → Holds sv s r
    → Holds sv rest r
Holds-blank e sp h = record {
  valid = h.valid;
  words = h.words;
  splits = rw e (blank sp h.splits);
  appended = h.appended;
}

-- One token more in front.
Holds-token :
    {sv sv' r : Svec} {line : Str} {ii n : ℕ} (k : Kind)
    → Added k sv line ii (n, sv')
    → 0 < n
    → Holds sv' (drop (ii + n) line) r
    → Holds sv (drop ii line) r
Holds-token {sv} {line} {ii} {n} k a pos h =
    let s = drop ii line in
    record {
      valid = h.valid;
      words = take n s ∷ h.words;
      splits =
          token k (take n s) (drop n s) (sym (take-append-drop n s))
            (omega (arith, length-take {0} n s, a.munch.inside), a.munch.kept) a.munch.stops
            (rw (drop-drop n ii line) h.splits);
      appended =
          h.appended
          ∙ ap (λ t. t ++ map text h.words) a.appended
          ∙ append_assoc (contents sv) (text (take n s) ∷ []) (map text h.words);
    }

-- A byte that is neither a blank nor an operator belongs to a word.
is_word-other : (c : ℕ) → isspace c ≡ false → is_op c ≡ false → is_word c ≡ true
unfolding is_word
is_word-other c a b = rw (b, a)

-- A round that takes a token, when the rounds after it do what they should.
round_token :
    (f : ℕ) (k : Kind) {sv : Svec} (line : Str) (ii : ℕ)
    → ii < length line
    → member k (get_or line ii 0) ≡ true
    → IsValid sv
    → sv.spaces < 2 ^ 30
    → ((sv' : Svec) (n : ℕ)
        → 0 < n
        → ii + n ≤ length line
        → sv'.spaces ≡ sv.spaces + 1
        → IsValid sv'
        → Succeeds (tokenize_loop f sv' line (ii + n)) (Holds sv' (drop (ii + n) line)))
    → Succeeds
        (add k sv line ii >>= λ r. tokenize_loop f r.1 line (ii + r.0))
        (Holds sv (drop ii line))
round_token f k line ii h front v small later =
    let ((n, sv'), run, a) = add-Added k line ii v small in
    let pos : 0 < n =
      IsMunch-pos (member k) front
        (subst (λ t. IsMunch (member k) t n) (drop-get_or line ii 0 h) a.munch) in
    let (r, rest, p) =
      later sv' n pos (omega (arith, a.munch.inside, length-drop {0} ii line)) a.counted a.valid in
    (r, rw run rest, Holds-token k a pos p)

-- The rounds from byte `ii` on.
loop-Holds :
    (f : ℕ) {sv : Svec} (line : Str) (ii : ℕ)
    → length line < ii + f
    → ii ≤ length line
    → length line < 2 ^ 30
    → sv.spaces ≤ ii
    → IsValid sv
    → Succeeds (tokenize_loop f sv line ii) (Holds sv (drop ii line))
unfolding tokenize_loop add
loop-Holds zero line ii h up small few v = absurd (omega arith)
loop-Holds (suc f) {sv} line ii h up small few v =
    let c = get_or line ii 0 in
    elim (Bool-cases (ltb ii (length line))) [
      | inr off ↦ (sv, rw off, Holds-done v (drop-length line ii (not_ltb→le ii (length line) off)))
      | inl on ↦
          let lt : ii < length line = ltb→lt ii (length line) on in
          let later : (sv' : Svec) (n : ℕ)
              → 0 < n
              → ii + n ≤ length line
              → sv'.spaces ≡ sv.spaces + 1
              → IsValid sv'
              → Succeeds (tokenize_loop f sv' line (ii + n)) (Holds sv' (drop (ii + n) line)) =
            λ sv' n pos fits one v'.
              loop-Holds f line (ii + n) (omega arith) fits small (omega arith) v' in
          elim (Bool-cases (isspace c)) [
            | inl sp ↦
                let (r, run, p) =
                  loop-Holds f line (ii + 1) (omega arith) (omega arith) small (omega arith) v in
                (r, rw (on, sp) run, Holds-blank (drop-get_or line ii 0 lt) sp p)
            | inr nsp ↦ elim (Bool-cases (is_op c)) [
              | inl op ↦
                  let (r, run, p) = round_token f operator line ii lt op v (omega arith) later in
                  (r, rw (on, nsp, op) run, p)
              | inr nop ↦
                  let (r, run, p) =
                    round_token f word line ii lt (is_word-other c nsp nop) v (omega arith) later in
                  (r, rw (on, nsp, nop) run, p)
            ]
          ]
    ]

-- `tokenize` does not fault and does not run out of its rounds on a line of fewer than 2^30 bytes:
-- it returns a valid vector whose items are tokens into which the line splits.
pub tokenize-Splits :
    (line : Str)
    → length line < 2 ^ 30
    → Succeeds
        (tokenize line)
        λ sv. IsValid sv × ((ws : List Str) × (contents sv ≡ map text ws) × Splits line ws)
unfolding tokenize
tokenize-Splits line small =
    let (sv, run, h) =
      loop-Holds (length line + 1) line 0 (omega arith) (omega arith) small
        (omega (arith, spaces-make_svec)) make_svec-IsValid in
    (
      sv,
      run,
      (
        h.valid,
        (h.words, h.appended ∙ ap (λ t. t ++ map text h.words) contents-make_svec, h.splits),
      ),
    )
