-- ===== src/Nush/Tokens/Munch.antt =====
-- What `count_while` counts: the longest run of bytes that pass its test.
use cs.Base.{
  ℕ, zero, suc, ◌+◌, ◌≤◌, ◌<◌, ◌≡◌, [], ◌∷◌, Bool, true, false, inl, inr, length, take, drop,
  get_or, All, ltb, Bool-cases, arith, ltb→lt, not_ltb→le, drop-get_or, drop-length, subst,
}
use cs.Nush.Svec.{Str}
use cs.Nush.Tokens.{count_while}

module _ (keep : ℕ → Bool) where
  -- The text ends, or goes on with a byte that fails the test.
  abbrev pub Stops : Str → Type 0
  Stops [] = Unit
  Stops (c ∷ s) = keep c ≡ false

  -- The first `n` bytes pass, and the run is no longer.
  pub record IsMunch (s : Str) (n : ℕ) : Type 0 where
    pub inside : n ≤ length s
    pub kept : All (λ c. keep c ≡ true) (take n s)
    pub stops : Stops (drop n s)

  IsMunch-cons : (c : ℕ) (s : Str) (n : ℕ) → keep c ≡ true → IsMunch s n → IsMunch (c ∷ s) (suc n)
  IsMunch-cons c s n k m = record {
    inside = omega (arith, m.inside);
    kept = (k, m.kept);
    stops = m.stops;
  }

  -- From `num` on, the loop adds the length of the run that starts there.
  pub count_while-IsMunch :
      (f : ℕ) (line : Str) (start num : ℕ)
      → length line ≤ num + start + f
      → (n : ℕ) × (count_while keep f line start num ≡ num + n)
        × IsMunch (drop (num + start) line) n
  unfolding count_while
  count_while-IsMunch zero line start num h = (
    0,
    omega arith,
    rw (drop-length line (num + start) (omega arith))
        (record { inside = omega arith; kept = tt; stops = tt }),
  )
  count_while-IsMunch (suc f) line start num h =
      let p = num + start in
      elim (Bool-cases (ltb p (length line))) [
        | inr off ↦ (
          0,
          rw off (omega arith),
          rw (drop-length line p (not_ltb→le p (length line) off))
              (record { inside = omega arith; kept = tt; stops = tt }),
        )
        | inl on ↦
            let front : drop p line ≡ get_or line p 0 ∷ drop (p + 1) line =
              drop-get_or line p 0 (ltb→lt p (length line) on) in
            elim (Bool-cases (keep (get_or line p 0))) [
              | inr fails ↦ (
                0,
                rw (on, fails) (omega arith),
                rw front (record { inside = omega arith; kept = tt; stops = fails }),
              )
              | inl passes ↦
                  let (n, e, m) = count_while-IsMunch f line start (num + 1) (omega arith) in
                  (
                    suc n,
                    rw (on, passes, e) (omega arith),
                    rw front (
                        IsMunch-cons (get_or line p 0) (drop (p + 1) line) n passes (
                          subst (λ k. IsMunch (drop k line) n)
                            (let e' : num + 1 + start ≡ p + 1 = omega arith in e') m)),
                  )
            ]
      ]

  -- A run that starts with a byte which passes is not empty.
  pub IsMunch-pos : {c : ℕ} {s : Str} {n : ℕ} → keep c ≡ true → IsMunch (c ∷ s) n → 0 < n
  IsMunch-pos {n = zero} k m = let e = m.stops in cc
  IsMunch-pos {n = suc n} k m = omega arith
