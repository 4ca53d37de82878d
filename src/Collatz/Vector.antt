-- ===== src/Collatz/Vector.antt =====
-- The vector of chal2/starter-ch02/ivec.h against the list of its numbers.
use cs.Base.{
  Outcome, fault, lt→not_leb, leb→le, Bool-cases, inl, inr, leb, if◌then◌else◌, Option, none,
  replicate, length-take, ◌^◌, ◌*◌, ◌≤◌, List, false, take-length, ℕ, suc, ◌+◌, ◌-◌, ◌<◌, ◌≡◌, refl,
  sym, ◌∙◌, ap, subst, List, [], ◌∷◌, ◌++◌, true, false, Option, none, arith, ltb, ◌==◌, lt→ltb,
  length, get_or, take,
}
use cs.Base.{
  ret, ◌>>=◌, Succeeds, read, for_range-Succeeds, take-suc, take-length, length-replicate,
}
use cs.Tsort.{number, floats_get, floats_push}
use cs.Tsort.Vector.{Holds, floats_push-Holds}
use cs.Tsort.Sample.Vectors.{floats_get-Holds}
use cs.Collatz.{Ivec, make_ivec, ivec_push, ivec_last, ivec_copy}

pub make_ivec-Holds : (n : ℕ) → 0 < n → Succeeds (make_ivec n) λ xs. Holds xs []
unfolding make_ivec
make_ivec-Holds n h =
    let unset : Option ℕ = none in
    (
      _,
      rw (lt→ltb 0 n h) refl,
      record {
        room = h;
        sized = length-replicate n unset;
        count = refl;
        fits = omega arith;
        written = refl;
      },
    )

pub ivec_push-Holds :
    (fs : Ivec) (xs : List ℕ) (x : ℕ)
    → Holds fs xs
    → Succeeds (ivec_push fs x) λ r. Holds r (xs ++ x ∷ [])
unfolding ivec_push floats_push
ivec_push-Holds fs xs x h = floats_push-Holds fs xs x h

-- The capacity of what was written, where something was.
cap_or : ℕ → Outcome Ivec → ℕ
cap_or c (ret r) = r.cap
cap_or c (fault why) = c

cap_or-push :
    (size c : ℕ) (o : Outcome (List (Option ℕ)))
    → cap_or c (o >>= λ cells. ret (record { size = size; cap = c; cells = cells })) ≡ c
unfolding cap_or
cap_or-push size c (ret cells) = refl
cap_or-push size c (fault why) = refl

-- A push doubles the capacity of a full vector and keeps that of any other.
pub ivec_push-cap :
    (fs r : Ivec) (x : ℕ)
    → ivec_push fs x ≡ ret r
    → r.cap ≡ (if leb fs.cap fs.size then fs.cap * 2 else fs.cap)
unfolding ivec_push cap_or
ivec_push-cap fs r x e =
    let cap = if leb fs.cap fs.size then fs.cap * 2 else fs.cap in
    sym (ap (cap_or cap) e) ∙ cap_or-push (fs.size + 1) cap _

-- The capacity stays below twice the size and 4.
pub ivec_push-bound :
    (fs r : Ivec) (xs : List ℕ) (x : ℕ)
    → Holds fs xs
    → fs.cap ≤ 2 * length xs + 4
    → ivec_push fs x ≡ ret r
    → r.cap ≤ 2 * suc (length xs) + 4
ivec_push-bound fs r xs x h bound e =
    let grown = ivec_push-cap fs r x e in
    elim (Bool-cases (leb fs.cap fs.size)) [
      | inl full ↦
          let l = leb→le fs.cap fs.size full in
          let c : r.cap ≡ fs.cap * 2 = grown ∙ rw full refl in omega (arith, c, l, h.count)
      | inr room ↦ let c : r.cap ≡ fs.cap = grown ∙ rw room refl in omega (arith, c, bound)
    ]

-- A number of the vector, without the assertion of `floats_get`.
cell_lem :
    (fs : Ivec) (xs : List ℕ) (i : ℕ)
    → Holds fs xs
    → i < length xs
    → (read fs.cells i >>= number) ≡ ret (get_or xs i 0)
unfolding floats_get
cell_lem fs xs i h lt =
    let inside : ltb i fs.size ≡ true = lt→ltb i fs.size (omega (arith, lt, h.count)) in
    let found = floats_get-Holds fs xs i 0 h lt in rw inside at found

pub ivec_last-get_or :
    (fs : Ivec) (xs : List ℕ) (n : ℕ)
    → Holds fs xs
    → length xs ≡ suc n
    → ivec_last fs ≡ ret (get_or xs n 0)
unfolding ivec_last
ivec_last-get_or fs xs n h e =
    let some_x : (fs.size == 0) ≡ false = ground (arith, h.count, e) in
    let at : fs.size - 1 ≡ n = omega (arith, h.count, e) in
    rw some_x (rw at (cell_lem fs xs n h (omega (arith, e))))

-- A copy holds the same numbers and has the same capacity.
pub ivec_copy-Holds :
    (fs : Ivec) (xs : List ℕ)
    → Holds fs xs
    → fs.cap < 2 ^ 31
    → Succeeds (ivec_copy fs) λ r. Holds r xs × (r.cap ≡ fs.cap)
unfolding ivec_copy make_ivec
ivec_copy-Holds fs xs h small =
    let unset : Option ℕ = none in
    let ys : Ivec = record { size = 0; cap = fs.cap; cells = replicate fs.cap unset } in
    let (r, run', (h', same)) =
      for_range-Succeeds (λ i r. Holds r (take i xs) × (r.cap ≡ fs.cap))
        (λ ii ys. read fs.cells ii >>= number >>= ivec_push ys) fs.size
        (λ i s lt (p, cap).
          let inside : i < length xs = omega (arith, lt, h.count) in
          let (s', run, p') = ivec_push-Holds s (take i xs) (get_or xs i 0) p in
          let e : i + 1 ≡ suc i = omega arith in
          let size : s.size ≡ i = sym p.count ∙ length-take i xs ∙ omega (arith, inside) in
          let room : leb s.cap s.size ≡ false =
            lt→not_leb s.cap s.size (omega (arith, size, cap, lt, h.fits)) in
          (
            s',
            rw (cell_lem fs xs i h inside) run,
            (
              subst (Holds s') (sym (ap (λ k. take k xs) e ∙ take-suc xs i 0 inside)) p',
              ivec_push-cap s s' (get_or xs i 0) run ∙ rw room cap,
            ),
          ))
        fs.size 0 ys (omega arith)
        (
          record {
            room = h.room;
            sized = length-replicate fs.cap unset;
            count = refl;
            fits = omega arith;
            written = refl;
          },
          refl,
        ) in
    (
      r,
      rw (lt→ltb fs.cap (2 ^ 31) small) (rw (lt→ltb 0 fs.cap h.room) run'),
      (subst (Holds r) (ap (λ k. take k xs) (sym h.count) ∙ take-length xs) h', same),
    )
