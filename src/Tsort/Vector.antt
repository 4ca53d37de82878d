-- ===== src/Tsort/Vector.antt =====
-- The vector against the list of its numbers.
use cs.Base.{
  int, ◌>>=◌, ◌^◌, append_assoc, set, append-nil, ℕ, zero, suc, ◌+◌, ◌-◌, ◌*◌, ◌≤◌, ◌<◌, ◌≡◌, refl,
  sym, ◌∙◌, ap, subst, List, [], ◌∷◌, ◌++◌, map, Bool, true, ◌&&◌, Option, none, some, inl, inr,
  arith, ltb, leb, if◌then◌else◌, lt→ltb, leb→le, not_leb→lt, Bool-cases, length, take, drop,
  replicate,
}
use cs.Base.{
  Succeeds, store-set, read-drop_cons, take-suc-set, take-append, length-append, length-set,
  length-take, length-replicate,
}
use cs.Tsort.{
  Floats, number, floats_make, floats_push, floats_get, floats_size, in_range, in_range_from,
}

-- The numbers in use are `xs`, and every one of them was written.
pub record Holds {F : Type 0} (fs : Floats F) (xs : List F) : Type 0 where
  pub room : 0 < fs.cap
  pub sized : length fs.cells ≡ fs.cap
  pub count : length xs ≡ fs.size
  pub fits : fs.size ≤ fs.cap
  pub written : take fs.size fs.cells ≡ map some xs

-- The numbers of a list that satisfy a test, in order.
unfoldable pub chosen : {F : Type 0} → (F → Bool) → List F → List F
chosen keep [] = []
chosen keep (x ∷ xs) = if keep x then x ∷ chosen keep xs else chosen keep xs

module _ {F : Type 0} where
  pub floats_make-Holds : Holds {F = F} floats_make []
  unfolding floats_make
  floats_make-Holds = record {
    room = omega arith;
    sized = refl;
    count = refl;
    fits = omega arith;
    written = refl;
  }

  map-snoc : (xs : List F) (x : F) → map some (xs ++ x ∷ []) ≡ map some xs ++ some x ∷ []
  map-snoc [] x = refl
  map-snoc (y ∷ xs) x = ap (λ t. some y ∷ t) (map-snoc xs x)

  -- A number is written behind the others, where there is room.
  put_last :
      (fs : Floats F) (xs : List F) (x : F) (cap : ℕ) (cells : List (Option F))
      → 0 < cap
      → length cells ≡ cap
      → length xs ≡ fs.size
      → fs.size < cap
      → take fs.size cells ≡ map some xs
      → Holds
          (record { size = fs.size + 1; cap = cap; cells = set cells fs.size (some x) })
          (xs ++ x ∷ [])
  put_last fs xs x cap cells room sized count less written = record {
    room = room;
    sized = length-set cells fs.size (some x) ∙ sized;
    count = omega (arith, length-append xs (x ∷ []));
    fits = omega arith;
    written =
        ap (λ k. take k (set cells fs.size (some x)))
          (let e : fs.size + 1 ≡ suc fs.size = omega arith in e)
        ∙ take-suc-set cells fs.size (some x) (omega arith)
        ∙ ap (λ t. t ++ some x ∷ []) written
        ∙ sym (map-snoc xs x);
  }

  -- `floats_push` does not fault on a vector whose numbers were all written, and appends the number.
  pub floats_push-Holds :
      (fs : Floats F) (xs : List F) (x : F)
      → Holds fs xs
      → Succeeds (floats_push fs x) λ fs'. Holds fs' (xs ++ x ∷ [])
  unfolding floats_push
  floats_push-Holds fs xs x h = elim (Bool-cases (leb fs.cap fs.size)) [
    | inl full ↦
        let f : fs.size ≡ fs.cap =
          (let l : fs.cap ≤ fs.size = leb→le fs.cap fs.size full in omega (arith, h.fits)) in
        let cap = fs.cap * 2 in
        let unset : Option F = none in
        let cells = take cap fs.cells ++ replicate (cap - length fs.cells) unset in
        let sized : length cells ≡ cap = omega (
          arith,
          length-append (take cap fs.cells) (replicate (cap - length fs.cells) unset),
          length-take cap fs.cells,
          length-replicate (cap - length fs.cells) unset,
          h.sized,
        ) in
        let whole : take cap fs.cells ≡ fs.cells = take_all cap fs.cells (omega (arith, h.sized)) in
        let kept : take fs.size cells ≡ map some xs =
          take-append fs.size (take cap fs.cells) (replicate (cap - length fs.cells) unset)
            (omega (arith, h.sized, length-take cap fs.cells))
          ∙ ap (take fs.size) whole
          ∙ h.written in
        (
          _,
          rw (full, store-set cells fs.size (some x) (omega (arith, h.room))) refl,
          put_last fs xs x cap cells (omega (arith, h.room)) sized h.count (omega (arith, h.room))
              kept,
        )
    | inr free ↦
        let f : fs.size < fs.cap = not_leb→lt fs.cap fs.size free in
        (
          _,
          rw (free, store-set fs.cells fs.size (some x) (omega (arith, h.sized))) refl,
          put_last fs xs x fs.cap fs.cells h.room h.sized h.count f h.written,
        )
  ]
    where
      take_all : (n : ℕ) (ys : List (Option F)) → length ys ≤ n → take n ys ≡ ys
      take_all zero [] l = refl
      take_all zero (y ∷ ys) l = absurd (omega arith)
      take_all (suc n) [] l = refl
      take_all (suc n) (y ∷ ys) l = ap (λ t. y ∷ t) (take_all n ys (omega arith))

-- The loop of `in_range`, for the numbers `ys` that are left.
module _ {F : Type 0} (at_least less : F → F → Bool) (start end : F) where
  abbrev pub between : F → Bool
  between x = at_least x start && less x end

  in_range_from-chosen :
      (ys : List F) (i : ℕ) (fs : Floats F) (zs : List F) (range : Floats F)
      → i + length ys ≡ fs.size
      → take (length ys) (drop i fs.cells) ≡ map some ys
      → Holds range zs
      → Succeeds
          (in_range_from at_least less (length ys) i fs start end range)
          λ r. Holds r (zs ++ chosen between ys)
  unfolding in_range_from chosen floats_get number
  in_range_from-chosen [] i fs zs range e t h =
      (range, refl, subst (Holds range) (sym (append-nil zs)) h)
  in_range_from-chosen (y ∷ ys) i fs zs range e t h =
      let (found, later) = read-drop_cons fs.cells i (length ys) (some y) (map some ys) t in
      let inside : ltb i fs.size ≡ true = lt→ltb i fs.size (omega arith) in
      elim (Bool-cases (between y)) [
        | inl k ↦
            let (range', run, h') = floats_push-Holds range zs y h in
            let (r, run', h'') =
              in_range_from-chosen ys (i + 1) fs (zs ++ y ∷ []) range' (omega arith) later h' in
            (
              r,
              rw (inside, found, k, run) run',
              rw k (subst (Holds r) (append_assoc zs (y ∷ []) (chosen between ys)) h''),
            )
        | inr k ↦
            let (r, run', h'') =
              in_range_from-chosen ys (i + 1) fs zs range (omega arith) later h in
            (r, rw (inside, found, k) run', rw k h'')
      ]

  -- On a vector of fewer than 2 ^ 31 numbers, which were all written, `in_range` does not fault: it
  -- returns a vector of the numbers from `start` on and below `end`, in their order.
  pub in_range-chosen :
      (fs : Floats F) (xs : List F)
      → Holds fs xs
      → length xs < 2 ^ 31
      → Succeeds (in_range at_least less fs start end) λ r. Holds r (chosen between xs)
  unfolding in_range floats_size
  in_range-chosen fs xs h small =
      let (r, run, h') =
        in_range_from-chosen xs 0 fs [] floats_make (omega (arith, h.count))
          (ap (λ n. take n fs.cells) h.count ∙ h.written) floats_make-Holds in
      let held : ltb (length xs) (2 ^ 31) ≡ true = lt→ltb (length xs) (2 ^ 31) small in
      (
        r,
        ap (λ n. int n >>= λ size. in_range_from at_least less size 0 fs start end floats_make)
              (sym h.count)
            ∙ rw held run,
        h',
      )
