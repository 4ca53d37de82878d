-- ===== src/Nush/Svec/Reverse.antt =====
-- `svec_swap`, and the loop of `svec_reverse`.
use cs.Base.{
  ℕ, ◌+◌, ◌-◌, ◌/◌, ◌<◌, ◌≡◌, refl, sym, ◌∙◌, reverse, ◌||◌, ret, Succeeds, store-set,
  for_range-Succeeds, length, get_or, set, ltb, leb, if◌then◌else◌, arith, length-set, get_or-set,
  get_or_congr, get_or-take, get_or-reverse, length-reverse, get_or_ext, All-set, All-get_or,
}
use cs.Nush.Svec.{null, Svec, svec_swap, svec_reverse}
use cs.Nush.Svec.Valid.{Written, IsValid, contents, length-contents, svec_get-get_or}

-- The vector after a swap.
abbrev pub swapped : Svec → ℕ → ℕ → Svec
swapped sv ii jj = record sv {
  slots = set (set sv.slots ii (get_or sv.slots jj null)) jj (get_or sv.slots ii null);
}

-- On a valid vector `svec_swap` at the indices of two items does not fault, exchanges the two items
-- and keeps the vector valid.
pub svec_swap_lem :
    {sv : Svec} (ii jj : ℕ)
    → IsValid sv
    → ii < sv.spaces
    → jj < sv.spaces
    → (svec_swap sv ii jj ≡ ret (swapped sv ii jj)) × IsValid (swapped sv ii jj)
unfolding svec_swap
svec_swap_lem {sv} ii jj v hi hj =
    let xs = sv.slots in
    let xs' = set xs ii (get_or xs jj null) in
    let len : length xs' ≡ length xs = length-set xs ii (get_or xs jj null) in
    (
      rw (
        svec_get-get_or ii v hi,
        svec_get-get_or jj v hj,
        store-set xs ii (get_or xs jj null) (omega arith),
        store-set xs' jj (get_or xs ii null) (omega arith),
      ),
      record {
        fits = v.fits;
        sized = length-set xs' jj (get_or xs ii null) ∙ len ∙ v.sized;
        room = v.room;
        written = All-set Written xs' jj _ (All-get_or Written xs ii null (omega arith) v.written) (
            All-set Written xs ii _ (All-get_or Written xs jj null (omega arith) v.written)
              v.written);
      },
    )

-- After `i` rounds the outer `i` items on either side are exchanged.
record Mirrored (sv : Svec) (i : ℕ) (s : Svec) : Type 0 where
  valid : IsValid s
  same : s.spaces ≡ sv.spaces
  mirror :
      (k : ℕ)
      → k < sv.spaces
      → get_or s.slots k null ≡ (
          if ltb k i || leb (sv.spaces - i) k
          then get_or sv.slots (sv.spaces - 1 - k) null
          else get_or sv.slots k null)

module _ {sv : Svec} (v : IsValid sv) where
  round-Mirrored :
      (i : ℕ) (s : Svec)
      → i < sv.spaces / 2
      → Mirrored sv i s
      → Succeeds (svec_swap s i (s.spaces - i - 1)) (Mirrored sv (i + 1))
  round-Mirrored i s h m =
      let j = s.spaces - i - 1 in
      let (run, valid) = svec_swap_lem i j m.valid (omega arith) (omega arith) in
      let xs' = set s.slots i (get_or s.slots j null) in
      (
        swapped s i j,
        run,
        record {
          valid = valid;
          same = m.same;
          mirror = λ k lt. ground (
            arith,
            get_or-set xs' j k (get_or s.slots i null) null
                (omega (arith, length-set s.slots i (get_or s.slots j null))),
            get_or-set s.slots i k (get_or s.slots j null) null (omega arith),
            m.mirror k lt,
            m.mirror i (omega arith),
            m.mirror j (omega arith),
          );
        },
      )

  Mirrored-reverse : {s : Svec} → Mirrored sv (sv.spaces / 2) s → contents s ≡ reverse (contents sv)
  Mirrored-reverse {s} m =
      let n = sv.spaces in
      get_or_ext null (contents s) (reverse (contents sv))
        (omega (
          arith,
          length-contents m.valid,
          m.same,
          length-contents v,
          length-reverse {0} (contents sv),
        ))
        λ k lt.
          let h : k < n = omega (arith, length-contents m.valid, m.same) in
          let e : length (contents sv) ≡ n = length-contents v in
          get_or-take s.slots s.spaces k null (omega (arith, m.same))
          ∙ m.mirror k h
          ∙ mid k h
          ∙ sym (get_or-take sv.slots n (n - 1 - k) null (omega arith))
          ∙ get_or_congr (contents sv) null (n - 1 - k) (length (contents sv) - 1 - k) (omega arith)
          ∙ sym (get_or-reverse (contents sv) k null (omega arith))
    where
      mid :
          (k : ℕ)
          → k < sv.spaces
          → (if ltb k (sv.spaces / 2) || leb (sv.spaces - sv.spaces / 2) k
              then get_or sv.slots (sv.spaces - 1 - k) null
              else get_or sv.slots k null)
            ≡ get_or sv.slots (sv.spaces - 1 - k) null
      mid k h = ground arith

  -- `svec_reverse` does not fault on a valid vector; the items come out in the opposite order.
  pub svec_reverse-reverse :
      Succeeds (svec_reverse sv) λ s. IsValid s × (contents s ≡ reverse (contents sv))
  unfolding svec_reverse
  svec_reverse-reverse =
      let n = sv.spaces in
      let (s, run, m) =
        for_range-Succeeds (Mirrored sv) _ (n / 2) (λ i s h m. round-Mirrored i s h m) (n / 2) 0 sv
          (omega arith) (record { valid = v; same = refl; mirror = λ k lt. ground arith }) in
      (s, run, (m.valid, Mirrored-reverse m))
