-- ===== src/Nush/Svec/Slice.antt =====
-- `sub_svec` and `svec_clone`.
use cs.Base.{
  ℕ, suc, ◌+◌, ◌-◌, ◌^◌, ◌≤◌, ◌<◌, ◌≡◌, sym, ◌∙◌, ap, [], ◌∷◌, ◌++◌, ◌>>=◌, Succeeds,
  for_range-Succeeds, take, drop, get_or, arith, take-suc, take-le, get_or-drop, get_or-take,
  All-get_or, le→leb, length-drop,
}
use cs.Nush.Svec.{null, Svec, make_svec, svec_get, svec_push_back, sub_svec, svec_clone}
use cs.Nush.Svec.Valid.{
  Written, IsValid, contents, length-contents, svec_get-get_or, svec_push_back-Pushed,
  make_svec-IsValid, contents-make_svec, spaces-make_svec,
}

-- After the items from `a` up to `i` are pushed.
record Sliced (sv : Svec) (a i : ℕ) (new_sv : Svec) : Type 0 where
  from : a ≤ i
  valid : IsValid new_sv
  count : new_sv.spaces ≡ i - a
  copied : contents new_sv ≡ take (i - a) (drop a (contents sv))

module _ {sv : Svec} (v : IsValid sv) (small : sv.spaces < 2 ^ 30) (a b : ℕ)
    (inside : b ≤ sv.spaces) where
  push-Sliced :
      (i : ℕ) (s : Svec)
      → i < b
      → Sliced sv a i s
      → Succeeds (svec_get sv i >>= svec_push_back s) (Sliced sv a (i + 1))
  push-Sliced i s hi p =
      let item = get_or sv.slots i null in
      let (s', run, q) =
        svec_push_back-Pushed item p.valid (omega (arith, p.count))
          (All-get_or Written sv.slots i null (omega (arith, v.fits, v.sized)) v.written) in
      let e : a + (i - a) ≡ i = omega (arith, p.from) in
      (
        s',
        rw (svec_get-get_or i v (omega arith)) run,
        record {
          from = omega (arith, p.from);
          valid = q.valid;
          count = omega (arith, q.counted, p.count);
          copied =
              q.appended
              ∙ ap (λ t. t ++ item ∷ []) p.copied
              ∙ ap (λ x. take (i - a) (drop a (contents sv)) ++ x ∷ [])
                  (sym (
                    get_or-drop (contents sv) a (i - a) null
                    ∙ ap (λ k. get_or (contents sv) k null) e
                    ∙ get_or-take sv.slots sv.spaces i null (omega arith)))
              ∙ sym (
                  take-suc (drop a (contents sv)) (i - a) null
                    (omega (arith, length-drop {0} a (contents sv), length-contents v, p.from)))
              ∙ ap (λ k. take k (drop a (contents sv)))
                  (let e' : suc (i - a) ≡ i + 1 - a = omega (arith, p.from) in e');
        },
      )

  -- `sub_svec` does not fault when the end lies inside the vector: the result is valid and holds
  -- the items from `a` up to `b`.
  pub sub_svec-Slice :
      a ≤ b
      → Succeeds
          (sub_svec sv a b)
          λ s. IsValid s × (contents s ≡ take (b - a) (drop a (contents sv)))
  unfolding sub_svec
  sub_svec-Slice h =
      let (s, run, p) =
        for_range-Succeeds (Sliced sv a) _ b push-Sliced (b - a) a make_svec (omega arith) (record {
          from = omega arith;
          valid = make_svec-IsValid;
          count = omega (arith, spaces-make_svec);
          copied =
              contents-make_svec
              ∙ ap (λ k. take k (drop a (contents sv))) (let e : 0 ≡ a - a = omega arith in e);
        }) in
      (s, rw (le→leb b sv.spaces inside) run, (p.valid, p.copied))

-- `svec_clone` returns a valid vector with the same items.
pub svec_clone-contents :
    {sv : Svec}
    → IsValid sv
    → sv.spaces < 2 ^ 30
    → Succeeds (svec_clone sv) λ s. IsValid s × (contents s ≡ contents sv)
unfolding svec_clone
svec_clone-contents {sv} v small =
    let (s, run, (valid, e)) = sub_svec-Slice v small 0 sv.spaces (omega arith) (omega arith) in
    (s, run, (valid, e ∙ take-le (contents sv) (sv.spaces - 0) (omega (arith, length-contents v))))
