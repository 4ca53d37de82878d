-- ===== src/Nush/Svec/Valid.antt =====
-- The representation invariant of the vector, and `svec_put` and `svec_push_back` under it.
use cs.Base.{
  ℕ, suc, ◌+◌, ◌*◌, ◌^◌, ◌≤◌, ◌<◌, ◌≡◌, refl, ◌∙◌, ap, ap₂, List, [], ◌∷◌, ◌++◌, inl, inr, ret,
  ◌>>=◌, Succeeds, read-get_or, store-set, length, take, replicate, get_or, set, All, leb,
  Bool-cases, arith, length-set, length-append, length-replicate, length-take, take-length, take-le,
  leb→le, int, not_leb→lt, le→leb, take-append, take-suc-set, All-append, All-replicate, All-set,
  All-get_or, lt→ltb, if◌then◌else◌, drop-length, append-nil,
}
use cs.Nush.Svec.{
  Slot, junk, null, text, Svec, make_svec, svec_get, duplicate, release, svec_put, realloc, clear,
  grow, svec_push_back,
}

-- A pointer that was written.
abbrev pub Written : Slot → Type 0
Written junk = ⊥
Written null = Unit
Written (text s) = Unit

-- The block has `size` cells, all written, of which the first `spaces` are in use.
pub record IsValid (sv : Svec) : Type 0 where
  pub fits : sv.spaces ≤ sv.size
  pub sized : length sv.slots ≡ sv.size
  pub room : 0 < sv.size
  pub written : All Written sv.slots

-- What a client sees: the items in use, in order.
abbrev pub contents : Svec → List Slot
contents sv = take sv.spaces sv.slots

pub length-contents : {sv : Svec} → IsValid sv → length (contents sv) ≡ sv.spaces
length-contents {sv} v = omega (arith, length-take {0} sv.spaces sv.slots)

pub make_svec-IsValid : IsValid make_svec
unfolding make_svec
make_svec-IsValid = omega arith

pub contents-make_svec : contents make_svec ≡ []
unfolding make_svec
contents-make_svec = refl

pub spaces-make_svec : make_svec.spaces ≡ 0
unfolding make_svec
spaces-make_svec = refl

pub svec_get-get_or :
    {sv : Svec} (ii : ℕ)
    → IsValid sv
    → ii < sv.spaces
    → svec_get sv ii ≡ ret (get_or sv.slots ii null)
unfolding svec_get
svec_get-get_or {sv} ii v h = rw (lt→ltb ii sv.spaces h, read-get_or sv.slots ii null (omega arith))

duplicate-Written : (s : Slot) → Written s → duplicate s ≡ ret s
unfolding duplicate
duplicate-Written junk w = absurd w
duplicate-Written null w = refl
duplicate-Written (text s) w = refl

release-Written : (s : Slot) → Written s → release s ≡ ret tt
unfolding release
release-Written junk w = absurd w
release-Written null w = refl
release-Written (text s) w = refl

-- On a valid vector, at the index of an item, and for an item that was written, `svec_put` does not
-- fault, overwrites that item and touches nothing else.
pub svec_put_lem :
    {sv : Svec} (ii : ℕ) (item : Slot)
    → IsValid sv
    → ii < sv.spaces
    → Written item
    → svec_put sv ii item ≡ ret (record sv { slots = set sv.slots ii item })
unfolding svec_put
svec_put_lem {sv} ii item v h w =
    let inside : ii < length sv.slots = omega arith in
    rw (
      lt→ltb ii sv.spaces h,
      duplicate-Written item w,
      read-get_or sv.slots ii null inside,
      release-Written _ (All-get_or Written sv.slots ii null inside v.written),
      store-set sv.slots ii item inside,
    )

pub svec_put-IsValid :
    {sv : Svec} (ii : ℕ) (item : Slot)
    → IsValid sv
    → Written item
    → IsValid (record sv { slots = set sv.slots ii item })
svec_put-IsValid {sv} ii item v w = record {
  fits = v.fits;
  sized = length-set sv.slots ii item ∙ v.sized;
  room = v.room;
  written = All-set Written sv.slots ii item w v.written;
}

-- The block that `grow` leaves when the vector is full.
abbrev grown : Svec → Svec
grown sv = record sv { size = sv.size * 2; slots = sv.slots ++ replicate sv.size null }

realloc-append : (xs : List Slot) → realloc xs (length xs * 2) ≡ xs ++ replicate (length xs) junk
unfolding realloc
realloc-append xs =
    ap₂ ◌++◌ (take-le xs (length xs * 2) (omega arith)) (ap (λ k. replicate k junk) (omega arith))

clear-append :
    (xs : List Slot) (n : ℕ)
    → clear (xs ++ replicate n junk) (length xs) n ≡ ret (xs ++ replicate n null)
unfolding clear
clear-append xs n =
    let total : length (xs ++ replicate n junk) ≡ length xs + n =
      omega (arith, length-append xs (replicate n junk), length-replicate n junk) in
    rw (
      le→leb (length xs + n) (length (xs ++ replicate n junk)) (omega arith),
      take-append (length xs) xs (replicate n junk) (omega arith),
      take-length xs,
      drop-length (xs ++ replicate n junk) (length xs + n) (omega arith),
      append-nil,
    )

clear-realloc :
    (xs : List Slot) (n : ℕ)
    → length xs ≡ n
    → clear (realloc xs (n * 2)) n n ≡ ret (xs ++ replicate n null)
clear-realloc xs n e = rw (← e, realloc-append xs) (clear-append xs (length xs))

grow-grown : {sv : Svec} → IsValid sv → sv.size < 2 ^ 30 → grow sv ≡ ret (grown sv)
unfolding grow
grow-grown {sv} v h =
    rw (lt→ltb (sv.size * 2) (2 ^ 31) (omega arith), clear-realloc sv.slots sv.size v.sized)

grown-IsValid : {sv : Svec} → IsValid sv → IsValid (grown sv)
grown-IsValid {sv} v = record {
  fits = omega arith;
  sized =
      omega (arith, length-append sv.slots (replicate sv.size null), length-replicate sv.size null);
  room = omega arith;
  written =
      All-append Written sv.slots (replicate sv.size null) v.written
        (All-replicate Written sv.size null tt);
}

-- What `svec_push_back` leaves: the item behind the others, in a block that doubled if it was full.
pub record Pushed (sv : Svec) (item : Slot) (sv' : Svec) : Type 0 where
  pub valid : IsValid sv'
  pub appended : contents sv' ≡ contents sv ++ item ∷ []
  pub counted : sv'.spaces ≡ sv.spaces + 1
  pub doubled : sv'.size ≡ (if leb sv.size sv.spaces then sv.size * 2 else sv.size)

-- The end of `svec_push_back`, once there is a free cell.
put_end :
    {sv : Svec} (item : Slot)
    → IsValid sv
    → sv.spaces < sv.size
    → sv.spaces < 2 ^ 30
    → Written item
    → let sv' : Svec = record sv { spaces = sv.spaces + 1; slots = set sv.slots sv.spaces item } in
      (int (sv.spaces + 1) >>= (λ n. svec_put (record sv { spaces = n }) sv.spaces item) ≡ ret sv')
      × IsValid sv'
      × (contents sv' ≡ contents sv ++ item ∷ [])
put_end {sv} item v h b w =
    let wider : IsValid (record sv { spaces = sv.spaces + 1 }) = record {
      fits = omega arith;
      sized = v.sized;
      room = v.room;
      written = v.written;
    } in
    (
      rw (lt→ltb (sv.spaces + 1) (2 ^ 31) (omega arith))
          (svec_put_lem sv.spaces item wider (omega arith) w),
      svec_put-IsValid sv.spaces item wider w,
      ap (λ k. take k (set sv.slots sv.spaces item))
            (let e : sv.spaces + 1 ≡ suc sv.spaces = omega arith in e)
          ∙ take-suc-set sv.slots sv.spaces item (omega arith),
    )

-- `svec_push_back` does not fault on a valid vector of fewer than 2^30 items: it appends the item,
-- doubles the block exactly when it was full, and keeps the vector valid.
pub svec_push_back-Pushed :
    {sv : Svec} (item : Slot)
    → IsValid sv
    → sv.spaces < 2 ^ 30
    → Written item
    → Succeeds (svec_push_back sv item) (Pushed sv item)
unfolding svec_push_back
svec_push_back-Pushed {sv} item v b w = elim (Bool-cases (leb sv.size sv.spaces)) [
  | inl full ↦
      let f : sv.size ≤ sv.spaces = leb→le sv.size sv.spaces full in
      let (run, valid, appended) = put_end item (grown-IsValid v) (omega arith) b w in
      (
        record (grown sv) { spaces = sv.spaces + 1; slots = _ },
        rw (full, grow-grown v (omega arith)) run,
        record {
          valid = valid;
          appended =
              appended
              ∙ ap (λ t. t ++ item ∷ [])
                  (take-append sv.spaces sv.slots (replicate sv.size null) (omega arith));
          counted = refl;
          doubled = rw full;
        },
      )
  | inr free ↦
      let f : sv.spaces < sv.size = not_leb→lt sv.size sv.spaces free in
      let (run, valid, appended) = put_end item v f b w in
      (
        record sv { spaces = sv.spaces + 1; slots = _ },
        rw free run,
        record { valid = valid; appended = appended; counted = refl; doubled = rw free },
      )
]
