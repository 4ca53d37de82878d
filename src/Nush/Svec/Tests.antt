-- ===== src/Nush/Svec/Tests.antt =====
-- Vectors at work: a full one, and one with a free cell.
use cs.Base.{
  ◌-◌, ◌≡◌, refl, List, [], ◌∷◌, ◌++◌, map, reverse, some, ret, Succeeds, arith, codes, take, drop,
  read, store,
}
use cs.Nush.Svec.{
  Str, null, text, Svec, svec_push_back, svec_reverse, svec_index_of, sub_svec, str_eq,
}
use cs.Nush.Svec.Reverse.{svec_reverse-reverse}
use cs.Nush.Svec.Slice.{sub_svec-Slice}
use cs.Nush.Svec.Valid.{IsValid, contents, Pushed, svec_push_back-Pushed}

abbrev words : List Str
words = codes "ls" ∷ codes "-l" ∷ codes "src" ∷ []

-- Three items in four cells.
abbrev three : Svec
three = record { size = 4; spaces = 3; slots = map text words ++ null ∷ [] }

-- Two items in two cells.
abbrev full : Svec
full = record { size = 2; spaces = 2; slots = text (codes "a") ∷ text (codes "b") ∷ [] }

three-IsValid : IsValid three
three-IsValid = omega arith

full-IsValid : IsValid full
full-IsValid = omega arith

push_doubles :
    svec_push_back full (text (codes "c"))
    ≡ ret (record {
      size = 4;
      spaces = 3;
      slots = text (codes "a") ∷ text (codes "b") ∷ text (codes "c") ∷ null ∷ [];
    })
unfolding svec_push_back read store
push_doubles = refl

index_of_src : svec_index_of three (codes "src") ≡ ret (some 2)
unfolding svec_index_of read str_eq
index_of_src = refl

svec_push_back-Pushed_example :
    Succeeds (svec_push_back full (text (codes "c"))) (Pushed full (text (codes "c")))
svec_push_back-Pushed_example =
    svec_push_back-Pushed (text (codes "c")) full-IsValid (omega arith) tt

svec_reverse-reverse_example :
    Succeeds (svec_reverse three) λ s. IsValid s × (contents s ≡ reverse (map text words))
svec_reverse-reverse_example = svec_reverse-reverse three-IsValid

sub_svec-Slice_example :
    Succeeds
      (sub_svec three 1 3)
      λ s. IsValid s × (contents s ≡ take (3 - 1) (drop 1 (map text words)))
sub_svec-Slice_example = sub_svec-Slice three-IsValid (omega arith) 1 3 (omega arith) (omega arith)
