-- ===== src/Tsort/Sample/Vectors.antt =====
-- floats_get and qsort_floats of hw07/hw07-assignment on a vector whose numbers were written.
use cs.Base.{
  take-length, length-drop, length-append, ℕ, zero, suc, ◌<◌, ◌≡◌, refl, sym, ◌∙◌, ap, List, [],
  ◌∷◌, ◌++◌, map, Bool, true, none, some, arith, ℤ, ltb, lt→ltb, length, get_or, take, drop,
}
use cs.Base.{read-get_or, get_or-take, length-map, take-append, Succeeds, ret}
use cs.Tsort.{Floats, number, floats_get}
use cs.Tsort.Vector.{Holds}
use cs.Tsort.Sample.{float_cmp, read_all, qsort_floats}
use cs.Tsort.Sample.Ordered.{IsOrder, IsSort}
use cs.Tsort.Sample.Buckets.{length-qsort}

module _ {F : Type 0} where
  get_or-some :
      (xs : List F) (i : ℕ) (d : F)
      → i < length xs
      → get_or (map some xs) i none ≡ some (get_or xs i d)
  get_or-some [] i d h = absurd (omega arith)
  get_or-some (x ∷ xs) zero d h = refl
  get_or-some (x ∷ xs) (suc i) d h = get_or-some xs i d (omega arith)

  pub floats_get-Holds :
      (fs : Floats F) (xs : List F) (i : ℕ) (d : F)
      → Holds fs xs
      → i < length xs
      → floats_get fs i ≡ ret (get_or xs i d)
  unfolding floats_get number
  floats_get-Holds fs xs i d h lt =
      let inside : ltb i fs.size ≡ true = lt→ltb i fs.size (omega (arith, lt, h.count)) in
      let found = read-get_or fs.cells i none (omega (arith, lt, h.count, h.fits, h.sized)) in
      let cell : get_or fs.cells i none ≡ some (get_or xs i d) =
        sym (get_or-take fs.cells fs.size i none (omega (arith, lt, h.count)))
        ∙ ap (λ cs. get_or cs i none) h.written
        ∙ get_or-some xs i d lt in
      rw (inside, found, cell) refl

  pub read_all_lem : (xs : List F) → read_all (map some xs) ≡ ret xs
  unfolding read_all number
  read_all_lem [] = refl
  read_all_lem (x ∷ xs) = rw (read_all_lem xs) refl

module _ {F : Type 0} (at_least less : F → F → Bool) (qsort : (F → F → ℤ) → List F → List F)
    (o : IsOrder at_least less) (q : IsSort less qsort) where
  pub qsort_floats-Holds :
      (fs : Floats F) (xs : List F)
      → Holds fs xs
      → Succeeds (qsort_floats qsort less fs) λ r. Holds r (qsort (float_cmp less) xs)
  unfolding qsort_floats
  qsort_floats-Holds fs xs h =
      let ys = qsort (float_cmp less) xs in
      let same = length-qsort at_least less qsort o q xs in
      let size : length ys ≡ fs.size = same ∙ h.count in
      let front : length (map some ys) ≡ fs.size = length-map ys some ∙ size in
      let cells' = map some ys ++ drop fs.size fs.cells in
      (
        record fs { cells = cells' },
        rw (ap read_all h.written ∙ read_all_lem xs) refl,
        record {
          room = h.room;
          sized = omega (
            arith,
            length-append (map some ys) (drop fs.size fs.cells),
            front,
            length-drop fs.size fs.cells,
            h.sized,
            h.fits,
          );
          count = size;
          fits = h.fits;
          written =
              take-append fs.size (map some ys) (drop fs.size fs.cells) (omega (arith, front))
              ∙ ap (λ k. take k (map some ys)) (sym front)
              ∙ take-length (map some ys);
        },
      )
