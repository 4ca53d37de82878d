-- ===== src/Nush/Implement/Reap.antt =====
-- Waiting for a child, as the handlers of chal1/challenge01/implement.c do right behind a fork.
use cs.Base.{
  ◌≢◌, refl, sym, ◌≡◌, refl, sym, ◌∙◌, ap, subst, List, [], ◌∷◌, ◌++◌, map, Option, none, some, ℤ,
  pos, length, append-nil, append_assoc, uninitialised,
}
use cs.Nush.Svec.Search.{str_eq_iff}
use cs.Nush.Implement.{Pid, Status, Proc, abort, fork, wexitstatus, exit_status_of}
use cs.Nush.Implement.Kernel.{Event, Mark, event, reaped, visible, Merge, find_child, Runs}

-- Interleavings of two lists, by the second.
unfoldable pub Interleave : List Event → List Event → List Event → Type 0
Interleave c [] t = t ≡ c
Interleave c (x ∷ p) t =
    (c1 : List Event) × (c2 : List Event) × (t' : List Event) × (c ≡ c1 ++ c2)
    × (t ≡ c1 ++ (x ∷ t'))
    × Interleave c2 p t'

pub visible-append : (a b : List Mark) → visible (a ++ b) ≡ visible a ++ visible b
unfolding visible
visible-append [] b = refl
visible-append (event e ∷ a) b = ap (λ t. e ∷ t) (visible-append a b)
visible-append (reaped n ∷ a) b = visible-append a b

pub visible-four :
    {a b c d : Event} {t t1 t2 t3 t4 : List Mark}
    → t ≡ event a ∷ t1
    → t1 ≡ event b ∷ t2
    → t2 ≡ event c ∷ t3
    → t3 ≡ event d ∷ t4
    → visible t ≡ a ∷ b ∷ c ∷ d ∷ visible t4
unfolding visible
visible-four {a} {b} {c} {d} e1 e2 e3 e4 =
    ap visible
      (e1 ∙ ap (λ r. event a ∷ r) (e2 ∙ ap (λ r. event b ∷ r) (e3 ∙ ap (λ r. event c ∷ r) e4)))

pub visible-map : (c : List Event) → visible (map event c) ≡ c
unfolding visible
visible-map [] = refl
visible-map (e ∷ c) = ap (λ t. e ∷ t) (visible-map c)

parts_empty : (a b : List Event) → [] ≡ a ++ b → (a ≡ []) × (b ≡ [])
parts_empty [] b h = (refl, sym h)
parts_empty (x ∷ a) b h = cc

-- A child with no events leaves the parent's marks as they are.
pub Merge-nil : (n : Pid) (p t : List Mark) → Merge n [] p t → t ≡ p
unfolding Merge
Merge-nil n [] t m = m
Merge-nil n (x ∷ p) t (c1, c2, t', both, e, gone, m) =
    let (e1, e2) = parts_empty c1 c2 both in
    let m' : Merge n [] p t' = subst (λ c. Merge n c p t') e2 m in
    e ∙ ap (λ c. map event c ++ (x ∷ t')) e1 ∙ ap (λ r. x ∷ r) (Merge-nil n p t' m')

-- Where the parent waits first, all of the child comes before the rest of the parent.
pub Merge-reaped :
    (n : Pid) (c : List Event) (p t : List Mark)
    → Merge n c (reaped n ∷ p) t
    → visible t ≡ c ++ visible p
unfolding Merge visible
Merge-reaped n c p t (c1, c2, t', both, e, gone, m) =
    let e2 = gone refl in
    let m' : Merge n [] p t' = subst (λ c. Merge n c p t') e2 m in
    let e1 : c1 ≡ c = sym (both ∙ ap (λ r. c1 ++ r) e2 ∙ append-nil c1) in
    ap visible e
    ∙ visible-append (map event c1) (reaped n ∷ t')
    ∙ ap (λ r. r ++ visible t') (visible-map c1 ∙ e1)
    ∙ ap (λ r. c ++ visible r) (Merge-nil n p t' m')

Interleave-front : (a c q t : List Event) → Interleave c q t → Interleave (a ++ c) q (a ++ t)
unfolding Interleave
Interleave-front a c [] t i = ap (λ r. a ++ r) i
Interleave-front a c (x ∷ q) t (c1, c2, t', both, e, i) = (
  a ++ c1,
  c2,
  t',
  ap (λ r. a ++ r) both ∙ sym (append_assoc a c1 c2),
  ap (λ r. a ++ r) e ∙ sym (append_assoc a c1 (x ∷ t')),
  i,
)

-- What is seen of a merge is an interleaving.
pub Merge-Interleave :
    (n : Pid) (c : List Event) (p t : List Mark)
    → Merge n c p t
    → Interleave c (visible p) (visible t)
unfolding Merge Interleave visible
Merge-Interleave n c [] t m = ap visible m ∙ visible-map c
Merge-Interleave n c (event x ∷ p) t (c1, c2, t', both, e, gone, m) = (
  c1,
  c2,
  visible t',
  both,
  ap visible e
      ∙ visible-append (map event c1) (event x ∷ t')
      ∙ ap (λ r. r ++ (x ∷ visible t')) (visible-map c1),
  Merge-Interleave n c2 p t' m,
)
Merge-Interleave n c (reaped k ∷ p) t (c1, c2, t', both, e, gone, m) =
    let seen : visible t ≡ c1 ++ visible t' =
      ap visible e
      ∙ visible-append (map event c1) (reaped k ∷ t')
      ∙ ap (λ r. r ++ visible t') (visible-map c1) in
    let i = Interleave-front c1 c2 (visible p) (visible t') (Merge-Interleave n c2 p t' m) in
    subst (λ r. Interleave r (visible p) (visible t)) (sym both)
      (subst (Interleave (c1 ++ c2) (visible p)) (sym seen) i)

-- The parent sees no end of the child `n`.
unfoldable pub NoWait : Pid → List Mark → Type 0
NoWait n [] = Unit
NoWait n (x ∷ p) = (x ≢ reaped n) × NoWait n p

-- A parent that does not wait for the child leaves every interleaving possible.
pub Interleave-Merge :
    (n : Pid) (c : List Event) (p : List Mark) (s : List Event)
    → NoWait n p
    → Interleave c (visible p) s
    → (t : List Mark) × (visible t ≡ s) × Merge n c p t
unfolding Merge Interleave visible NoWait
Interleave-Merge n c [] s free i = (map event c, visible-map c ∙ sym i, refl)
Interleave-Merge n c (event x ∷ p) s (here, free) (c1, c2, s', both, e, i) =
    let (t, seen, m) = Interleave-Merge n c2 p s' free i in
    (
      map event c1 ++ (event x ∷ t),
      visible-append (map event c1) (event x ∷ t)
          ∙ ap (λ r. r ++ (x ∷ visible t)) (visible-map c1)
          ∙ ap (λ r. c1 ++ (x ∷ r)) seen
          ∙ sym e,
      (c1, c2, t, both, refl, λ waits. absurd (here waits), m),
    )
Interleave-Merge n c (reaped k ∷ p) s (here, free) i =
    let (t, seen, m) = Interleave-Merge n c p s free i in
    (reaped k ∷ t, seen, ([], c, t, refl, refl, λ waits. absurd (here waits), m))

pub find_child_newest :
    (n : Pid) (s : Status) (kids : List (Pid × Status)) → find_child n ((n, s) ∷ kids) ≡ some s
unfolding find_child
find_child_newest n s kids = rw ((str_eq_iff n n).1 refl) refl

-- The child has run to its end before the parent goes on with its exit status.
pub Runs-reaped :
    (self : Pid) (kids : List (Pid × Status)) (child : Proc) (k : ℤ → Proc) (t : List Mark)
    (e : Status)
    → Runs self kids (fork child λ cpid. exit_status_of cpid k) t e
    → (tc : List Mark) × (ec : Status) × (t' : List Mark) × Runs (length kids ∷ self) [] child tc ec
      × (visible t ≡ visible tc ++ visible t')
      × Runs self ((length kids ∷ self, ec) ∷ kids) (k (pos (wexitstatus ec))) t' e
unfolding Runs exit_status_of
Runs-reaped self kids child k t e (tc, ec, tp, run, (t', et, rest), m) =
    let n = length kids ∷ self in
    let kids' : List (Pid × Status) = (n, ec) ∷ kids in
    let m' = subst (λ p. Merge n (visible tc) p t) et m in
    let after : Option Status → Proc =
      λ st. elim st [ none ↦ abort uninitialised | some s ↦ k (pos (wexitstatus s)) ] in
    (
      tc,
      ec,
      t',
      run,
      Merge-reaped n (visible tc) t' t m',
      subst (λ st. Runs self kids' (after st) t' e) (find_child_newest n ec kids) rest,
    )
