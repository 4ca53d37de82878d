-- ===== src/Nush/Implement/Meaning.antt =====
-- What the commands of chal1/challenge01/implement.c mean, with no processes: the exit status of a tree
-- and what is seen of its run, as the list of events before it and the list that is left behind it.
use cs.Base.{Outcome, ret, ℕ, ◌≡◌, ◌≢◌, List, [], ◌∷◌, ◌++◌, false, ◌⊎◌, ℤ, pos, minus_one}
use cs.Nush.Svec.{Slot, text, Svec, str_eq, svec_get}
use cs.Nush.Astree.{Astree, null, cmd, node}
use cs.Nush.Implement.{
  Status, exited, wexitstatus, Op, unknown, semicolon, background, or, and, piped, rdr_in, rdr_out,
  op_code, argv, path_of, cd, exit_word,
}
use cs.Nush.Implement.Kernel.{Event, moved, ran, not_run, opened_reading, closed, copied, joined}
use cs.Nush.Implement.Reap.{Interleave}

-- A command that does not end the shell and that the code can run: a cd has an argument.
pub data Ready (sv : Svec) : Type 0 where
  moves : (dir : Slot) → svec_get sv 0 ≡ ret (text cd) → svec_get sv 1 ≡ ret dir → Ready sv
  runs :
      (name : List ℕ) (args : List Slot)
      → svec_get sv 0 ≡ ret (text name)
      → str_eq name cd ≡ false
      → str_eq name exit_word ≡ false
      → argv sv ≡ ret args
      → Ready sv

-- cd changes the directory or gives -1; a program that is not found counts as status 1.
unfoldable pub Command : {sv : Svec} → Ready sv → ℤ → List Event → List Event → Type 0
Command (moves dir _ _) v t u = ((v ≡ pos 0) ⊎ (v ≡ minus_one)) × (t ≡ moved dir v ∷ u)
Command (runs name args _ _ _ _) v t u =
    ((s : Status) × (v ≡ pos (wexitstatus s)) × (t ≡ ran args s ∷ u))
    ⊎ ((v ≡ pos 1) × (t ≡ not_run args ∷ u))

-- The trees with no background command and no output file, whose commands can run.
unfoldable pub PlainOp : Op → Type 0 → Astree → Type 0 → Type 0
PlainOp background p1 b2 p2 = ⊥
PlainOp rdr_out p1 b2 p2 = ⊥
PlainOp rdr_in p1 b2 p2 = p1 × ((path : Slot) × (path_of b2 ≡ ret path))
PlainOp unknown p1 b2 p2 = Unit
PlainOp semicolon p1 b2 p2 = p1 × p2
PlainOp or p1 b2 p2 = p1 × p2
PlainOp and p1 b2 p2 = p1 × p2
PlainOp piped p1 b2 p2 = p1 × p2

unfoldable pub Plain : Astree → Type 0
unfolding PlainOp
Plain null = Unit
Plain (cmd sv) = Ready sv
Plain (node op b1 b2) = PlainOp (op_code op) (Plain b1) b2 (Plain b2)

abbrev pub Meaning : Type 1
Meaning = ℤ → List Event → List Event → Type 0

-- One after the other, where the second knows the status of the first.
abbrev pub First : Meaning → (ℤ → Meaning) → Meaning
First m1 m2 v t u = (v1 : ℤ) × (mid : List Event) × m1 v1 t mid × m2 v1 v mid u

-- The second runs if the first has the status `s`, else the status stays.
abbrev pub When : ℕ → Meaning → ℤ → Meaning
When s m2 v1 v t u = ((v1 ≡ pos s) × m2 v t u) ⊎ ((v1 ≢ pos s) × (v ≡ v1) × (t ≡ u))

-- The first with its input from a file, in a process of its own.
abbrev pub Redirected : Outcome Slot → Meaning → Meaning
Redirected file m1 v t u =
    (path : Slot) × (fd : ℤ) × (v1 : ℤ) × (seen : List Event) × (file ≡ ret path)
    × m1 v1 seen []
    × (v ≡ pos (wexitstatus (exited v1)))
    × (t ≡ opened_reading path fd ∷ closed (pos 0) ∷ copied fd ∷ closed fd ∷ (seen ++ u))

-- The two at the same time, each in a process of its own; the status is that of the second.
abbrev pub Connected : Meaning → Meaning → Meaning
Connected m1 m2 v t u =
    (r : ℤ) × (w : ℤ) × (v1 : ℤ) × (v2 : ℤ) × (s1 : List Event) × (s2 : List Event) × (both : List
      Event)
    × m1 v1 s1 []
    × m2 v2 s2 []
    × Interleave (closed r ∷ closed (pos 1) ∷ copied w ∷ closed w ∷ s1)
        (closed w ∷ closed (pos 0) ∷ copied r ∷ closed r ∷ s2) both
    × (v ≡ pos (wexitstatus (exited v2)))
    × (t ≡ joined r w ∷ (both ++ u))

-- For a tree that is not plain there is no meaning.
unfoldable pub MeansOp : Op → Meaning → Astree → Meaning → Meaning
MeansOp semicolon m1 null m2 v t u = m1 v t u
MeansOp semicolon m1 (cmd sv) m2 v t u = First m1 (λ _. m2) v t u
MeansOp semicolon m1 (node op b1 b2) m2 v t u = First m1 (λ _. m2) v t u
MeansOp or m1 b2 m2 v t u = First m1 (When 1 m2) v t u
MeansOp and m1 b2 m2 v t u = First m1 (When 0 m2) v t u
MeansOp piped m1 b2 m2 v t u = Connected m1 m2 v t u
MeansOp rdr_in m1 b2 m2 v t u = Redirected (path_of b2) m1 v t u
MeansOp unknown m1 b2 m2 v t u = (v ≡ pos 1) × (t ≡ u)
MeansOp background m1 b2 m2 v t u = ⊥
MeansOp rdr_out m1 b2 m2 v t u = ⊥

unfoldable pub Means : Astree → Meaning
unfolding MeansOp Command
Means null v t u = (v ≡ pos 0) × (t ≡ u)
Means (cmd sv) v t u = (r : Ready sv) × Command r v t u
Means (node op b1 b2) v t u = MeansOp (op_code op) (Means b1) b2 (Means b2) v t u
