-- ===== src/Nush/Implement/Tests.antt =====
-- Tests for chal1/challenge01/implement.c: the command a or b.
use cs.Base.{◌≡◌, refl, List, [], ◌∷◌, inl, inr, ℤ, pos, drop, codes, read, for_range}
use cs.Nush.Svec.{null, svec_length, Str, Slot, text, Svec, str_eq, svec_get, strcmp_slot}
use cs.Nush.Astree.{Astree, null, cmd, node}
use cs.Nush.Implement.{
  svec_length, Pid, Status, exited, exit, wexitstatus, op_code, argv, exit_status_of, exec_child,
  execute_cmd, or_cmd, is_int, run, execute,
}
use cs.Nush.Implement.Kernel.{Mark, event, reaped, visible, Runs, Merge, ran, not_run, find_child}
use cs.Nush.Implement.Meaning.{Command, MeansOp, Ready, runs, Plain, PlainOp, Means}
use cs.Nush.Implement.Executed.{execute-Means}
use cs.Nush.Implement.Possible.{NoPipes, execute-possible}

abbrev pub word : Str → Svec
word s = record { size = 2; spaces = 1; slots = text s ∷ null ∷ [] }

abbrev pub args : Str → List Slot
args s = text s ∷ null ∷ []

pub word_a-Ready : Ready (word (codes "a"))
unfolding svec_get read argv for_range svec_length str_eq
word_a-Ready = runs (codes "a") (args (codes "a")) refl refl refl refl

word_b-Ready : Ready (word (codes "b"))
unfolding svec_get read argv for_range svec_length str_eq
word_b-Ready = runs (codes "b") (args (codes "b")) refl refl refl refl

abbrev a_or_b : Astree
a_or_b = node (codes "||") (cmd (word (codes "a"))) (cmd (word (codes "b")))

a_or_b-Plain : Plain a_or_b
unfolding Plain PlainOp op_code str_eq
a_or_b-Plain = (word_a-Ready, word_b-Ready)

-- a is not found, and b ends with 3.
abbrev marks : List Mark
marks =
    event (not_run (args (codes "a")))
    ∷ reaped (0 ∷ [])
    ∷ event (ran (args (codes "b")) (exited (pos 3)))
    ∷ reaped (1 ∷ [])
    ∷ []

a_or_b-Runs : Runs [] [] (execute a_or_b exit) marks (exited (pos 3))
unfolding Runs execute op_code str_eq run or_cmd is_int execute_cmd svec_get read strcmp_slot
    exec_child argv for_range svec_length exit_status_of wexitstatus find_child Merge visible
a_or_b-Runs = (
  event (not_run (args (codes "a"))) ∷ [],
  exited (pos 1),
  drop 1 marks,
  inr ([], refl, (refl, refl)),
  (
    drop 2 marks,
    refl,
    (
      event (ran (args (codes "b")) (exited (pos 3))) ∷ [],
      exited (pos 3),
      drop 3 marks,
      inl refl,
      ([], refl, (refl, refl)),
      (ran (args (codes "b")) (exited (pos 3)) ∷ [], [], [], refl, refl, λ _. refl, refl),
    ),
  ),
  (
    not_run (args (codes "a")) ∷ [],
    [],
    drop 2 marks,
    refl,
    refl,
    λ _. refl,
    ([], [], drop 3 marks, refl, refl, λ _. refl, ([], [], [], refl, refl, λ _. refl, refl)),
  ),
)

execute-Means_example :
    (v : ℤ) × (kids' : List (Pid × Status)) × (t' : List Mark) × Means a_or_b v
      (visible marks)
      (visible t')
    × Runs [] kids' (exit v) t' (exited (pos 3))
execute-Means_example =
    execute-Means a_or_b [] [] exit marks (exited (pos 3)) a_or_b-Plain a_or_b-Runs

a_or_b-NoPipes : NoPipes a_or_b
unfolding NoPipes op_code str_eq
a_or_b-NoPipes = (λ e. cc, tt, tt)

a_or_b-Means : Means a_or_b (pos 3) (visible marks) []
unfolding Means MeansOp op_code str_eq Command wexitstatus visible svec_get read argv for_range
    svec_length
a_or_b-Means = (
  pos 1,
  ran (args (codes "b")) (exited (pos 3)) ∷ [],
  (runs (codes "a") (args (codes "a")) refl refl refl refl, inr (refl, refl)),
  inl (
    refl,
    (runs (codes "b") (args (codes "b")) refl refl refl refl, inl (exited (pos 3), refl, refl)),
  ),
)

exit-Runs :
    (self : Pid) (kids : List (Pid × Status))
    → (t' : List Mark) × (visible t' ≡ []) × Runs self kids (exit (pos 3)) t' (exited (pos 3))
unfolding Runs visible
exit-Runs self kids = ([], refl, (refl, refl))

execute-possible_example :
    (t' : List Mark) × (visible t' ≡ visible marks)
    × Runs [] [] (execute a_or_b exit) t' (exited (pos 3))
execute-possible_example =
    execute-possible a_or_b exit (pos 3) (visible marks) [] (exited (pos 3)) a_or_b-NoPipes
      a_or_b-Means exit-Runs [] []
