-- ===== src/Nush/Implement/Kernel.antt =====
-- The runs of the processes of chal1/challenge01/implement.c: what the kernel may do, and in what
-- order what the processes do is seen.
use cs.Base.{
  ◌≡◌, List, [], ◌∷◌, ◌++◌, map, Option, none, some, ◌⊎◌, ℤ, pos, minus_one, length, if◌then◌else◌,
}
use cs.Nush.Svec.{Slot, str_eq}
use cs.Nush.Implement.{
  Pid, Status, exited, crashed, Proc, exit, abort, chdir, execvp, open_reading, open_writing, close,
  dup, pipe, fork, waitpid,
}

-- What is seen of a run, with the values that the calls returned.
pub data Event : Type 0 where
  moved : Slot → ℤ → Event
  ran : List Slot → Status → Event
  not_run : List Slot → Event
  opened_reading opened_writing : Slot → ℤ → Event
  closed copied : ℤ → Event
  joined : ℤ → ℤ → Event

-- A process also sees the end of a child that it waits for.
pub data Mark : Type 0 where
  event : Event → Mark
  reaped : Pid → Mark

unfoldable pub visible : List Mark → List Event
visible [] = []
visible (event e ∷ t) = e ∷ visible t
visible (reaped n ∷ t) = visible t

-- `t` orders the events of the child `n` and the marks of its parent: where the parent
-- sees the end of the child, no event of the child is left.
unfoldable pub Merge : Pid → List Event → List Mark → List Mark → Type 0
Merge n c [] t = t ≡ map event c
Merge n c (x ∷ p) t =
    (c1 : List Event) × (c2 : List Event) × (t' : List Mark) × (c ≡ c1 ++ c2)
    × (t ≡ map event c1 ++ (x ∷ t'))
    × (x ≡ reaped n → c2 ≡ [])
    × Merge n c2 p t'

unfoldable pub find_child : Pid → List (Pid × Status) → Option Status
find_child n [] = none
find_child n (kid ∷ kids) = if str_eq n kid.0 then some kid.1 else find_child n kids

-- The process `self`, with the children `kids` and their ends, may leave the marks `t` and end with `e`.
unfoldable pub Runs : Pid → List (Pid × Status) → Proc → List Mark → Status → Type 0
unfolding Merge find_child visible
Runs self kids (exit v) t e = (t ≡ []) × (e ≡ exited v)
Runs self kids (abort why) t e = (t ≡ []) × (e ≡ crashed why)
Runs self kids (chdir path k) t e =
    (r : ℤ) × (t' : List Mark) × ((r ≡ pos 0) ⊎ (r ≡ minus_one))
    × (t ≡ event (moved path r) ∷ t')
    × Runs self kids (k r) t' e
Runs self kids (execvp file args failed) t e =
    (t ≡ event (ran args e) ∷ [])
    ⊎ ((t' : List Mark) × (t ≡ event (not_run args) ∷ t') × Runs self kids failed t' e)
Runs self kids (open_reading path k) t e =
    (fd : ℤ) × (t' : List Mark) × (t ≡ event (opened_reading path fd) ∷ t')
    × Runs self kids (k fd) t' e
Runs self kids (open_writing path k) t e =
    (fd : ℤ) × (t' : List Mark) × (t ≡ event (opened_writing path fd) ∷ t')
    × Runs self kids (k fd) t' e
Runs self kids (close fd p) t e =
    (t' : List Mark) × (t ≡ event (closed fd) ∷ t') × Runs self kids p t' e
Runs self kids (dup fd p) t e =
    (t' : List Mark) × (t ≡ event (copied fd) ∷ t') × Runs self kids p t' e
Runs self kids (pipe k) t e =
    (r : ℤ) × (w : ℤ) × (t' : List Mark) × (t ≡ event (joined r w) ∷ t')
    × Runs self kids (k r w) t' e
Runs self kids (fork child parent) t e =
    (tc : List Mark) × (ec : Status) × (tp : List Mark) × Runs (length kids ∷ self) [] child tc ec
    × Runs self ((length kids ∷ self, ec) ∷ kids) (parent (length kids ∷ self)) tp e
    × Merge (length kids ∷ self) (visible tc) tp t
Runs self kids (waitpid n k) t e =
    (t' : List Mark) × (t ≡ reaped n ∷ t') × Runs self kids (k (find_child n kids)) t' e
