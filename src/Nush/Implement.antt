-- ===== src/Nush/Implement.antt =====
-- chal1/challenge01/implement.c and nush.c: the commands of the shell. A process is the tree of its
-- system calls: a call that returns a value is followed by the process for each value. `fork` has
-- the child and the parent, so it does not fail; an abort is a crash of the process. Each function of the
-- source takes what its caller does with the returned `int`. `free_astree`, `free_svec`, `malloc` and the messages have
-- no effect that the model sees, nor has `_exit` one that differs from `exit`: the shell reads from a
-- terminal or a pipe, so that the end of a child does not move its input.
pub mod Kernel
pub mod Reap
pub mod Meaning
pub mod Splits
pub mod Children
pub mod Executed
pub mod Able
pub mod Possible
pub mod Script
pub mod Output
mod Tests
mod OutputTests
use cs.Base.{
  ℕ, zero, suc, ◌+◌, List, [], ◌∷◌, ◌++◌, Bool, true, false, Option, none, some, ℤ, pos, negsuc,
  ◌-◌, ◌%◌, ◌==◌, Outcome, ret, fault, Fault, null_pointer, uninitialised, ◌>>=◌, for_range,
  if◌then◌else◌,
}
use cs.Nush.Svec.{Str, str_eq, Slot, null, text, Svec, svec_length, svec_get, strcmp_slot}
use cs.Nush.Tokens.{tokenize}
use cs.Nush.Astree.{Astree, null, cmd, node, parse}

-- The places of its ancestors and of itself among their siblings.
abbrev pub Pid : Type 0
Pid = List ℕ

-- How a process ends.
pub data Status : Type 0 where
  exited : ℤ → Status
  crashed : Fault → Status

-- `WEXITSTATUS(status)`: the low byte of the exit status, and 0 after a signal.
unfoldable pub wexitstatus : Status → ℕ
wexitstatus (exited (pos n)) = n % 256
wexitstatus (exited (negsuc n)) = 255 - n % 256
wexitstatus (crashed why) = 0

pub data Proc : Type 0 where
  exit : ℤ → Proc
  abort : Fault → Proc
  chdir : Slot → (ℤ → Proc) → Proc
  execvp : Slot → List Slot → Proc → Proc
  open_reading open_writing : Slot → (ℤ → Proc) → Proc
  close dup : ℤ → Proc → Proc
  pipe : (ℤ → ℤ → Proc) → Proc
  fork : Proc → (Pid → Proc) → Proc
  waitpid : Pid → (Option Status → Proc) → Proc

-- A function that returns an `int`, by what follows it.
abbrev pub Code : Type 0
Code = (ℤ → Proc) → Proc

-- The `#define`s; `unknown` is 0.
pub data Op : Type 0 where
  unknown semicolon background or and piped rdr_in rdr_out : Op

abbrev pub attempt : {A : Type 0} → Outcome A → (A → Proc) → Proc
attempt (ret x) next = next x
attempt (fault why) next = abort why

abbrev pub cd : Str
cd = b'c' ∷ b'd' ∷ []

abbrev pub exit_word : Str
exit_word = b'e' ∷ b'x' ∷ b'i' ∷ b't' ∷ []

-- The argument array of the child.
unfoldable pub argv : Svec → Outcome (List Slot)
argv sv = do
  args ← for_range (svec_length sv) 0 (λ ii args. svec_get sv ii >>= λ s. ret (args ++ (s ∷ []))) []
  ret (args ++ (null ∷ []))

-- `waitpid(cpid, &status, 0); return WEXITSTATUS(status);`
unfoldable pub exit_status_of : Pid → Code
exit_status_of cpid k =
    waitpid cpid
      λ status. elim status [ none ↦ abort uninitialised | some s ↦ k (pos (wexitstatus s)) ]

unfoldable pub exec_child : Svec → Proc
unfolding argv
exec_child sv =
    attempt (argv sv) λ args. attempt (svec_get sv 0) λ file. execvp file args (exit (pos 1))

unfoldable pub execute_cmd : Svec → Code
unfolding exec_child exit_status_of
execute_cmd sv k = attempt (svec_get sv 0) λ input. attempt (strcmp_slot input cd) λ is_cd.
    if is_cd
    then attempt (svec_get sv 1) (λ directory. chdir directory k)
    else attempt (strcmp_slot input exit_word) λ is_exit.
      if is_exit then exit (pos 0) else fork (exec_child sv) (λ cpid. exit_status_of cpid k)

unfoldable pub semicolon_cmd : Code → Astree → Code → Code
semicolon_cmd execute1 null execute2 k = execute1 k
semicolon_cmd execute1 (cmd sv) execute2 k = execute1 λ first_cmd. execute2 k
semicolon_cmd execute1 (node op b1 b2) execute2 k = execute1 λ first_cmd. execute2 k

unfoldable pub background_cmd : Code → Astree → Code → Code
background_cmd execute1 null execute2 k = fork (execute1 λ _. exit (pos 0)) (λ cpid. k (pos 0))
background_cmd execute1 (cmd sv) execute2 k = fork (execute1 λ _. exit (pos 0)) (λ cpid. execute2 k)
background_cmd execute1 (node op b1 b2) execute2 k =
    fork (execute1 λ _. exit (pos 0)) (λ cpid. execute2 k)

unfoldable pub is_int : ℤ → ℕ → Bool
is_int (pos n) m = n == m
is_int (negsuc n) m = false

unfoldable pub or_cmd : Code → Code → Code
unfolding is_int
or_cmd execute1 execute2 k =
    execute1 λ first_cmd. if is_int first_cmd 1 then execute2 k else k first_cmd

unfoldable pub and_cmd : Code → Code → Code
unfolding is_int
and_cmd execute1 execute2 k =
    execute1 λ first_cmd. if is_int first_cmd 0 then execute2 k else k first_cmd

-- Child 2 runs the first branch, its parent the second.
unfoldable pub pipe_child : Code → Code → Proc
pipe_child execute1 execute2 = pipe λ reading_fd writing_fd.
    fork (close reading_fd (close (pos 1) (dup writing_fd (close writing_fd (execute1 exit)))))
      λ cpid2. close writing_fd (
        close (pos 0) (
          dup reading_fd
            (close reading_fd (execute2 λ exit_branch2. waitpid cpid2 λ _. exit exit_branch2))))

unfoldable pub pipe_cmd : Code → Code → Code
unfolding pipe_child exit_status_of
pipe_cmd execute1 execute2 k = fork (pipe_child execute1 execute2) (λ cpid1. exit_status_of cpid1 k)

-- `svec_get(ast->branch2->cmd, 0)`
unfoldable pub path_of : Astree → Outcome Slot
path_of null = fault null_pointer
path_of (cmd sv) = svec_get sv 0
path_of (node op b1 b2) = fault null_pointer

unfoldable pub rdr_in_cmd : Code → Astree → Code
unfolding path_of exit_status_of
rdr_in_cmd execute1 b2 k =
    fork
      (attempt (path_of b2)
        λ path. open_reading path λ fd. close (pos 0) (dup fd (close fd (execute1 exit))))
      (λ cpid. exit_status_of cpid k)

-- The child returns 0 to the caller.
unfoldable pub rdr_out_cmd : Code → Astree → Code
unfolding path_of exit_status_of
rdr_out_cmd execute1 b2 k =
    fork
      (attempt (path_of b2)
        λ path. open_writing path λ fd. close (pos 1) (dup fd (close fd (execute1 λ _. k (pos 0)))))
      (λ cpid. exit_status_of cpid k)

-- The chain of `strcmp` in `execute`.
unfoldable pub op_code : Str → Op
op_code op =
    if str_eq op (b';' ∷ [])
    then semicolon
    else (if str_eq op (b'&' ∷ [])
        then background
        else (if str_eq op (b'|' ∷ b'|' ∷ [])
            then or
            else (if str_eq op (b'&' ∷ b'&' ∷ [])
                then and
                else (if str_eq op (b'|' ∷ [])
                    then piped
                    else (if str_eq op (b'<' ∷ [])
                        then rdr_in
                        else (if str_eq op (b'>' ∷ []) then rdr_out else unknown))))))

unfoldable pub run : Op → Code → Astree → Code → Code
unfolding semicolon_cmd background_cmd or_cmd and_cmd pipe_cmd rdr_in_cmd rdr_out_cmd
run semicolon execute1 b2 execute2 k = semicolon_cmd execute1 b2 execute2 k
run background execute1 b2 execute2 k = background_cmd execute1 b2 execute2 k
run or execute1 b2 execute2 k = or_cmd execute1 execute2 k
run and execute1 b2 execute2 k = and_cmd execute1 execute2 k
run piped execute1 b2 execute2 k = pipe_cmd execute1 execute2 k
run rdr_in execute1 b2 execute2 k = rdr_in_cmd execute1 b2 k
run rdr_out execute1 b2 execute2 k = rdr_out_cmd execute1 b2 k
run unknown execute1 b2 execute2 k = k (pos 1)

unfoldable pub execute : Astree → Code
unfolding execute_cmd op_code run
execute null k = k (pos 0)
execute (cmd sv) k = execute_cmd sv k
execute (node op b1 b2) k = run (op_code op) (execute b1) b2 (execute b2) k

-- One line, and then the next round of the loop of `main`.
unfoldable pub main_helper : Str → Proc → Proc
unfolding tokenize parse execute
main_helper line next = attempt (tokenize line >>= parse) λ parsed. execute parsed λ _. next

-- What `fgets` reads from a terminal or a pipe that no other program reads, in order; at the end of the input it gives NULL. The
-- input is not a file, whose offset a child that calls `exit` would move back.
unfoldable pub main_loop : List Str → Proc
unfolding main_helper
main_loop [] = exit (pos 0)
main_loop (line ∷ lines) = main_helper line (main_loop lines)
