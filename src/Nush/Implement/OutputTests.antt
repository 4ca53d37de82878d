-- ===== src/Nush/Implement/OutputTests.antt =====
-- Tests for chal1/challenge01/implement.c and nush.c: a script of one line, and a into a file or in the background.
use cs.Base.{
  ap, ℕ, suc, arith, inr, ret, ◌≡◌, refl, sym, subst, List, [], ◌∷◌, ◌++◌, none, some, inl, ℤ, pos,
  length, All, drop, uninitialised, store, ◌>>=◌, codes, read, for_range,
}
use cs.Nush.Svec.{
  svec_push_back, make_svec, svec_index_of, sub_svec, svec_clone, svec_length, Str, text, str_eq,
  svec_get, strcmp_slot,
}
use cs.Nush.Tokens.{add_op, add_token, is_op, is_word, isspace, tokenize}
use cs.Nush.Astree.{make_cmd, make_op, parse_ops, Astree, cmd, node, parse}
use cs.Nush.Implement.Possible.{NoPipes}
use cs.Nush.Implement.Reap.{NoWait, NoWait, find_child_newest, Interleave}
use cs.Nush.Implement.{
  svec_length, Pid, Status, exited, Proc, exit, abort, wexitstatus, op_code, argv, path_of,
  exit_status_of, exec_child, execute_cmd, rdr_out_cmd, run, execute, attempt, main_loop,
  main_helper,
}
use cs.Nush.Implement.Kernel.{
  not_run, Event, Mark, event, reaped, visible, Runs, Merge, ran, not_run, opened_writing, closed,
  copied, find_child,
}
use cs.Nush.Implement.Meaning.{Plain, Means, Command, runs}
use cs.Nush.Implement.Script.{Script, PlainLine, main_loop-Script}
use cs.Nush.Implement.Output.{rdr_out_cmd-twice, background_cmd-Interleave}
use cs.Nush.Implement.Tests.{word, args, word_a-Ready}

Merge-refl : (n : Pid) (t : List Mark) → Merge n [] t t
unfolding Merge
Merge-refl n [] = refl
Merge-refl n (x ∷ t) = ([], [], t, refl, refl, λ _. refl, Merge-refl n t)

-- a is found and ends with 0.
word_a-Runs :
    (self : Pid) (kids : List (Pid × Status)) (k : ℤ → Proc) (t : List Mark) (e : Status)
    → Runs self ((length kids ∷ self, exited (pos 0)) ∷ kids) (k (pos 0)) t e
    → Runs self kids
        (execute (cmd (word (codes "a"))) k)
        (event (ran (args (codes "a")) (exited (pos 0))) ∷ reaped (length kids ∷ self) ∷ t)
        e
unfolding Runs execute execute_cmd str_eq svec_get read strcmp_slot exec_child argv for_range
    svec_length exit_status_of wexitstatus Merge visible
word_a-Runs self kids k t e rest =
    let n = length kids ∷ self in
    let done : Status = exited (pos 0) in
    let shown = ran (args (codes "a")) done in
    (
      event shown ∷ [],
      done,
      reaped n ∷ t,
      inl refl,
      (
        t,
        refl,
        subst
            (λ s.
              Runs self ((n, done) ∷ kids)
                (elim s [ none ↦ abort uninitialised | some s ↦ k (pos (wexitstatus s)) ]) t e)
            (sym (find_child_newest n done kids)) rest,
      ),
      (shown ∷ [], [], t, refl, refl, λ _. refl, Merge-refl n t),
    )

abbrev lines : List Str
lines = codes "a" ∷ []

abbrev once : List Mark
once = event (ran (args (codes "a")) (exited (pos 0))) ∷ reaped (0 ∷ []) ∷ []

lines-parse : (tokenize (codes "a") >>= parse) ≡ ret (cmd (word (codes "a")))
unfolding tokenize add_op add_token is_op isspace is_word svec_push_back make_svec read store parse
    parse_ops svec_index_of sub_svec svec_get svec_length make_cmd make_op str_eq for_range
    svec_clone
lines-parse = refl

lines-PlainLine : All PlainLine lines
unfolding Plain
lines-PlainLine = ((cmd (word (codes "a")), lines-parse, word_a-Ready), tt)

lines-Runs : Runs [] [] (main_loop lines) once (exited (pos 0))
unfolding main_loop main_helper Runs
lines-Runs =
    subst (λ m. Runs [] [] (attempt m λ tree. execute tree λ _. exit (pos 0)) once (exited (pos 0)))
      (sym lines-parse) (word_a-Runs [] [] (λ _. exit (pos 0)) [] (exited (pos 0)) (refl, refl))

main_loop-Script_example : (exited (pos 0) ≡ exited (pos 0)) × Script lines (visible once)
main_loop-Script_example =
    main_loop-Script lines [] [] once (exited (pos 0)) lines-PlainLine lines-Runs

abbrev to_file : Astree
to_file = node (codes ">") (cmd (word (codes "a"))) (cmd (word (codes "b")))

abbrev written : List Mark
written =
    event (opened_writing (text (codes "b")) (pos 3))
    ∷ event (closed (pos 1))
    ∷ event (copied (pos 3))
    ∷ event (closed (pos 3))
    ∷ event (ran (args (codes "a")) (exited (pos 0)))
    ∷ []

to_file-Runs : Runs [] [] (execute to_file exit) (written ++ reaped (0 ∷ []) ∷ []) (exited (pos 0))
unfolding Runs execute op_code str_eq run rdr_out_cmd path_of svec_get read visible Merge
    exit_status_of find_child wexitstatus
to_file-Runs = (
  written ++ reaped (0 ∷ 0 ∷ []) ∷ [],
  exited (pos 0),
  reaped (0 ∷ []) ∷ [],
  (
    pos 3,
    drop 1 written ++ reaped (0 ∷ 0 ∷ []) ∷ [],
    refl,
    (
      drop 2 written ++ reaped (0 ∷ 0 ∷ []) ∷ [],
      refl,
      (
        drop 3 written ++ reaped (0 ∷ 0 ∷ []) ∷ [],
        refl,
        (
          drop 4 written ++ reaped (0 ∷ 0 ∷ []) ∷ [],
          refl,
          word_a-Runs (0 ∷ []) [] (λ _. exit (pos 0)) [] (exited (pos 0)) (refl, refl),
        ),
      ),
    ),
  ),
  ([], refl, (refl, refl)),
  (visible written, [], [], refl, refl, λ _. refl, refl),
)

rdr_out_cmd-twice_example :
    (fd : ℤ) × (v1 : ℤ) × (seen : List Event) × (kids1 : List (Pid × Status)) × (t1 : List Mark)
    × (ec : Status) × (t' : List Mark) × (visible (written ++ reaped (0 ∷ []) ∷ [])
        ≡ opened_writing (text (codes "b")) fd
          ∷ closed (pos 1)
          ∷ copied fd
          ∷ closed fd
          ∷ (seen ++ visible t'))
    × Means (cmd (word (codes "a"))) v1 seen (visible t1)
    × Runs (0 ∷ []) kids1 (exit (pos 0)) t1 ec
    × Runs [] ((0 ∷ [], ec) ∷ []) (exit (pos (wexitstatus ec))) t' (exited (pos 0))
unfolding Plain path_of svec_get read
rdr_out_cmd-twice_example =
    rdr_out_cmd-twice (cmd (word (codes "a"))) (cmd (word (codes "b"))) (text (codes "b")) [] []
      exit (written ++ reaped (0 ∷ []) ∷ []) (exited (pos 0)) word_a-Ready refl to_file-Runs

-- `a & a`
abbrev behind : Astree
behind = node (codes "&") (cmd (word (codes "a"))) (cmd (word (codes "a")))

-- What the second a leaves.
abbrev second : List Mark
second = event (ran (args (codes "a")) (exited (pos 0))) ∷ reaped (1 ∷ []) ∷ []

abbrev failed : Event
failed = not_run (args (codes "a"))

-- The place of the child whose end is seen, from 1 on.
abbrev place : Mark → ℕ
place (event x) = 0
place (reaped []) = 0
place (reaped (i ∷ above)) = suc i

second-NoWait : NoWait (0 ∷ []) second
unfolding NoWait
second-NoWait = (
  λ e. let z : 0 ≡ 1 = ap place e in absurd (omega (arith, z)),
  (λ e. let z : 2 ≡ 1 = ap place e in absurd (omega (arith, z)), tt),
)

-- The second a runs before the first, which is not found.
background_cmd-Interleave_example :
    (t : List Mark) × (visible t ≡ ran (args (codes "a")) (exited (pos 0)) ∷ failed ∷ [])
    × Runs [] [] (execute behind exit) t (exited (pos 0))
unfolding NoPipes Means Command Interleave visible wexitstatus svec_get read argv for_range
    svec_length str_eq Runs
background_cmd-Interleave_example =
    background_cmd-Interleave (cmd (word (codes "a"))) (cmd (word (codes "a"))) [] [] exit (pos 1)
      (failed ∷ []) (ran (args (codes "a")) (exited (pos 0)) ∷ failed ∷ []) second (exited (pos 0))
      tt (runs (codes "a") (args (codes "a")) refl refl refl refl, inr (refl, refl))
      (word_a-Runs [] ((0 ∷ [], exited (pos 0)) ∷ []) exit [] (exited (pos 0)) (refl, refl))
      second-NoWait ([], failed ∷ [], failed ∷ [], refl, refl, refl)
