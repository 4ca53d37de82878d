-- ===== src/Nush/Implement/Executed.antt =====
-- execute of chal1/challenge01/implement.c on the trees with no background command and no output file.
use cs.Base.{refl, List, ℤ, pos, if◌then◌else◌}
use cs.Nush.Astree.{Astree, null, cmd, node}
use cs.Nush.Implement.{
  Pid, Status, Proc, Code, Op, unknown, semicolon, background, or, and, piped, rdr_in, rdr_out,
  op_code, semicolon_cmd, or_cmd, and_cmd, is_int, run, execute,
}
use cs.Nush.Implement.Kernel.{Mark, visible, Runs}
use cs.Nush.Implement.Meaning.{Plain, PlainOp, Meaning, Means, MeansOp, When}
use cs.Nush.Implement.Splits.{Splits, First-Splits, When-Splits}
use cs.Nush.Implement.Children.{execute_cmd-Splits, rdr_in_cmd-Splits, pipe_cmd-Splits}

semicolon_cmd-Splits :
    (code1 code2 : Code) (m1 m2 : Meaning) (b2 : Astree)
    → Splits code1 m1
    → Splits code2 m2
    → Splits (semicolon_cmd code1 b2 code2) (MeansOp semicolon m1 b2 m2)
unfolding semicolon_cmd MeansOp
semicolon_cmd-Splits code1 code2 m1 m2 null s1 s2 = s1
semicolon_cmd-Splits code1 code2 m1 m2 (cmd sv) s1 s2 =
    First-Splits code1 m1 (λ _. code2) (λ _. m2) s1 (λ _. s2)
semicolon_cmd-Splits code1 code2 m1 m2 (node op b1 b2) s1 s2 =
    First-Splits code1 m1 (λ _. code2) (λ _. m2) s1 (λ _. s2)

run-Splits :
    (op : Op) (code1 code2 : Code) (m1 m2 : Meaning) (b2 : Astree) (p1 p2 : Type 0)
    → (p1 → Splits code1 m1)
    → (p2 → Splits code2 m2)
    → PlainOp op p1 b2 p2
    → Splits (run op code1 b2 code2) (MeansOp op m1 b2 m2)
unfolding run MeansOp PlainOp or_cmd and_cmd
run-Splits semicolon code1 code2 m1 m2 b2 p1 p2 s1 s2 (h1, h2) =
    semicolon_cmd-Splits code1 code2 m1 m2 b2 (s1 h1) (s2 h2)
run-Splits or code1 code2 m1 m2 b2 p1 p2 s1 s2 (h1, h2) =
    First-Splits code1 m1 (λ v1 k. if is_int v1 1 then code2 k else k v1) (When 1 m2) (s1 h1)
      (λ v1. When-Splits 1 code2 m2 v1 (s2 h2))
run-Splits and code1 code2 m1 m2 b2 p1 p2 s1 s2 (h1, h2) =
    First-Splits code1 m1 (λ v1 k. if is_int v1 0 then code2 k else k v1) (When 0 m2) (s1 h1)
      (λ v1. When-Splits 0 code2 m2 v1 (s2 h2))
run-Splits piped code1 code2 m1 m2 b2 p1 p2 s1 s2 (h1, h2) =
    pipe_cmd-Splits code1 code2 m1 m2 (s1 h1) (s2 h2)
run-Splits rdr_in code1 code2 m1 m2 b2 p1 p2 s1 s2 (h1, (path, file)) =
    rdr_in_cmd-Splits code1 m1 b2 path file (s1 h1)
run-Splits unknown code1 code2 m1 m2 b2 p1 p2 s1 s2 h =
    λ self kids k t e run. (pos 1, kids, t, (refl, refl), run)
run-Splits background code1 code2 m1 m2 b2 p1 p2 s1 s2 h = elim h [ ]
run-Splits rdr_out code1 code2 m1 m2 b2 p1 p2 s1 s2 h = elim h [ ]

pub execute-Splits : (ast : Astree) → Plain ast → Splits (execute ast) (Means ast)
unfolding execute Means Plain
execute-Splits null h = λ self kids k t e run. (pos 0, kids, t, (refl, refl), run)
execute-Splits (cmd sv) h = λ self kids k t e run.
    let (v, kids', t', means, rest) = execute_cmd-Splits sv h self kids k t e run in
    (v, kids', t', (h, means), rest)
execute-Splits (node op b1 b2) h =
    run-Splits (op_code op) (execute b1) (execute b2) (Means b1) (Means b2) b2 (Plain b1) (Plain b2)
      (execute-Splits b1) (execute-Splits b2) h

-- Any run of `execute` on a plain tree is a run of what the tree means, seen in this order and with this status, and
-- then a run of what follows `execute`, given that status.
pub execute-Means :
    (ast : Astree) (self : Pid) (kids : List (Pid × Status)) (k : ℤ → Proc) (t : List Mark)
    (e : Status)
    → Plain ast
    → Runs self kids (execute ast k) t e
    → (v : ℤ) × (kids' : List (Pid × Status)) × (t' : List Mark) × Means ast v
        (visible t)
        (visible t')
      × Runs self kids' (k v) t' e
execute-Means ast self kids k t e h = execute-Splits ast h self kids k t e
