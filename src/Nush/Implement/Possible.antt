-- ===== src/Nush/Implement/Possible.antt =====
-- The converse of Executed, for chal1/challenge01/implement.c: what a tree with no pipe means can happen.
use cs.Base.{◌≡◌, ◌≢◌, refl, sym, subst, List, ℤ, if◌then◌else◌}
use cs.Nush.Astree.{Astree, null, cmd, node}
use cs.Nush.Implement.{
  Pid, Status, Proc, Code, Op, unknown, semicolon, background, or, and, piped, rdr_in, rdr_out,
  op_code, semicolon_cmd, or_cmd, and_cmd, is_int, run, execute,
}
use cs.Nush.Implement.Kernel.{Event, Mark, visible, Runs}
use cs.Nush.Implement.Meaning.{Meaning, Means, MeansOp, When}
use cs.Nush.Implement.Able.{
  Can, Reaches, First-Reaches, When-Reaches, execute_cmd-Reaches, rdr_in_cmd-Reaches,
}

semicolon_cmd-Reaches :
    (code1 code2 : Code) (m1 m2 : Meaning) (b2 : Astree)
    → Reaches code1 m1
    → Reaches code2 m2
    → Reaches (semicolon_cmd code1 b2 code2) (MeansOp semicolon m1 b2 m2)
unfolding semicolon_cmd MeansOp
semicolon_cmd-Reaches code1 code2 m1 m2 null r1 r2 = r1
semicolon_cmd-Reaches code1 code2 m1 m2 (cmd sv) r1 r2 =
    First-Reaches code1 m1 (λ _. code2) (λ _. m2) r1 (λ _. r2)
semicolon_cmd-Reaches code1 code2 m1 m2 (node op b1 b2) r1 r2 =
    First-Reaches code1 m1 (λ _. code2) (λ _. m2) r1 (λ _. r2)

run-Reaches :
    (op : Op) (code1 code2 : Code) (m1 m2 : Meaning) (b2 : Astree)
    → op ≢ piped
    → Reaches code1 m1
    → Reaches code2 m2
    → Reaches (run op code1 b2 code2) (MeansOp op m1 b2 m2)
unfolding run MeansOp or_cmd and_cmd
run-Reaches semicolon code1 code2 m1 m2 b2 h r1 r2 =
    semicolon_cmd-Reaches code1 code2 m1 m2 b2 r1 r2
run-Reaches or code1 code2 m1 m2 b2 h r1 r2 =
    First-Reaches code1 m1 (λ v1 k. if is_int v1 1 then code2 k else k v1) (When 1 m2) r1
      (λ v1. When-Reaches 1 code2 m2 v1 r2)
run-Reaches and code1 code2 m1 m2 b2 h r1 r2 =
    First-Reaches code1 m1 (λ v1 k. if is_int v1 0 then code2 k else k v1) (When 0 m2) r1
      (λ v1. When-Reaches 0 code2 m2 v1 r2)
run-Reaches piped code1 code2 m1 m2 b2 h r1 r2 = absurd (h refl)
run-Reaches rdr_in code1 code2 m1 m2 b2 h r1 r2 = rdr_in_cmd-Reaches code1 m1 b2 r1
run-Reaches unknown code1 code2 m1 m2 b2 h r1 r2 = λ k v t u e means can.
    subst (λ w. Can (k w) t e) means.0 (subst (λ r. Can (k v) r e) (sym means.1) can)
run-Reaches background code1 code2 m1 m2 b2 h r1 r2 = λ k v t u e means can. absurd means
run-Reaches rdr_out code1 code2 m1 m2 b2 h r1 r2 = λ k v t u e means can. absurd means

unfoldable pub NoPipes : Astree → Type 0
NoPipes null = Unit
NoPipes (cmd sv) = Unit
NoPipes (node op b1 b2) = (op_code op ≢ piped) × NoPipes b1 × NoPipes b2

execute-Reaches : (ast : Astree) → NoPipes ast → Reaches (execute ast) (Means ast)
unfolding execute Means NoPipes
execute-Reaches null h k v t u e means can =
    subst (λ w. Can (k w) t e) means.0 (subst (λ r. Can (k v) r e) (sym means.1) can)
execute-Reaches (cmd sv) h k v t u e (r, means) can = execute_cmd-Reaches sv r k v t u e means can
execute-Reaches (node op b1 b2) (h, h1, h2) k v t u e means can =
    run-Reaches (op_code op) (execute b1) (execute b2) (Means b1) (Means b2) b2 h
      (execute-Reaches b1 h1) (execute-Reaches b2 h2) k v t u e means can

-- On a tree with no pipe, if the tree can mean the events `t` before `u` with the status `v`, and what follows `execute` can show `u`
-- in any process when it is given `v`, then `execute` with what follows it can show `t` in any process.
pub execute-possible :
    (ast : Astree) (k : ℤ → Proc) (v : ℤ) (t u : List Event) (e : Status)
    → NoPipes ast
    → Means ast v t u
    → ((self : Pid) (kids : List (Pid × Status))
        → (t' : List Mark) × (visible t' ≡ u) × Runs self kids (k v) t' e)
    → (self : Pid) (kids : List (Pid × Status))
    → (t' : List Mark) × (visible t' ≡ t) × Runs self kids (execute ast k) t' e
execute-possible ast k v t u e h means can = execute-Reaches ast h k v t u e means can
