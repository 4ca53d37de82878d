-- ===== src/Nush/Implement/Script.antt =====
-- The loop over the lines of chal1/challenge01/nush.c.
use cs.Base.{ret, ◌≡◌, ap, subst, List, [], ◌∷◌, ℤ, pos, All, ◌>>=◌}
use cs.Nush.Svec.{Str}
use cs.Nush.Tokens.{tokenize}
use cs.Nush.Astree.{Astree, parse}
use cs.Nush.Implement.{Pid, Status, exited, execute, attempt, main_loop, main_helper}
use cs.Nush.Implement.Kernel.{Event, Mark, visible, Runs}
use cs.Nush.Implement.Meaning.{Plain, Means}
use cs.Nush.Implement.Executed.{execute-Means}

-- The lines are read as trees, which run one after the other.
unfoldable pub Script : List Str → List Event → Type 0
Script [] t = t ≡ []
Script (line ∷ lines) t =
    (ast : Astree) × (v : ℤ) × (rest : List Event) × ((tokenize line >>= parse) ≡ ret ast)
    × Means ast v t rest
    × Script lines rest

-- A line whose words make a plain tree.
abbrev pub PlainLine : Str → Type 0
PlainLine line = (ast : Astree) × ((tokenize line >>= parse) ≡ ret ast) × Plain ast

-- On lines that are read as plain trees, from a terminal or a pipe that no other program reads, any run of the loop ends with status 0 and shows what the lines mean, in order.
pub main_loop-Script :
    (lines : List Str) (self : Pid) (kids : List (Pid × Status)) (t : List Mark) (e : Status)
    → All PlainLine lines
    → Runs self kids (main_loop lines) t e
    → (e ≡ exited (pos 0)) × Script lines (visible t)
unfolding Runs main_loop main_helper Script visible
main_loop-Script [] self kids t e plain (et, ended) = (ended, ap visible et)
main_loop-Script (line ∷ lines) self kids t e ((ast, parsed, plain), later) h =
    let h' =
      subst (λ m. Runs self kids (attempt m λ tree. execute tree λ _. main_loop lines) t e) parsed
        h in
    let (v, kids', t', means, rest) =
      execute-Means ast self kids (λ _. main_loop lines) t e plain h' in
    let (ended, script) = main_loop-Script lines self kids' t' e later rest in
    (ended, (ast, v, visible t', parsed, means, script))
