-- ===== src/Nush/Implement/Able.antt =====
-- What processes of chal1/challenge01/implement.c can show, handler by handler.
use cs.Base.{
  ret, append-nil, ℕ, ◌≡◌, refl, sym, ◌∙◌, ap, ap₂, subst, List, [], ◌∷◌, ◌++◌, map, none, some,
  inl, inr, ℤ, pos, if◌then◌else◌, length, uninitialised,
}
use cs.Nush.Svec.{Slot, text, Svec, svec_get}
use cs.Nush.Astree.{Astree}
use cs.Nush.Implement.{
  Pid, Status, exited, Proc, exit, fork, abort, wexitstatus, Code, argv, path_of, exit_status_of,
  exec_child, execute_cmd, rdr_in_cmd, is_int, run, attempt, close, dup, open_reading, chdir,
}
use cs.Nush.Implement.Kernel.{
  Event, Mark, event, reaped, visible, Runs, Merge, moved, ran, not_run, opened_reading, closed,
  copied,
}
use cs.Nush.Implement.Meaning.{Ready, moves, runs, Command, Meaning, First, When, Redirected}
use cs.Nush.Implement.Reap.{find_child_newest, visible-append, visible-map}
use cs.Nush.Implement.Splits.{is_int-cases}
use cs.Nush.Implement.Children.{attempt-ret, exec_child-execvp, execute_cmd-chdir, execute_cmd-fork}

-- A process, whatever its children, can show `u` and end with `e`.
abbrev pub Can : Proc → List Event → Status → Type 0
Can p u e =
    (self : Pid) (kids : List (Pid × Status))
    → (t : List Mark) × (visible t ≡ u) × Runs self kids p t e

abbrev pub Reaches : Code → Meaning → Type 0
Reaches code m =
    (k : ℤ → Proc) (v : ℤ) (t u : List Event) (e : Status)
    → m v t u
    → Can (k v) u e
    → Can (code k) t e

Merge-first : (n : Pid) (t : List Mark) → Merge n [] t t
unfolding Merge
Merge-first n [] = refl
Merge-first n (x ∷ t) = ([], [], t, refl, refl, λ _. refl, Merge-first n t)

Can-step :
    (x : Event) (p q : Proc) (u : List Event) (e : Status)
    → ((self : Pid) (kids : List (Pid × Status)) (t : List Mark)
        → Runs self kids q t e
        → Runs self kids p (event x ∷ t) e)
    → Can q u e
    → Can p (x ∷ u) e
unfolding visible
Can-step x p q u e step can self kids =
    let (t, seen, run) = can self kids in (event x ∷ t, ap (λ r. x ∷ r) seen, step self kids t run)

-- The child runs first, and then its parent.
Can-reaped :
    (child : Proc) (k : ℤ → Proc) (c u : List Event) (ec e : Status)
    → Can child c ec
    → Can (k (pos (wexitstatus ec))) u e
    → Can (fork child λ cpid. exit_status_of cpid k) (c ++ u) e
unfolding Runs exit_status_of Merge visible
Can-reaped child k c u ec e can can' self kids =
    let n = length kids ∷ self in
    let (tc, seen, run) = can n [] in
    let (t, seen', run') = can' self ((n, ec) ∷ kids) in
    (
      map event (visible tc) ++ (reaped n ∷ t),
      visible-append (map event (visible tc)) (reaped n ∷ t)
          ∙ ap₂ (λ a b. a ++ b) (visible-map (visible tc) ∙ seen) seen',
      (
        tc,
        ec,
        reaped n ∷ t,
        run,
        (
          t,
          refl,
          subst
              (λ s.
                Runs self ((n, ec) ∷ kids)
                  (elim s [ none ↦ abort uninitialised | some s ↦ k (pos (wexitstatus s)) ]) t e)
              (sym (find_child_newest n ec kids)) run',
        ),
        (visible tc, [], t, sym (append-nil (visible tc)), refl, λ _. refl, Merge-first n t),
      ),
    )

Can-exit : (v : ℤ) → Can (exit v) [] (exited v)
unfolding Runs visible
Can-exit v self kids = ([], refl, (refl, refl))

pub First-Reaches :
    (code1 : Code) (m1 : Meaning) (code2 : ℤ → Code) (m2 : ℤ → Meaning)
    → Reaches code1 m1
    → ((v1 : ℤ) → Reaches (code2 v1) (m2 v1))
    → Reaches (λ k. code1 λ v1. code2 v1 k) (First m1 m2)
First-Reaches code1 m1 code2 m2 r1 r2 k v t u e (v1, mid, means1, means2) can =
    r1 (λ v1. code2 v1 k) v1 t mid e means1 (r2 v1 k v mid u e means2 can)

pub When-Reaches :
    (s : ℕ) (code2 : Code) (m2 : Meaning) (v1 : ℤ)
    → Reaches code2 m2
    → Reaches (λ k. if is_int v1 s then code2 k else k v1) (When s m2 v1)
When-Reaches s code2 m2 v1 r2 k v t u e means can = elim (is_int-cases v1 s) [
  | inl (test, same) ↦ rw test (elim means [
    | inl (_, means2) ↦ r2 k v t u e means2 can
    | inr (other, _, _) ↦ absurd (other same)
  ])
  | inr (test, other) ↦ rw test (elim means [
    | inl (same, _) ↦ absurd (other same)
    | inr (_, stays, shown) ↦
        subst (λ w. Can (k w) t e) stays (subst (λ r. Can (k v) r e) (sym shown) can)
  ])
]

-- The two ways in which a program starts: it is found, or not.
exec_child-found :
    (sv : Svec) (name : Slot) (args : List Slot) (s : Status)
    → svec_get sv 0 ≡ ret name
    → argv sv ≡ ret args
    → Can (exec_child sv) (ran args s ∷ []) s
unfolding Runs visible
exec_child-found sv name args s file list =
    subst (λ p. Can p (ran args s ∷ []) s) (sym (exec_child-execvp sv name args file list))
      λ self kids. (event (ran args s) ∷ [], refl, inl refl)

exec_child-missing :
    (sv : Svec) (name : Slot) (args : List Slot)
    → svec_get sv 0 ≡ ret name
    → argv sv ≡ ret args
    → Can (exec_child sv) (not_run args ∷ []) (exited (pos 1))
unfolding Runs visible
exec_child-missing sv name args file list =
    subst (λ p. Can p (not_run args ∷ []) (exited (pos 1)))
      (sym (exec_child-execvp sv name args file list))
      λ self kids. (event (not_run args) ∷ [], refl, inr ([], refl, (refl, refl)))

-- A child whose status is the value of the code.
forked-Can :
    (child : Proc) (k : ℤ → Proc) (v : ℤ) (c t u : List Event) (ec e : Status)
    → Can child c ec
    → v ≡ pos (wexitstatus ec)
    → t ≡ c ++ u
    → Can (k v) u e
    → Can (fork child λ cpid. exit_status_of cpid k) t e
forked-Can child k v c t u ec e kid value shown can =
    subst (λ r. Can (fork child λ cpid. exit_status_of cpid k) r e) (sym shown)
      (Can-reaped child k c u ec e kid (subst (λ w. Can (k w) u e) value can))

pub execute_cmd-Reaches : (sv : Svec) (r : Ready sv) → Reaches (execute_cmd sv) (Command r)
unfolding Command Runs wexitstatus
execute_cmd-Reaches sv (moves dir first second) k v t u e (what, shown) can =
    subst (λ p. Can p t e) (sym (execute_cmd-chdir sv dir k first second))
      (subst (λ r. Can (chdir dir k) r e) (sym shown)
        (Can-step (moved dir v) (chdir dir k) (k v) u e
          (λ self kids t' run. (v, t', what, refl, run)) can))
execute_cmd-Reaches sv (runs name args first other stays list) k v t u e means can =
    subst (λ p. Can p t e) (sym (execute_cmd-fork sv name k first other stays))
      (elim means [
        | inl (s, value, shown) ↦
            forked-Can (exec_child sv) k v (ran args s ∷ []) t u s e
              (exec_child-found sv (text name) args s first list) value shown can
        | inr (value, shown) ↦
            forked-Can (exec_child sv) k v (not_run args ∷ []) t u (exited (pos 1)) e
              (exec_child-missing sv (text name) args first list) value shown can
      ])

pub rdr_in_cmd-Reaches :
    (code1 : Code) (m1 : Meaning) (b2 : Astree)
    → Reaches code1 m1
    → Reaches (rdr_in_cmd code1 b2) (Redirected (path_of b2) m1)
unfolding rdr_in_cmd Runs
rdr_in_cmd-Reaches code1 m1 b2 r1 k v t u e (path, fd, v1, seen, file, means, value, shown) can =
    let last : Proc = code1 exit in
    let wired : Proc = close (pos 0) (dup fd (close fd last)) in
    let body : Slot → Proc =
      λ path. open_reading path λ fd. close (pos 0) (dup fd (close fd (code1 exit))) in
    let done : Status = exited v1 in
    let c4 : Can last seen done = r1 exit v1 seen [] done means (Can-exit v1) in
    let c3 =
      Can-step (closed fd) (close fd last) last seen done (λ self kids t run. (t, refl, run)) c4 in
    let c2 =
      Can-step (copied fd) (dup fd (close fd last)) (close fd last) (closed fd ∷ seen) done
        (λ self kids t run. (t, refl, run)) c3 in
    let c1 =
      Can-step (closed (pos 0)) wired (dup fd (close fd last)) (copied fd ∷ closed fd ∷ seen) done
        (λ self kids t run. (t, refl, run)) c2 in
    let c0 =
      Can-step (opened_reading path fd) (body path) wired
        (closed (pos 0) ∷ copied fd ∷ closed fd ∷ seen) done (λ self kids t run. (fd, t, refl, run))
        c1 in
    let all : List Event = opened_reading path fd ∷ closed (pos 0) ∷ copied fd ∷ closed fd ∷ seen in
    let kid = subst (λ p. Can p all done) (sym (attempt-ret (path_of b2) path body file)) c0 in
    forked-Can (attempt (path_of b2) body) k v all t u done e kid value shown can
