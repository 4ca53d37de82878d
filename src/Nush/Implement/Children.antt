-- ===== src/Nush/Implement/Children.antt =====
-- The handlers of chal1/challenge01/implement.c that wait for a child.
use cs.Base.{
  Outcome, ret, ℕ, ◌≡◌, refl, sym, ◌∙◌, ap, subst, List, [], ◌∷◌, ◌++◌, false, inl, inr, ℤ, pos,
  if◌then◌else◌, length,
}
use cs.Nush.Svec.{Slot, text, Svec, str_eq, svec_get, strcmp_slot}
use cs.Nush.Astree.{Astree}
use cs.Nush.Implement.{
  Pid, Status, Proc, exit, fork, wexitstatus, Code, argv, path_of, cd, exit_word, exit_status_of,
  exec_child, execute_cmd, pipe_child, pipe_cmd, rdr_in_cmd, attempt, close, dup, open_reading,
  execvp, waitpid, chdir,
}
use cs.Nush.Implement.Kernel.{
  Event, Mark, event, visible, Runs, not_run, opened_reading, closed, copied,
}
use cs.Nush.Implement.Reap.{Interleave, Runs-reaped, visible-four, Merge-Interleave}
use cs.Nush.Implement.Meaning.{Ready, moves, runs, Command, Meaning, Connected, Redirected}
use cs.Nush.Implement.Splits.{Splits, Splits-exit}

pub attempt-ret :
    {A : Type 0} (m : Outcome A) (x : A) (next : A → Proc) → m ≡ ret x → attempt m next ≡ next x
attempt-ret m x next h = ap (λ r. attempt r next) h

pub exec_child-execvp :
    (sv : Svec) (name : Slot) (args : List Slot)
    → svec_get sv 0 ≡ ret name
    → argv sv ≡ ret args
    → exec_child sv ≡ execvp name args (exit (pos 1))
unfolding exec_child
exec_child-execvp sv name args file list =
    attempt-ret (argv sv) args
      (λ args. attempt (svec_get sv 0) λ file. execvp file args (exit (pos 1))) list
    ∙ attempt-ret (svec_get sv 0) name (λ file. execvp file args (exit (pos 1))) file

-- The test for cd, and then what execute_cmd does.
execute_cmd-test :
    (sv : Svec) (name : List ℕ) (k : ℤ → Proc)
    → svec_get sv 0 ≡ ret (text name)
    → execute_cmd sv k ≡ (
        if str_eq name cd
        then attempt (svec_get sv 1) (λ directory. chdir directory k)
        else (if str_eq name exit_word
            then exit (pos 0)
            else fork (exec_child sv) (λ cpid. exit_status_of cpid k)))
unfolding execute_cmd strcmp_slot
execute_cmd-test sv name k first =
    ap
      (λ r. attempt r λ input. attempt (strcmp_slot input cd) λ is_cd.
        if is_cd
        then attempt (svec_get sv 1) (λ directory. chdir directory k)
        else attempt (strcmp_slot input exit_word) λ is_exit.
          if is_exit then exit (pos 0) else fork (exec_child sv) (λ cpid. exit_status_of cpid k))
      first

pub execute_cmd-chdir :
    (sv : Svec) (dir : Slot) (k : ℤ → Proc)
    → svec_get sv 0 ≡ ret (text cd)
    → svec_get sv 1 ≡ ret dir
    → execute_cmd sv k ≡ chdir dir k
unfolding str_eq
execute_cmd-chdir sv dir k first second =
    execute_cmd-test sv cd k first
    ∙ attempt-ret (svec_get sv 1) dir (λ directory. chdir directory k) second

pub execute_cmd-fork :
    (sv : Svec) (name : List ℕ) (k : ℤ → Proc)
    → svec_get sv 0 ≡ ret (text name)
    → str_eq name cd ≡ false
    → str_eq name exit_word ≡ false
    → execute_cmd sv k ≡ fork (exec_child sv) (λ cpid. exit_status_of cpid k)
execute_cmd-fork sv name k first other stays =
    rw (execute_cmd-test sv name k first) (rw other (rw stays refl))

pub execute_cmd-Splits : (sv : Svec) (r : Ready sv) → Splits (execute_cmd sv) (Command r)
unfolding Runs visible Command wexitstatus
execute_cmd-Splits sv (moves dir first second) self kids k t e h =
    let (r, t', what, et, rest) =
      subst (λ p. Runs self kids p t e) (execute_cmd-chdir sv dir k first second) h in
    (r, kids, t', (what, ap visible et), rest)
execute_cmd-Splits sv (runs name args first other stays list) self kids k t e h =
    let n = length kids ∷ self in
    let h' = subst (λ p. Runs self kids p t e) (execute_cmd-fork sv name k first other stays) h in
    let (tc, ec, t', child, seen, rest) = Runs-reaped self kids (exec_child sv) k t e h' in
    let child' =
      subst (λ p. Runs n [] p tc ec) (exec_child-execvp sv (text name) args first list) child in
    elim child' [
      | inl et ↦ (
        pos (wexitstatus ec),
        (n, ec) ∷ kids,
        t',
        inl (ec, refl, seen ∙ ap (λ x. visible x ++ visible t') et),
        rest,
      )
      | inr (t2, et, (et', ended)) ↦ (
        pos (wexitstatus ec),
        (n, ec) ∷ kids,
        t',
        inr (
          ap (λ s. pos (wexitstatus s)) ended,
          seen ∙ ap (λ x. visible x ++ visible t') (et ∙ ap (λ x. event (not_run args) ∷ x) et'),
        ),
        rest,
      )
    ]

pub rdr_in_cmd-Splits :
    (code1 : Code) (m1 : Meaning) (b2 : Astree) (path : Slot)
    → path_of b2 ≡ ret path
    → Splits code1 m1
    → Splits (rdr_in_cmd code1 b2) (Redirected (path_of b2) m1)
unfolding rdr_in_cmd Runs visible
rdr_in_cmd-Splits code1 m1 b2 path file s1 self kids k t e h =
    let kid : Proc =
      attempt (path_of b2)
        λ path. open_reading path λ fd. close (pos 0) (dup fd (close fd (code1 exit))) in
    let (tc, ec, t', child, seen, rest) = Runs-reaped self kids kid k t e h in
    let body : Slot → Proc =
      λ path. open_reading path λ fd. close (pos 0) (dup fd (close fd (code1 exit))) in
    let child' =
      subst (λ p. Runs (length kids ∷ self) [] p tc ec) (attempt-ret (path_of b2) path body file)
        child in
    let (fd, u1, e1, (u2, e2, (u3, e3, (u4, e4, last)))) = child' in
    let (v1, ended, means) = Splits-exit code1 m1 s1 (length kids ∷ self) u4 ec last in
    let shown : visible tc
        ≡ opened_reading path fd ∷ closed (pos 0) ∷ copied fd ∷ closed fd ∷ visible u4 =
      visible-four e1 e2 e3 e4 in
    (
      pos (wexitstatus ec),
      (length kids ∷ self, ec) ∷ kids,
      t',
      (
        path,
        fd,
        v1,
        visible u4,
        file,
        means,
        ap (λ s. pos (wexitstatus s)) ended,
        seen ∙ ap (λ r. r ++ visible t') shown,
      ),
      rest,
    )

pipe_child-Connected :
    (code1 code2 : Code) (m1 m2 : Meaning)
    → Splits code1 m1
    → Splits code2 m2
    → (self : Pid) (t : List Mark) (e : Status) → Runs self [] (pipe_child code1 code2) t e
    → (u : List Event) → Connected m1 m2 (pos (wexitstatus e)) (visible t ++ u) u
unfolding pipe_child Runs visible
pipe_child-Connected code1 code2 m1 m2 s1 s2 self t e
      (r, w, t1, et, (tc, ec, tp, child, (p1, e1, (p2, e2, (p3, e3, (p4, e4, parent)))), merge)) u =
    let n = 0 ∷ self in
    let (c1, f1, (c2, f2, (c3, f3, (c4, f4, last)))) = child in
    let (v1, ended, means1) = Splits-exit code1 m1 s1 n c4 ec last in
    let (v2, kids', t', means2, (t'', gone, (over, end))) =
      s2 self ((n, ec) ∷ []) (λ v. waitpid n λ _. exit v) p4 e parent in
    let none_left : visible t' ≡ [] = ap visible gone ∙ ap visible over in
    let seen1 : visible tc ≡ closed r ∷ closed (pos 1) ∷ copied w ∷ closed w ∷ visible c4 =
      visible-four f1 f2 f3 f4 in
    let seen2 : visible tp ≡ closed w ∷ closed (pos 0) ∷ copied r ∷ closed r ∷ visible p4 =
      visible-four e1 e2 e3 e4 in
    let order = Merge-Interleave n (visible tc) tp t1 merge in
    (
      r,
      w,
      v1,
      v2,
      visible c4,
      visible p4,
      visible t1,
      means1,
      subst (λ x. m2 v2 (visible p4) x) none_left means2,
      subst
          (λ a.
            Interleave (closed r ∷ closed (pos 1) ∷ copied w ∷ closed w ∷ visible c4) a
              (visible t1))
          seen2 (subst (λ a. Interleave a (visible tp) (visible t1)) seen1 order),
      ap (λ s. pos (wexitstatus s)) end,
      ap (λ x. visible x ++ u) et,
    )

pub pipe_cmd-Splits :
    (code1 code2 : Code) (m1 m2 : Meaning)
    → Splits code1 m1
    → Splits code2 m2
    → Splits (pipe_cmd code1 code2) (Connected m1 m2)
unfolding pipe_cmd
pipe_cmd-Splits code1 code2 m1 m2 s1 s2 self kids k t e h =
    let n = length kids ∷ self in
    let (tc, ec, t', child, seen, rest) = Runs-reaped self kids (pipe_child code1 code2) k t e h in
    let means = pipe_child-Connected code1 code2 m1 m2 s1 s2 n tc ec child (visible t') in
    (
      pos (wexitstatus ec),
      (n, ec) ∷ kids,
      t',
      subst (λ x. Connected m1 m2 (pos (wexitstatus ec)) x (visible t')) (sym seen) means,
      rest,
    )
