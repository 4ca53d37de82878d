-- ===== src/Nush/Implement/Output.antt =====
-- The background commands and the output files of chal1/challenge01/implement.c.
use cs.Base.{sym, ret, ◌≡◌, refl, ◌∙◌, ap, subst, List, [], ◌∷◌, ◌++◌, ℤ, pos, length}
use cs.Nush.Svec.{Slot, str_eq}
use cs.Nush.Astree.{Astree, null, cmd, node}
use cs.Nush.Implement.{
  Pid, Status, Proc, exit, fork, exited, wexitstatus, Code, op_code, path_of, rdr_out_cmd, run,
  execute, attempt, close, dup, open_writing, background_cmd,
}
use cs.Nush.Implement.Kernel.{Event, Mark, visible, Runs, opened_writing, closed, copied}
use cs.Nush.Implement.Possible.{NoPipes, execute-possible}
use cs.Nush.Implement.Reap.{NoWait, Interleave-Merge, Interleave, Runs-reaped, visible-four}
use cs.Nush.Implement.Meaning.{Plain, Means}
use cs.Nush.Implement.Executed.{execute-Means}

-- A run of an output redirection of a plain tree into a file whose name can be read: a child opens the file, does what the tree means, and
-- then what follows `execute`, given 0; after its end the parent does what follows again, given its status.
pub rdr_out_cmd-twice :
    (b1 b2 : Astree) (path : Slot) (self : Pid) (kids : List (Pid × Status)) (k : ℤ → Proc)
    (t : List Mark) (e : Status)
    → Plain b1
    → path_of b2 ≡ ret path
    → Runs self kids (execute (node (b'>' ∷ []) b1 b2) k) t e
    → (fd : ℤ) × (v1 : ℤ) × (seen : List Event) × (kids1 : List (Pid × Status)) × (t1 : List Mark)
      × (ec : Status) × (t' : List Mark) × (visible t
          ≡ opened_writing path fd ∷ closed (pos 1) ∷ copied fd ∷ closed fd ∷ (seen ++ visible t'))
      × Means b1 v1 seen (visible t1)
      × Runs (length kids ∷ self) kids1 (k (pos 0)) t1 ec
      × Runs self ((length kids ∷ self, ec) ∷ kids) (k (pos (wexitstatus ec))) t' e
unfolding execute op_code str_eq run rdr_out_cmd Runs visible
rdr_out_cmd-twice b1 b2 path self kids k t e plain file h =
    let body : Slot → Proc = λ path.
      open_writing path λ fd. close (pos 1) (dup fd (close fd (execute b1 λ _. k (pos 0)))) in
    let n = length kids ∷ self in
    let (tc, ec, t', child, seen, rest) =
      Runs-reaped self kids (attempt (path_of b2) body) k t e h in
    let child' = subst (λ m. Runs n [] (attempt m body) tc ec) file child in
    let (fd, u1, e1, (u2, e2, (u3, e3, (u4, e4, last)))) = child' in
    let (v1, kids1, t1, means, rest1) = execute-Means b1 n [] (λ _. k (pos 0)) u4 ec plain last in
    let shown : visible tc
        ≡ opened_writing path fd ∷ closed (pos 1) ∷ copied fd ∷ closed fd ∷ visible u4 =
      visible-four e1 e2 e3 e4 in
    (
      fd,
      v1,
      visible u4,
      kids1,
      t1,
      ec,
      t',
      seen ∙ ap (λ r. r ++ visible t') shown,
      means,
      rest1,
      rest,
    )

background_cmd-parent :
    (execute1 : Code) (b2 : Astree) (k : ℤ → Proc)
    → background_cmd execute1 b2 (execute b2) k
      ≡ fork (execute1 λ _. exit (pos 0)) (λ cpid. execute b2 k)
unfolding background_cmd execute
background_cmd-parent execute1 null k = refl
background_cmd-parent execute1 (cmd sv) k = refl
background_cmd-parent execute1 (node op b1 b2) k = refl

-- A background command whose first branch has no pipe: take what this branch can mean, in a process of
-- its own, a run of the second branch and of what follows in which nobody waits for the first, and any interleaving of the two. Then there is a run of the
-- command that shows this interleaving, so that the second branch can run before, between and behind
-- what the first does.
pub background_cmd-Interleave :
    (b1 b2 : Astree) (self : Pid) (kids : List (Pid × Status)) (k : ℤ → Proc) (v1 : ℤ)
    (seen shown : List Event) (tp : List Mark) (e : Status)
    → NoPipes b1
    → Means b1 v1 seen []
    → Runs self ((length kids ∷ self, exited (pos 0)) ∷ kids) (execute b2 k) tp e
    → NoWait (length kids ∷ self) tp
    → Interleave seen (visible tp) shown
    → (t : List Mark) × (visible t ≡ shown)
      × Runs self kids (execute (node (b'&' ∷ []) b1 b2) k) t e
unfolding execute op_code str_eq run Runs visible
background_cmd-Interleave b1 b2 self kids k v1 seen shown tp e pipes means parent free order =
    let n = length kids ∷ self in
    let (tc, shows, child) =
      execute-possible b1 (λ _. exit (pos 0)) v1 seen [] (exited (pos 0)) pipes means
        (λ self kids. ([], refl, (refl, refl))) n [] in
    let (t, all, merge) =
      Interleave-Merge n (visible tc) tp shown free
        (subst (λ c. Interleave c (visible tp) shown) (sym shows) order) in
    (
      t,
      all,
      subst (λ p. Runs self kids p t e) (sym (background_cmd-parent (execute b1) b2 k))
          (tc, exited (pos 0), tp, child, parent, merge),
    )
