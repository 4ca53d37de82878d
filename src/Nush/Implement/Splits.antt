-- ===== src/Nush/Implement/Splits.antt =====
-- The handlers of chal1/challenge01/implement.c against the meaning of the commands.
use cs.Base.{
  ℕ, ◌≡◌, ◌≢◌, refl, ap, subst, List, [], true, false, ◌⊎◌, inl, inr, arith, ℤ, pos, negsuc, ◌==◌,
  if◌then◌else◌, ==_iff, Bool-cases,
}
use cs.Nush.Implement.{Pid, Status, exited, Proc, exit, Code, is_int, run}
use cs.Nush.Implement.Kernel.{Mark, visible, Runs}
use cs.Nush.Implement.Meaning.{Meaning, First, When}

-- A run of the code does what `m` says, and then what follows the code.
abbrev pub Splits : Code → Meaning → Type 0
Splits code m =
    (self : Pid) (kids : List (Pid × Status)) (k : ℤ → Proc) (t : List Mark) (e : Status)
    → Runs self kids (code k) t e
    → (v : ℤ) × (kids' : List (Pid × Status)) × (t' : List Mark) × m v (visible t) (visible t')
      × Runs self kids' (k v) t' e

-- A process that ends with the code's value.
pub Splits-exit :
    (code : Code) (m : Meaning)
    → Splits code m
    → (self : Pid) (t : List Mark) (e : Status) → Runs self [] (code exit) t e
    → (v : ℤ) × (e ≡ exited v) × m v (visible t) []
unfolding Runs visible
Splits-exit code m s self t e run =
    let (v, kids', t', means, (et, ee)) = s self [] exit t e run in
    (v, ee, subst (λ r. m v (visible t) (visible r)) et means)

pub First-Splits :
    (code1 : Code) (m1 : Meaning) (code2 : ℤ → Code) (m2 : ℤ → Meaning)
    → Splits code1 m1
    → ((v1 : ℤ) → Splits (code2 v1) (m2 v1))
    → Splits (λ k. code1 λ v1. code2 v1 k) (First m1 m2)
First-Splits code1 m1 code2 m2 s1 s2 self kids k t e run =
    let (v1, kids1, mid, means1, rest) = s1 self kids (λ v1. code2 v1 k) t e run in
    let (v, kids2, t', means2, rest') = s2 v1 self kids1 k mid e rest in
    (v, kids2, t', (v1, visible mid, means1, means2), rest')

pub is_int-cases :
    (v : ℤ) (s : ℕ) → ((is_int v s ≡ true) × (v ≡ pos s)) ⊎ ((is_int v s ≡ false) × (v ≢ pos s))
unfolding is_int
is_int-cases (pos n) s = elim (Bool-cases (n == s)) [
  | inl same ↦ inl (same, ap pos ((==_iff n s).0 same))
  | inr other ↦ inr (other, λ e. ground arith)
]
is_int-cases (negsuc n) s = inr (refl, λ e. cc)

pub When-Splits :
    (s : ℕ) (code2 : Code) (m2 : Meaning) (v1 : ℤ)
    → Splits code2 m2
    → Splits (λ k. if is_int v1 s then code2 k else k v1) (When s m2 v1)
When-Splits s code2 m2 v1 s2 self kids k t e run = elim (is_int-cases v1 s) [
  | inl (test, same) ↦
      let run' : Runs self kids (code2 k) t e = rw test at run in
      let (v, kids', t', means, rest) = s2 self kids k t e run' in
      (v, kids', t', inl (same, means), rest)
  | inr (test, other) ↦
      let run' : Runs self kids (k v1) t e = rw test at run in
      (v1, kids, t, inr (other, refl, refl), run')
]
