-- ===== src/Nufs/Directory/Names.antt =====
-- Names in the entries: what `strcmp` sees of a name that `directory_put` wrote, and the searches.
use cs.Base.{
  ℕ, zero, suc, ◌+◌, ◌-◌, ◌≤◌, ◌<◌, ◌≡◌, ◌≢◌, refl, sym, ◌∙◌, ap, subst, [], ◌∷◌, Bool, true, false,
  ◌&&◌, Option, none, some, inl, inr, arith, ltb, ◌==◌, lt→ltb, le→leb, not_ltb→le, Bool-cases,
  ℕ_discrete, length, All, get_or, drop, length-drop, get_or_beyond, front_of, tail_of,
}
use cs.Nufs.Directory.{name_eq, put_name, find_first}
use cs.Nufs.Memory.{Disk}
use cs.Nufs.Slist.{Text}

-- Bytes that are not NUL.
abbrev pub Clean : Text → Type 0
Clean s = All (λ c. c ≢ 0) s

-- A name of a C program that fits an entry with its NUL.
pub record IsName (s : Text) : Type 0 where
  pub clean : Clean s
  pub nonempty : 0 < length s
  pub short : length s < 60

-- The string at `a` is `s`.
abbrev StringAt : Disk → ℕ → Text → Type 0
StringAt d a [] = d a ≡ 0
StringAt d a (c ∷ s) = (d a ≡ c) × StringAt d (a + 1) s

pub text_eq : Text → Text → Bool
text_eq [] [] = true
text_eq [] (c ∷ s) = false
text_eq (c ∷ s) [] = false
text_eq (c ∷ s) (c' ∷ s') = c == c' && text_eq s s'

pub text_eq_refl : (s : Text) → text_eq s s ≡ true
unfolding text_eq
text_eq_refl [] = refl
text_eq_refl (c ∷ s) = ground (arith, text_eq_refl s)

text_eq-eq : (s s' : Text) → text_eq s s' ≡ true → s ≡ s'
unfolding text_eq
text_eq-eq [] [] e = refl
text_eq-eq [] (c ∷ s') e = cc
text_eq-eq (c ∷ s) [] e = cc
text_eq-eq (c ∷ s) (c' ∷ s') e = ground (arith, text_eq-eq s s')

pub text_eq-ne : (s s' : Text) → s ≢ s' → text_eq s s' ≡ false
text_eq-ne s s' ne = elim (Bool-cases (text_eq s s')) [
  | inl e ↦ absurd (ne (text_eq-eq s s' e))
  | inr e ↦ e
]

name_eq-StringAt :
    (d : Disk) (a : ℕ) (n s : Text)
    → StringAt d a n
    → Clean n
    → Clean s
    → name_eq d a s ≡ text_eq n s
unfolding name_eq text_eq
name_eq-StringAt d a [] [] h cn cs = ground arith
name_eq-StringAt d a [] (c ∷ s) h cn cs = let nz = cs.0 in ground arith
name_eq-StringAt d a (c ∷ n) [] h cn cs = let nz = cn.0 in let e = h.0 in ground arith
name_eq-StringAt d a (c ∷ n) (c' ∷ s) h cn cs =
    rw (h.0, name_eq-StringAt d (a + 1) n s h.1 cn.1 cs.1)

-- The bytes that `put_name` leaves, `j` bytes into the entry.
put_name-byte :
    (d : Disk) (a : ℕ) (name : Text) (j : ℕ)
    → length name < 60
    → j < 60
    → put_name d a name (a + j) ≡ get_or name j 0
unfolding put_name
put_name-byte d a name j short h =
    let e : a + j - a ≡ j = omega arith in
    rw (le→leb a (a + j) (omega arith), lt→ltb (a + j) (a + 60) (omega arith), e)
      (elim (Bool-cases (ltb (a + j) (a + 59))) [
        | inl lt ↦ rw lt refl
        | inr ge ↦
            rw ge (sym (get_or_beyond name j (omega (arith, not_ltb→le (a + j) (a + 59) ge))))
      ])

put_name-StringAt :
    (d : Disk) (a j : ℕ) (name s : Text)
    → length name < 60
    → drop j name ≡ s
    → j ≤ length name
    → StringAt (put_name d a name) (a + j) s
put_name-StringAt d a j name [] short e h =
    put_name-byte d a name j short (omega arith)
    ∙ get_or_beyond name j (omega (arith, ap length e, length-drop {0} j name))
put_name-StringAt d a j name (c ∷ s) short e h = (
  put_name-byte d a name j short (omega arith) ∙ front_of name j c s 0 e,
  subst (λ k. StringAt (put_name d a name) k s)
      (let e' : a + (j + 1) ≡ a + j + 1 = omega arith in e')
      (put_name-StringAt d a (j + 1) name s short (tail_of name j c s e)
        (omega (arith, ap length e, length-drop {0} j name))),
)

-- After `put_name`, exactly the name that was written compares equal.
pub name_eq-put_name :
    (d : Disk) (a : ℕ) (name s : Text)
    → IsName name
    → Clean s
    → name_eq (put_name d a name) a s ≡ text_eq name s
name_eq-put_name d a name s h cs =
    subst (λ k. name_eq (put_name d a name) k s ≡ text_eq name s)
      (let e : a + 0 ≡ a = omega arith in e)
      (name_eq-StringAt (put_name d a name) (a + 0) name s
        (put_name-StringAt d a 0 name name h.short refl (omega arith)) h.clean cs)

-- A comparison reads only the entry.
pub name_eq_congr :
    (d d' : Disk) (a : ℕ) (s : Text)
    → ((x : ℕ) → a ≤ x → x ≤ a + length s → d' x ≡ d x)
    → name_eq d' a s ≡ name_eq d a s
unfolding name_eq
name_eq_congr d d' a [] h = rw (h a (omega arith) (omega arith))
name_eq_congr d d' a (c ∷ s) h = rw (
  h a (omega arith) (omega arith),
  name_eq_congr d d' (a + 1) s (λ x l u. h x (omega arith) (omega arith)),
)

-- No name compares equal to an entry whose name is empty.
pub name_eq-empty : (d : Disk) (a : ℕ) (s : Text) → d a ≡ 0 → IsName s → name_eq d a s ≡ false
unfolding name_eq
name_eq-empty d a [] e h = absurd (omega (arith, h.nonempty))
name_eq-empty d a (c ∷ s) e h = let nz = h.clean.0 in ground arith

-- The searches look at every entry in turn.
pub find_first_congr :
    (n i : ℕ) (f g : ℕ → Bool)
    → ((j : ℕ) → i ≤ j → j < i + n → f j ≡ g j)
    → find_first n i f ≡ find_first n i g
unfolding find_first
find_first_congr zero i f g h = refl
find_first_congr (suc n) i f g h = rw (
  h i (omega arith) (omega arith),
  find_first_congr n (i + 1) f g (λ j l u. h j (omega arith) (omega arith)),
)

-- When one entry passes, it is found.
pub find_first-only :
    (n i k : ℕ) (f : ℕ → Bool)
    → i ≤ k
    → k < i + n
    → f k ≡ true
    → ((j : ℕ) → i ≤ j → j < i + n → j ≢ k → f j ≡ false)
    → find_first n i f ≡ some k
unfolding find_first
find_first-only zero i k f l u t h = absurd (omega arith)
find_first-only (suc n) i k f l u t h = elim (ℕ_discrete i k) [
  | yes e ↦ rw (e, t)
  | no ne ↦ rw (
    h i (omega arith) (omega arith) ne,
    find_first-only n (i + 1) k f (omega arith) (omega arith) t
        (λ j l' u' d. h j (omega arith) (omega arith) d),
  )
]

-- What is found passes, and nothing before it does; when nothing is found, nothing passes.
abbrev pub FoundFirst : ℕ → ℕ → (ℕ → Bool) → Option ℕ → Type 0
FoundFirst n i f none = (j : ℕ) → i ≤ j → j < i + n → f j ≡ false
FoundFirst n i f (some k) = (i ≤ k) × (k < i + n) × (f k ≡ true)

pub find_first-FoundFirst : (n i : ℕ) (f : ℕ → Bool) → FoundFirst n i f (find_first n i f)
unfolding find_first
find_first-FoundFirst zero i f = λ j l u. absurd (omega arith)
find_first-FoundFirst (suc n) i f = elim (Bool-cases (f i)) [
  | inl t ↦ rw t (omega arith, omega arith, t)
  | inr no_i ↦ rw no_i (later (find_first n (i + 1) f) (find_first-FoundFirst n (i + 1) f) no_i)
]
  where
    later : (o : Option ℕ) → FoundFirst n (i + 1) f o → f i ≡ false → FoundFirst (suc n) i f o
    later none h e = λ j l u. elim (ℕ_discrete j i) [
      | yes same ↦ rw same e
      | no ne ↦ h j (omega arith) (omega arith)
    ]
    later (some k) (l, u, t) e = (omega arith, omega arith, t)
