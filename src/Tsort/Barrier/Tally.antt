-- ===== src/Tsort/Barrier/Tally.antt =====
-- How many threads of hw07/hw07-assignment/barrier.c stand at which places.
use cs.Base.{
  ℕ, zero, suc, ◌+◌, ◌≤◌, ◌≡◌, refl, sym, ap, ap₂, List, [], ◌∷◌, ◌++◌, map, Bool, true, false, inl,
  inr, arith, Bool-cases, length, replicate,
}
use cs.Tsort.Barrier.{
  Place, outside, locked, counted, between, testing, waiting, woken, leaving, called, past, wake,
}

abbrev pub bit : Bool → ℕ
bit true = 1
bit false = 0

unfoldable pub tally : (Place → Bool) → List Place → ℕ
tally f [] = 0
tally f (x ∷ xs) = bit (f x) + tally f xs

abbrev pub anyone : Place → Bool
anyone _ = true

abbrev pub is_outside : Place → Bool
is_outside outside = true
is_outside _ = false

abbrev pub is_past : Place → Bool
is_past past = true
is_past _ = false

-- The next step takes `wall`.
abbrev pub knocks : Place → Bool
knocks between = true
knocks woken = true
knocks _ = false

-- The increment is done.
abbrev pub arrived : Place → Bool
arrived outside = false
arrived locked = false
arrived _ = true

abbrev pub has_seen_lock : Place → Bool
has_seen_lock locked = true
has_seen_lock counted = true
has_seen_lock _ = false

abbrev pub has_wall : Place → Bool
has_wall testing = true
has_wall leaving = true
has_wall called = true
has_wall _ = false

abbrev pub through : Place → Bool
through leaving = true
through called = true
through past = true
through _ = false

abbrev pub asleep : Place → Bool
asleep waiting = true
asleep _ = false

-- The thread still has its broadcast before it.
abbrev pub active : Place → Bool
active counted = true
active between = true
active testing = true
active woken = true
active leaving = true
active _ = false

pub tally-append : (f : Place → Bool) (a b : List Place) → tally f (a ++ b) ≡ tally f a + tally f b
unfolding tally
tally-append f [] b = omega arith
tally-append f (x ∷ a) b = omega (arith, tally-append f a b)

-- One thread moves.
pub tally-moved :
    (f : Place → Bool) (a b xs : List Place) (old new : Place)
    → xs ≡ a ++ (old ∷ b)
    → tally f (a ++ (new ∷ b)) + bit (f old) ≡ tally f xs + bit (f new)
unfolding tally
tally-moved f a b xs old new e =
    let whole = ap (tally f) e in
    omega (arith, whole, tally-append f a (old ∷ b), tally-append f a (new ∷ b))

-- A broadcast does not change a class that does not tell waiting from woken.
pub tally-wake :
    (f : Place → Bool)
    → f waiting ≡ f woken
    → (xs : List Place) → tally f (map wake xs) ≡ tally f xs
unfolding tally wake
tally-wake f same [] = refl
tally-wake f same (waiting ∷ xs) = ap₂ (λ x y. bit x + y) (sym same) (tally-wake f same xs)
tally-wake f same (outside ∷ xs) = ap (λ y. bit (f outside) + y) (tally-wake f same xs)
tally-wake f same (locked ∷ xs) = ap (λ y. bit (f locked) + y) (tally-wake f same xs)
tally-wake f same (counted ∷ xs) = ap (λ y. bit (f counted) + y) (tally-wake f same xs)
tally-wake f same (between ∷ xs) = ap (λ y. bit (f between) + y) (tally-wake f same xs)
tally-wake f same (testing ∷ xs) = ap (λ y. bit (f testing) + y) (tally-wake f same xs)
tally-wake f same (woken ∷ xs) = ap (λ y. bit (f woken) + y) (tally-wake f same xs)
tally-wake f same (leaving ∷ xs) = ap (λ y. bit (f leaving) + y) (tally-wake f same xs)
tally-wake f same (called ∷ xs) = ap (λ y. bit (f called) + y) (tally-wake f same xs)
tally-wake f same (past ∷ xs) = ap (λ y. bit (f past) + y) (tally-wake f same xs)

pub asleep-wake : (xs : List Place) → tally asleep (map wake xs) ≡ 0
unfolding tally wake
asleep-wake [] = refl
asleep-wake (waiting ∷ xs) = omega (arith, asleep-wake xs)
asleep-wake (outside ∷ xs) = omega (arith, asleep-wake xs)
asleep-wake (locked ∷ xs) = omega (arith, asleep-wake xs)
asleep-wake (counted ∷ xs) = omega (arith, asleep-wake xs)
asleep-wake (between ∷ xs) = omega (arith, asleep-wake xs)
asleep-wake (testing ∷ xs) = omega (arith, asleep-wake xs)
asleep-wake (woken ∷ xs) = omega (arith, asleep-wake xs)
asleep-wake (leaving ∷ xs) = omega (arith, asleep-wake xs)
asleep-wake (called ∷ xs) = omega (arith, asleep-wake xs)
asleep-wake (past ∷ xs) = omega (arith, asleep-wake xs)

pub tally-replicate :
    (f : Place → Bool) (x : Place) (n : ℕ) → f x ≡ false → tally f (replicate n x) ≡ 0
unfolding tally
tally-replicate f x zero h = refl
tally-replicate f x (suc n) h = rw h (omega (arith, tally-replicate f x n h))

-- No more threads than there are.
pub tally-le : (f : Place → Bool) (xs : List Place) → tally f xs ≤ length xs
unfolding tally
tally-le f [] = omega arith
tally-le f (x ∷ xs) = elim (Bool-cases (f x)) [
  | inl h ↦ rw h (omega (arith, tally-le f xs))
  | inr h ↦ rw h (omega (arith, tally-le f xs))
]

-- The thread that moved is counted.
pub at_new :
    (f : Place → Bool) (a b xs : List Place) (new : Place)
    → xs ≡ a ++ (new ∷ b)
    → bit (f new) ≤ tally f xs
unfolding tally
at_new f a b xs new e =
    let whole = ap (tally f) e in omega (arith, whole, tally-append f a (new ∷ b))

bit_le : (b : Bool) → bit b ≤ 1
bit_le true = omega arith
bit_le false = omega arith

-- A lock that a thread holds is taken.
pub one_holder :
    (f : Place → Bool) (a b xs : List Place) (x : Place) (lock : Bool)
    → xs ≡ a ++ (x ∷ b)
    → tally f xs ≡ bit lock
    → bit (f x) ≡ 1
    → bit lock ≡ 1
one_holder f a b xs x lock e held here = omega (arith, at_new f a b xs x e, bit_le lock, held, here)

pub tally-broadcast :
    (f : Place → Bool)
    → f waiting ≡ f woken
    → (a b xs : List Place) → xs ≡ a ++ (leaving ∷ b)
    → tally f (map wake a ++ (called ∷ map wake b)) + bit (f leaving) ≡ tally f xs + bit (f called)
unfolding tally
tally-broadcast f same a b xs e =
    let whole = ap (tally f) e in
    omega (
      arith,
      whole,
      tally-append f a (leaving ∷ b),
      tally-append f (map wake a) (called ∷ map wake b),
      tally-wake f same a,
      tally-wake f same b,
    )

pub asleep-broadcast : (a b : List Place) → tally asleep (map wake a ++ (called ∷ map wake b)) ≡ 0
unfolding tally
asleep-broadcast a b =
    omega
      (arith, tally-append asleep (map wake a) (called ∷ map wake b), asleep-wake a, asleep-wake b)

pub tally-everyone : (x : Place) (n : ℕ) → tally anyone (replicate n x) ≡ n
unfolding tally
tally-everyone x zero = refl
tally-everyone x (suc n) = omega (arith, tally-everyone x n)
