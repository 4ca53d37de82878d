-- ===== src/Tsort/Barrier/Progress.antt =====
-- The threads at the barrier of hw07/hw07-assignment/barrier.c do not block one another for ever.
use cs.Base.{
  ℕ, ◌+◌, ◌≤◌, ◌<◌, ◌≡◌, refl, ap, List, [], ◌∷◌, ◌++◌, Bool, true, false, inl, inr, arith,
  Bool-cases, dec_lt,
}
use cs.Tsort.Barrier.{
  Place, outside, locked, counted, between, testing, waiting, woken, leaving, called, past, Barrier,
  make_barrier, Move, lock_seen, increment, unlock_seen, lock_wall, wait, relock, leave_loop,
  broadcast, skip_broadcast, unlock_wall, Reach,
}
use cs.Tsort.Barrier.Tally.{
  bit, tally, arrived, has_seen_lock, has_wall, asleep, active, anyone, is_outside, is_past, knocks,
}
use cs.Tsort.Barrier.Invariant.{IsSound, Reach-IsSound}

-- A thread that is counted stands somewhere.
find_thread :
    (f : Place → Bool) (xs : List Place)
    → 0 < tally f xs
    → (a : List Place) × (x : Place) × (b : List Place) × (xs ≡ a ++ (x ∷ b)) × (f x ≡ true)
unfolding tally
find_thread f [] h = absurd (omega (arith, h))
find_thread f (x ∷ xs) h = elim (Bool-cases (f x)) [
  | inl yes_here ↦ ([], x, xs, refl, yes_here)
  | inr not_here ↦
      let none : bit (f x) ≡ 0 = ap bit not_here in
      let (a, y, b, e, fy) = find_thread f xs (omega (arith, h, none)) in
      (x ∷ a, y, b, ap (λ r. x ∷ r) e, fy)
]

-- A thread that has not returned is before the call, holds a lock, wants `wall`, or sleeps.
place-split :
    (x : Place)
    → (bit (anyone x)
        ≡ bit (is_outside x)
          + bit (has_seen_lock x)
          + bit (has_wall x)
          + bit (knocks x)
          + bit (asleep x)
          + bit (is_past x))
      × (bit (anyone x) ≤ bit (arrived x) + bit (is_outside x) + bit (has_seen_lock x))
      × (bit (active x) ≤ bit (has_seen_lock x) + bit (has_wall x) + bit (knocks x))
place-split outside = (refl, omega arith, omega arith)
place-split locked = (refl, omega arith, omega arith)
place-split counted = (refl, omega arith, omega arith)
place-split between = (refl, omega arith, omega arith)
place-split testing = (refl, omega arith, omega arith)
place-split waiting = (refl, omega arith, omega arith)
place-split woken = (refl, omega arith, omega arith)
place-split leaving = (refl, omega arith, omega arith)
place-split called = (refl, omega arith, omega arith)
place-split past = (refl, omega arith, omega arith)

tally-split :
    (xs : List Place)
    → (tally anyone xs
        ≡ tally is_outside xs
          + tally has_seen_lock xs
          + tally has_wall xs
          + tally knocks xs
          + tally asleep xs
          + tally is_past xs)
      × (tally anyone xs ≤ tally arrived xs + tally is_outside xs + tally has_seen_lock xs)
      × (tally active xs ≤ tally has_seen_lock xs + tally has_wall xs + tally knocks xs)
unfolding tally
tally-split [] = (refl, omega arith, omega arith)
tally-split (x ∷ xs) =
    let (p, q, r) = place-split x in
    let (ps, qs, rs) = tally-split xs in
    (omega (arith, p, ps), omega (arith, q, qs), omega (arith, r, rs))

seen_lock-moves :
    (s : Barrier) (a b : List Place) (x : Place)
    → s.threads ≡ a ++ (x ∷ b)
    → has_seen_lock x ≡ true
    → (u : Barrier) × Move s u
seen_lock-moves s a b locked e h = (_, increment s a b e)
seen_lock-moves s a b counted e h = (_, unlock_seen s a b e)
seen_lock-moves s a b _ e h = cc

wall-moves :
    (s : Barrier) (a b : List Place) (x : Place)
    → s.threads ≡ a ++ (x ∷ b)
    → has_wall x ≡ true
    → (u : Barrier) × Move s u
wall-moves s a b testing e h = elim (dec_lt s.seen s.count) [
  | yes few ↦ (_, wait s a b e few)
  | no enough ↦ (_, leave_loop s a b e (omega (arith, enough)))
]
wall-moves s a b leaving e h = elim (dec_lt s.seen s.count) [
  | yes few ↦ (_, skip_broadcast s a b e few)
  | no enough ↦ (_, broadcast s a b e (omega (arith, enough)))
]
wall-moves s a b called e h = (_, unlock_wall s a b e)
wall-moves s a b _ e h = cc

outside-moves :
    (s : Barrier) (a b : List Place) (x : Place)
    → s.threads ≡ a ++ (x ∷ b)
    → is_outside x ≡ true
    → s.seen_lock ≡ false
    → (u : Barrier) × Move s u
outside-moves s a b outside e h free = (_, lock_seen s a b e free)
outside-moves s a b _ e h free = cc

knocks-moves :
    (s : Barrier) (a b : List Place) (x : Place)
    → s.threads ≡ a ++ (x ∷ b)
    → knocks x ≡ true
    → s.wall ≡ false
    → (u : Barrier) × Move s u
knocks-moves s a b between e h free = (_, lock_wall s a b e free)
knocks-moves s a b woken e h free = (_, relock s a b e free)
knocks-moves s a b _ e h free = cc

free_lock : (lock : Bool) → bit lock ≡ 0 → lock ≡ false
free_lock true h = absurd (omega (arith, h))
free_lock false h = refl

-- If nobody holds a lock, is outside or wants `wall`, then all are past.
all_past :
    (s : Barrier)
    → IsSound s
    → tally has_seen_lock s.threads ≡ 0
    → tally has_wall s.threads ≡ 0
    → tally is_outside s.threads ≡ 0
    → tally knocks s.threads ≡ 0
    → tally is_past s.threads ≡ s.count
all_past s i h1 h2 h3 h4 =
    let (whole, came, on) = tally-split s.threads in
    elim (dec_lt 0 (tally asleep s.threads)) [
      | yes sleeps ↦
          let w = i.wakes (omega (arith, came, i.counts, i.sized, h1, h3)) sleeps in
          absurd (omega (arith, w, on, h1, h2, h4))
      | no awake ↦ omega (arith, whole, awake, i.sized, h1, h2, h3, h4)
    ]

-- After any steps from a barrier for `nn` threads, as long as not all have returned, some thread can move without being
-- woken for no reason.
pub Reach-moves :
    (nn : ℕ) (s : Barrier)
    → Reach (make_barrier nn) s
    → tally is_past s.threads < s.count
    → (u : Barrier) × Move s u
Reach-moves nn s r left =
    let i = Reach-IsSound nn r in
    elim (dec_lt 0 (tally has_seen_lock s.threads)) [
      | yes h ↦
          let (a, x, b, e, fx) = find_thread has_seen_lock s.threads h in
          seen_lock-moves s a b x e fx
      | no h1 ↦ elim (dec_lt 0 (tally has_wall s.threads)) [
        | yes h ↦ let (a, x, b, e, fx) = find_thread has_wall s.threads h in wall-moves s a b x e fx
        | no h2 ↦ elim (dec_lt 0 (tally is_outside s.threads)) [
          | yes h ↦
              let (a, x, b, e, fx) = find_thread is_outside s.threads h in
              outside-moves s a b x e fx (free_lock s.seen_lock (omega (arith, h1, i.seen_held)))
          | no h3 ↦ elim (dec_lt 0 (tally knocks s.threads)) [
            | yes h ↦
                let (a, x, b, e, fx) = find_thread knocks s.threads h in
                knocks-moves s a b x e fx (free_lock s.wall (omega (arith, h2, i.wall_held)))
            | no h4 ↦
                let done =
                  all_past s i (omega (arith, h1)) (omega (arith, h2)) (omega (arith, h3))
                    (omega (arith, h4)) in
                absurd (omega (arith, done, left))
          ]
        ]
      ]
    ]
