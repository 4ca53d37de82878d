-- ===== src/Tsort/Barrier/Invariant.antt =====
-- What holds at the barrier of hw07/hw07-assignment/barrier.c after any steps.
use cs.Base.{
  ℕ, ◌+◌, ◌≤◌, ◌<◌, ◌≡◌, refl, ◌∙◌, ap, List, ◌∷◌, ◌++◌, map, Bool, true, false, ◌⊎◌, inl, inr,
  arith,
}
use cs.Tsort.Barrier.{
  Place, outside, locked, counted, between, testing, waiting, woken, leaving, called, past, wake,
  Barrier, make_barrier, Move, Step, act, lock_seen, increment, unlock_seen, lock_wall, wait,
  wake_alone, relock, leave_loop, broadcast, skip_broadcast, unlock_wall, Reach, here, next,
}
use cs.Tsort.Barrier.Tally.{
  bit, tally, arrived, has_seen_lock, has_wall, through, asleep, active, tally-moved,
  tally-replicate, at_new, one_holder, tally-broadcast, asleep-broadcast, anyone, tally-everyone,
}

-- `seen` counts the threads that have arrived, each lock is held by the one thread that took it, no thread gets through before
-- `count` have arrived, and once they have, a thread that sleeps will be woken by another.
pub record IsSound (s : Barrier) : Type 0 where
  pub sized : tally anyone s.threads ≡ s.count
  pub counts : tally arrived s.threads ≡ s.seen
  pub seen_held : tally has_seen_lock s.threads ≡ bit s.seen_lock
  pub wall_held : tally has_wall s.threads ≡ bit s.wall
  pub closed : 0 < tally through s.threads → s.count ≤ s.seen
  pub wakes : s.count ≤ s.seen → 0 < tally asleep s.threads → 0 < tally active s.threads

-- One thread moves, and the counter and the locks follow. Why no thread sleeps on: the thread that
-- moved is active, or not all have arrived, or nothing changed for those that sleep.
moved-IsSound :
    (s u : Barrier) (a b : List Place) (old new : Place)
    → s.threads ≡ a ++ (old ∷ b)
    → u.threads ≡ a ++ (new ∷ b)
    → u.count ≡ s.count
    → s.seen ≤ u.seen
    → u.seen + bit (arrived old) ≡ s.seen + bit (arrived new)
    → bit u.seen_lock + bit (has_seen_lock old) ≡ bit s.seen_lock + bit (has_seen_lock new)
    → bit u.wall + bit (has_wall old) ≡ bit s.wall + bit (has_wall new)
    → (bit (through new) ≤ bit (through old)) ⊎ (s.count ≤ s.seen)
    → (bit (active new) ≡ 1)
      ⊎ ((u.seen < u.count)
          ⊎ ((u.seen ≡ s.seen)
              × (bit (asleep new) ≤ bit (asleep old))
              × (bit (active old) ≤ bit (active new))))
    → IsSound s
    → IsSound u
moved-IsSound s u a b old new e e' same more h1 h2 h3 h4 h5 i =
    let m : (f : Place → Bool) → tally f u.threads + bit (f old) ≡ tally f s.threads + bit (f new) =
      λ f. ap (λ t. tally f t + bit (f old)) e' ∙ tally-moved f a b s.threads old new e in
    record {
      sized = omega (arith, m anyone, i.sized, same);
      counts = omega (arith, m arrived, i.counts, h1);
      seen_held = omega (arith, m has_seen_lock, i.seen_held, h2);
      wall_held = omega (arith, m has_wall, i.wall_held, h3);
      closed = λ h. elim h4 [
        | inl less ↦
            let c = i.closed (omega (arith, m through, h, less)) in omega (arith, c, same, more)
        | inr enough ↦ omega (arith, enough, same, more)
      ];
      wakes = λ h k. elim h5 [
        | inl on ↦ omega (arith, at_new active a b u.threads new e', on)
        | inr (inl few) ↦ absurd (omega (arith, h, few))
        | inr (inr (kept, sleep, awake)) ↦
            let w = i.wakes (omega (arith, h, kept, same)) (omega (arith, m asleep, k, sleep)) in
            omega (arith, m active, w, awake)
      ];
    }

broadcast-IsSound :
    (s : Barrier) (a b : List Place)
    → s.threads ≡ a ++ (leaving ∷ b)
    → s.count ≤ s.seen
    → IsSound s
    → IsSound (record s { threads = map wake a ++ (called ∷ map wake b) })
broadcast-IsSound s a b e enough i =
    let m : (f : Place → Bool)
        → f waiting ≡ f woken
        → tally f (map wake a ++ (called ∷ map wake b)) + bit (f leaving)
          ≡ tally f s.threads + bit (f called) =
      λ f h. tally-broadcast f h a b s.threads e in
    record {
      sized = omega (arith, m anyone refl, i.sized);
      counts = omega (arith, m arrived refl, i.counts);
      seen_held = omega (arith, m has_seen_lock refl, i.seen_held);
      wall_held = omega (arith, m has_wall refl, i.wall_held);
      closed = λ h. enough;
      wakes = λ h k. absurd (omega (arith, k, asleep-broadcast a b));
    }

Move-IsSound : {s u : Barrier} → Move s u → IsSound s → IsSound u
Move-IsSound (lock_seen s a b e free) i =
    let held : bit s.seen_lock ≡ 0 = ap bit free in
    moved-IsSound s (record s { seen_lock = true; threads = a ++ (locked ∷ b) }) a b outside locked
      e refl refl (omega arith) (omega arith) (omega arith) (omega arith) (inl (omega arith))
      (inr (inr (refl, omega arith, omega arith))) i
Move-IsSound (increment s a b e) i =
    moved-IsSound s (record s { seen = s.seen + 1; threads = a ++ (counted ∷ b) }) a b locked
      counted e refl refl (omega arith) (omega arith) (omega arith) (omega arith)
      (inl (omega arith)) (inl refl) i
Move-IsSound (unlock_seen s a b e) i =
    let held : bit s.seen_lock ≡ 1 =
      one_holder has_seen_lock a b s.threads counted s.seen_lock e i.seen_held refl in
    moved-IsSound s (record s { seen_lock = false; threads = a ++ (between ∷ b) }) a b counted
      between e refl refl (omega arith) (omega arith) (omega arith) (omega arith)
      (inl (omega arith)) (inl refl) i
Move-IsSound (lock_wall s a b e free) i =
    let held : bit s.wall ≡ 0 = ap bit free in
    moved-IsSound s (record s { wall = true; threads = a ++ (testing ∷ b) }) a b between testing e
      refl refl (omega arith) (omega arith) (omega arith) (omega arith) (inl (omega arith))
      (inl refl) i
Move-IsSound (wait s a b e few) i =
    let held : bit s.wall ≡ 1 =
      one_holder has_wall a b s.threads testing s.wall e i.wall_held refl in
    moved-IsSound s (record s { wall = false; threads = a ++ (waiting ∷ b) }) a b testing waiting e
      refl refl (omega arith) (omega arith) (omega arith) (omega arith) (inl (omega arith))
      (inr (inl few)) i
Move-IsSound (relock s a b e free) i =
    let held : bit s.wall ≡ 0 = ap bit free in
    moved-IsSound s (record s { wall = true; threads = a ++ (testing ∷ b) }) a b woken testing e
      refl refl (omega arith) (omega arith) (omega arith) (omega arith) (inl (omega arith))
      (inl refl) i
Move-IsSound (leave_loop s a b e enough) i =
    moved-IsSound s (record s { threads = a ++ (leaving ∷ b) }) a b testing leaving e refl refl
      (omega arith) (omega arith) (omega arith) (omega arith) (inr enough) (inl refl) i
Move-IsSound (broadcast s a b e enough) i = broadcast-IsSound s a b e enough i
Move-IsSound (skip_broadcast s a b e few) i =
    moved-IsSound s (record s { threads = a ++ (called ∷ b) }) a b leaving called e refl refl
      (omega arith) (omega arith) (omega arith) (omega arith) (inl (omega arith)) (inr (inl few)) i
Move-IsSound (unlock_wall s a b e) i =
    let held : bit s.wall ≡ 1 =
      one_holder has_wall a b s.threads called s.wall e i.wall_held refl in
    moved-IsSound s (record s { wall = false; threads = a ++ (past ∷ b) }) a b called past e refl
      refl (omega arith) (omega arith) (omega arith) (omega arith) (inl (omega arith))
      (inr (inr (refl, omega arith, omega arith))) i

pub Step-IsSound : {s u : Barrier} → Step s u → IsSound s → IsSound u
Step-IsSound (act m) i = Move-IsSound m i
Step-IsSound (wake_alone s a b e) i =
    moved-IsSound s (record s { threads = a ++ (woken ∷ b) }) a b waiting woken e refl refl
      (omega arith) (omega arith) (omega arith) (omega arith) (inl (omega arith)) (inl refl) i

make_barrier-IsSound : (nn : ℕ) → IsSound (make_barrier nn)
unfolding make_barrier
make_barrier-IsSound nn = record {
  sized = tally-everyone outside nn;
  counts = tally-replicate arrived outside nn refl;
  seen_held = tally-replicate has_seen_lock outside nn refl;
  wall_held = tally-replicate has_wall outside nn refl;
  closed = λ h. absurd (omega (arith, h, tally-replicate through outside nn refl));
  wakes = λ h k. absurd (omega (arith, k, tally-replicate asleep outside nn refl));
}

-- After any steps from a new barrier, `seen` counts the threads that have arrived, each lock is held by one
-- thread exactly when it is taken, a thread is through only if `count` threads have arrived, and when they have, some thread
-- is on its way to a broadcast as long as one sleeps.
pub Reach-IsSound : (nn : ℕ) {s : Barrier} → Reach (make_barrier nn) s → IsSound s
Reach-IsSound nn here = make_barrier-IsSound nn
Reach-IsSound nn (next r st) = Step-IsSound st (Reach-IsSound nn r)
