-- ===== src/Tsort/Barrier.antt =====
-- hw07/hw07-assignment/barrier.c: threads at a barrier. A state has the two locks, the two counters and
-- the place of each thread in `barrier_wait`; `pthread_cond_wait` may also wake for no reason. The
-- reads and writes of `seen` take effect one at a time, though they are under different locks.
pub mod Tally
pub mod Invariant
pub mod Progress
mod Tests
use cs.Base.{
  ℕ, zero, suc, ◌+◌, ◌-◌, ◌*◌, ◌/◌, ◌%◌, ◌^◌, ◌≤◌, ◌<◌, min, max, ◌≡◌, ◌≢◌, ◌↔◌, refl, sym, ◌∙◌, ap,
  ap₂, subst, List, [], ◌∷◌, ◌++◌, map, reverse, Bool, true, false, not, ◌&&◌, ◌||◌, Option, none,
  some, ◌⊎◌, inl, inr, arith, ℤ, pos, negsuc, minus_one, no_entry, already_exists, ltb, leb, ◌==◌,
  if◌then◌else◌, ltb→lt, lt→ltb, le→not_ltb, leb→le, le→leb, lt→not_leb, not_leb→lt, not_ltb→le,
  ==_iff, Bool-cases, Option-cases, dec_lt, ℕ_discrete, length, All, get_or, take, drop, replicate,
}

-- The places of a thread: before the call, with `seen_lock` before and behind the increment, between
-- the two locks, at the test of the loop with `wall`, in `pthread_cond_wait`, woken there, behind the loop,
-- behind the broadcast, and after the call.
pub data Place : Type 0 where
  outside locked counted between testing waiting woken leaving called past : Place

-- `struct barrier`, and the threads that use it.
pub record Barrier : Type 0 where
  pub count : ℕ
  pub seen : ℕ
  pub seen_lock : Bool
  pub wall : Bool
  pub threads : List Place

unfoldable pub make_barrier : ℕ → Barrier
make_barrier nn = record {
  count = nn;
  seen = 0;
  seen_lock = false;
  wall = false;
  threads = replicate nn outside;
}

-- `pthread_cond_broadcast`
unfoldable pub wake : Place → Place
wake waiting = woken
wake outside = outside
wake locked = locked
wake counted = counted
wake between = between
wake testing = testing
wake woken = woken
wake leaving = leaving
wake called = called
wake past = past

-- One thread, with those before and behind it in the list, takes one step of `barrier_wait`.
pub data Move : Barrier → Barrier → Type 0 where
  lock_seen :
      (s : Barrier) (a b : List Place)
      → s.threads ≡ a ++ (outside ∷ b)
      → s.seen_lock ≡ false
      → Move s (record s { seen_lock = true; threads = a ++ (locked ∷ b) })
  increment :
      (s : Barrier) (a b : List Place)
      → s.threads ≡ a ++ (locked ∷ b)
      → Move s (record s { seen = s.seen + 1; threads = a ++ (counted ∷ b) })
  unlock_seen :
      (s : Barrier) (a b : List Place)
      → s.threads ≡ a ++ (counted ∷ b)
      → Move s (record s { seen_lock = false; threads = a ++ (between ∷ b) })
  lock_wall :
      (s : Barrier) (a b : List Place)
      → s.threads ≡ a ++ (between ∷ b)
      → s.wall ≡ false
      → Move s (record s { wall = true; threads = a ++ (testing ∷ b) })
  wait :
      (s : Barrier) (a b : List Place)
      → s.threads ≡ a ++ (testing ∷ b)
      → s.seen < s.count
      → Move s (record s { wall = false; threads = a ++ (waiting ∷ b) })
  relock :
      (s : Barrier) (a b : List Place)
      → s.threads ≡ a ++ (woken ∷ b)
      → s.wall ≡ false
      → Move s (record s { wall = true; threads = a ++ (testing ∷ b) })
  leave_loop :
      (s : Barrier) (a b : List Place)
      → s.threads ≡ a ++ (testing ∷ b)
      → s.count ≤ s.seen
      → Move s (record s { threads = a ++ (leaving ∷ b) })
  broadcast :
      (s : Barrier) (a b : List Place)
      → s.threads ≡ a ++ (leaving ∷ b)
      → s.count ≤ s.seen
      → Move s (record s { threads = map wake a ++ (called ∷ map wake b) })
  skip_broadcast :
      (s : Barrier) (a b : List Place)
      → s.threads ≡ a ++ (leaving ∷ b)
      → s.seen < s.count
      → Move s (record s { threads = a ++ (called ∷ b) })
  unlock_wall :
      (s : Barrier) (a b : List Place)
      → s.threads ≡ a ++ (called ∷ b)
      → Move s (record s { wall = false; threads = a ++ (past ∷ b) })

-- A thread moves, or one that waits is woken for no reason.
pub data Step : Barrier → Barrier → Type 0 where
  act : {s u : Barrier} → Move s u → Step s u
  wake_alone :
      (s : Barrier) (a b : List Place)
      → s.threads ≡ a ++ (waiting ∷ b)
      → Step s (record s { threads = a ++ (woken ∷ b) })

-- The states that a barrier can come to.
pub data Reach (s : Barrier) : Barrier → Type 0 where
  here : Reach s s
  next : {t u : Barrier} → Reach s t → Step t u → Reach s u
