-- ===== src/Tsort/Barrier/Tests.antt =====
-- Tests for hw07/hw07-assignment/barrier.c: two threads, of which the first has taken `seen_lock`.
use cs.Base.{refl, [], ◌∷◌, true, false, arith}
use cs.Tsort.Barrier.{
  outside, locked, counted, Barrier, make_barrier, Move, act, lock_seen, increment, Reach, here,
  next,
}
use cs.Tsort.Barrier.Tally.{tally}
use cs.Tsort.Barrier.Invariant.{IsSound, Reach-IsSound}
use cs.Tsort.Barrier.Progress.{Reach-moves}

abbrev one_in : Barrier
one_in = record {
  count = 2;
  seen = 0;
  seen_lock = true;
  wall = false;
  threads = locked ∷ outside ∷ [];
}

abbrev one_counted : Barrier
one_counted = record one_in { seen = 1; threads = counted ∷ outside ∷ [] }

one_counted-Reach : Reach (make_barrier 2) one_counted
unfolding make_barrier
one_counted-Reach =
    next (next here (act (lock_seen (make_barrier 2) [] (outside ∷ []) refl refl)))
      (act (increment one_in [] (outside ∷ []) refl))

Reach-IsSound_example : IsSound one_counted
Reach-IsSound_example = Reach-IsSound 2 one_counted-Reach

Reach-moves_example : (u : Barrier) × Move one_counted u
unfolding tally
Reach-moves_example = Reach-moves 2 one_counted one_counted-Reach (omega arith)
