-- ===== src/Timing/Examples.antt =====
-- Two calls whose swaps of the minimum collide.
use ytsync.Base.{ℕ, ◌≡◌, ◌+◌, List, [], ◌∷◌, length}
use ytsync.Timing.{Timing, new_timing, operation, turn, interleave, calls}
use ytsync.Timing.Added.{sum, least, greatest, interleave-calls}

abbrev schedule : List ℕ
schedule = 0 ∷ 1 ∷ 0 ∷ 1 ∷ 0 ∷ 1 ∷ 1 ∷ 1 ∷ 0 ∷ 0 ∷ 1 ∷ 0 ∷ 1 ∷ 0 ∷ 0 ∷ 1 ∷ 1 ∷ 1 ∷ []

abbrev after : Timing
after = (interleave schedule (calls (5 ∷ 3 ∷ [])) new_timing).1

interleave-calls_example :
    (after.milliseconds ≡ sum (5 ∷ 3 ∷ []) + 0)
    × (after.invocations ≡ length {A = ℕ} (5 ∷ 3 ∷ []) + 0)
    × (after.min_time ≡ least (5 ∷ 3 ∷ []) 99999999)
    × (after.max_time ≡ greatest (5 ∷ 3 ∷ []) 0)
unfolding interleave turn operation
interleave-calls_example = interleave-calls (5 ∷ 3 ∷ []) schedule new_timing ((tt, (tt, tt)))
