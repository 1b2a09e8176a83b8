-- ===== src/Manager/Examples/Workers.antt =====
-- Two workers that each take a video, and one worker alone.
use ytsync.Base.{false, eq_iff, ◌*◌, ℕ, ◌≡◌, refl, ◌+◌, ◌≤◌, List, [], ◌∷◌, length, max, arith}
use ytsync.Manager.Worker.{Video, start_worker}
use ytsync.Manager.Workers.{
  idle, gone, holding, Shared, System, receive, turn, Run, here, moved, begin,
}
use ytsync.Manager.Workers.Bound.{Run_bound}
use ytsync.Manager.Workers.Exclusive.{Different, Run_exclusive, ids_of, all_ids}
use ytsync.Manager.Workers.Alone.{start_worker-Run}
use ytsync.Manager.Examples.{Log, start}
use ytsync.Manager.Examples.Videos.{video, other, worker}

abbrev left : List Video → Shared Log
left queue = record { queue = queue; closed = false; sync = start }

abbrev first_taken : System Log
first_taken = record { shared = left (other ∷ []); workers = holding video 0 ∷ idle ∷ [] }

abbrev both_taken : System Log
both_taken = record { shared = left []; workers = holding video 0 ∷ holding other 0 ∷ [] }

abbrev taking : Run (worker "no luck") (begin 2 (video ∷ other ∷ []) start) 2 both_taken
taking =
    moved 1 2 first_taken both_taken
      (turn (holding video 0 ∷ []) [] idle (holding other 0) (left []) refl refl
        (receive other [] (left []) refl refl))
      (moved 0 1 (begin 2 (video ∷ other ∷ []) start) first_taken
        (turn [] (idle ∷ []) idle (holding video 0) (left (other ∷ [])) refl refl
          (receive video (other ∷ []) (left (other ∷ [])) refl refl))
        here refl)
      refl

Run_bound_example : 2 ≤ length (video ∷ other ∷ []) * (2 * max 1 2 + 1) + 2
Run_bound_example = Run_bound (worker "no luck") 2 2 (video ∷ other ∷ []) start both_taken taking

start_worker-Run_example :
    (n : ℕ) × (u : Shared Log) × (u.sync
      ≡ start_worker (worker "no luck") (video ∷ other ∷ []) start)
    × Run
        (worker "no luck")
        (begin 1 (video ∷ other ∷ []) start)
        n
        (record { shared = u; workers = gone ∷ [] })
start_worker-Run_example = start_worker-Run (worker "no luck") (video ∷ other ∷ []) start

two_ids : Different (ids_of (video ∷ other ∷ []))
unfolding Different ids_of
two_ids = (((λ e. absurd (ground (arith, e, eq_iff "v1" "v2"))), tt), (tt, tt))

Run_exclusive_example : Different (all_ids (worker "no luck") both_taken)
Run_exclusive_example =
    Run_exclusive (worker "no luck") 2 2 (video ∷ other ∷ []) start both_taken two_ids taking
