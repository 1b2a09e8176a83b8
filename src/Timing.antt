-- ===== src/Timing.antt =====
-- timing/timing.go: the timings of the components. Add is called by many goroutines at a time, so it
-- is a machine of one atomic operation per step; which goroutine makes the next one is a schedule.
-- Durations are numbers of milliseconds; the metrics and the report in the log are not modelled.
pub mod Moves
pub mod Added
mod Examples
use ytsync.Base.{
  ℕ, zero, suc, ◌+◌, ◌*◌, String, Bool, Option, none, some, List, [], ◌∷◌, map, Dict, lookup,
  insert, ltb, ◌==◌, if◌then◌else◌,
}

pub record Timing : Type 0 where
  pub milliseconds : ℕ
  pub min_time : ℕ
  pub max_time : ℕ
  pub invocations : ℕ

abbrev pub new_timing : Timing
new_timing = record { milliseconds = 0; min_time = 99999999; max_time = 0; invocations = 0 }

abbrev pub or_new : Option Timing → Timing
or_new (some t) = t
or_new none = new_timing

-- sync.Map's LoadOrStore: the timing, and the map that has it.
unfoldable pub timed_component : String → Dict Timing → Timing × Dict Timing
timed_component component timings =
    let t = or_new (lookup component timings) in
    (t, elim (lookup component timings) [ some _ ↦ timings | none ↦ insert component t timings ])

abbrev pub clear_timings : Dict Timing → Dict Timing
clear_timings timings = []

-- Where a goroutine that adds `d` stands: before the addition to the sum, before a look at the
-- minimum or a swap of the one that it saw, the same for the maximum, before the count, after it.
pub data Pc : Type 0 where
  add_time load_min load_max count done : ℕ → Pc
  swap_min swap_max : ℕ → ℕ → Pc

-- One atomic operation, and the tests after it.
unfoldable pub operation : Pc → Timing → Pc × Timing
operation (add_time d) t = (load_min d, record t { milliseconds = t.milliseconds + d })
operation (load_min d) t = (if ltb d t.min_time then swap_min d t.min_time else load_max d, t)
operation (swap_min d old) t =
    if t.min_time == old then (load_max d, record t { min_time = d }) else (load_min d, t)
operation (load_max d) t = (if ltb t.max_time d then swap_max d t.max_time else count d, t)
operation (swap_max d old) t =
    if t.max_time == old then (count d, record t { max_time = d }) else (load_max d, t)
operation (count d) t = (done d, record t { invocations = suc t.invocations })
operation (done d) t = (done d, t)

-- The next operation of the goroutine with this number.
unfoldable pub turn : ℕ → List Pc → Timing → List Pc × Timing
turn i [] t = ([], t)
turn zero (p ∷ ps) t = let (q, u) = operation p t in (q ∷ ps, u)
turn (suc i) (p ∷ ps) t = let (qs, u) = turn i ps t in (p ∷ qs, u)

unfoldable pub interleave : List ℕ → List Pc → Timing → List Pc × Timing
interleave [] ps t = (ps, t)
interleave (i ∷ is) ps t = let (qs, u) = turn i ps t in interleave is qs u

-- The goroutines that call Add with these durations.
abbrev pub calls : List ℕ → List Pc
calls ds = map add_time ds

abbrev pub get : Timing → ℕ
get t = t.milliseconds * 1000000
