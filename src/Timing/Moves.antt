-- ===== src/Timing/Moves.antt =====
-- What one operation of Add moves from the goroutine to the timing.
use ytsync.Base.{ℕ, suc, ◌+◌, ◌<◌, ◌≡◌, refl, min, max, arith, ltb, ◌==◌, Bool-cases, inl, inr}
use ytsync.Timing.{
  Timing, Pc, add_time, load_min, load_max, count, done, swap_min, swap_max, operation,
}

-- What a goroutine still brings to the sum, the count, the minimum and the maximum.
abbrev pub more : Pc → ℕ → ℕ
more (add_time d) m = d + m
more _ m = m

abbrev pub counted : Pc → ℕ → ℕ
counted (done d) m = m
counted _ m = suc m

abbrev pub low : Pc → ℕ → ℕ
low (add_time d) m = min d m
low (load_min d) m = min d m
low (swap_min d old) m = min d m
low _ m = m

abbrev pub high : Pc → ℕ → ℕ
high (count d) m = m
high (done d) m = m
high (add_time d) m = max d m
high (load_min d) m = max d m
high (swap_min d old) m = max d m
high (load_max d) m = max d m
high (swap_max d old) m = max d m

abbrev pub Fine : Pc → Type 0
Fine (swap_min d old) = d < old
Fine (swap_max d old) = old < d
Fine _ = Unit {0}

pub operation-Fine : (p : Pc) (t : Timing) → Fine p → Fine (operation p t).0
unfolding operation
operation-Fine (add_time d) t f = tt
operation-Fine (load_min d) t f = elim (Bool-cases (ltb d t.min_time)) [
  | inl e ↦ rw e (ground (arith, e))
  | inr e ↦ rw e tt
]
operation-Fine (swap_min d old) t f = elim (Bool-cases (t.min_time == old)) [
  | inl e ↦ rw e tt
  | inr e ↦ rw e tt
]
operation-Fine (load_max d) t f = elim (Bool-cases (ltb t.max_time d)) [
  | inl e ↦ rw e (ground (arith, e))
  | inr e ↦ rw e tt
]
operation-Fine (swap_max d old) t f = elim (Bool-cases (t.max_time == old)) [
  | inl e ↦ rw e tt
  | inr e ↦ rw e tt
]
operation-Fine (count d) t f = tt
operation-Fine (done d) t f = tt

pub operation-more :
    (p : Pc) (t : Timing)
    → Fine p
    → more (operation p t).0 (operation p t).1.milliseconds ≡ more p t.milliseconds
unfolding operation
operation-more (add_time d) t f = omega arith
operation-more (load_min d) t f = ground arith
operation-more (swap_min d old) t f = ground arith
operation-more (load_max d) t f = ground arith
operation-more (swap_max d old) t f = ground arith
operation-more (count d) t f = refl
operation-more (done d) t f = refl

pub operation-counted :
    (p : Pc) (t : Timing)
    → Fine p
    → counted (operation p t).0 (operation p t).1.invocations ≡ counted p t.invocations
unfolding operation
operation-counted (add_time d) t f = refl
operation-counted (load_min d) t f = ground arith
operation-counted (swap_min d old) t f = ground arith
operation-counted (load_max d) t f = ground arith
operation-counted (swap_max d old) t f = ground arith
operation-counted (count d) t f = refl
operation-counted (done d) t f = refl

pub operation-low :
    (p : Pc) (t : Timing)
    → Fine p
    → low (operation p t).0 (operation p t).1.min_time ≡ low p t.min_time
unfolding operation
operation-low (add_time d) t f = refl
operation-low (load_min d) t f = ground arith
operation-low (swap_min d old) t f = ground (arith, f)
operation-low (load_max d) t f = ground arith
operation-low (swap_max d old) t f = ground arith
operation-low (count d) t f = refl
operation-low (done d) t f = refl

pub operation-high :
    (p : Pc) (t : Timing)
    → Fine p
    → high (operation p t).0 (operation p t).1.max_time ≡ high p t.max_time
unfolding operation
operation-high (add_time d) t f = refl
operation-high (load_min d) t f = ground arith
operation-high (swap_min d old) t f = ground arith
operation-high (load_max d) t f = ground arith
operation-high (swap_max d old) t f = ground (arith, f)
operation-high (count d) t f = refl
operation-high (done d) t f = refl
