-- ===== src/Timing/Added.antt =====
-- Concurrent calls of Add lose nothing.
use ytsync.Base.{
  ℕ, zero, suc, ◌+◌, ◌≡◌, refl, sym, ap, ◌∙◌, List, [], ◌∷◌, length, min, max, All, arith,
}
use ytsync.Timing.{
  Timing, Pc, add_time, done, load_min, load_max, count, swap_min, swap_max, operation, turn,
  interleave, calls,
}
use ytsync.Timing.Moves.{
  Fine, more, counted, low, high, operation-Fine, operation-more, operation-counted, operation-low,
  operation-high,
}

abbrev pub sum : List ℕ → ℕ
sum [] = 0
sum (d ∷ ds) = d + sum ds

abbrev pub least : List ℕ → ℕ → ℕ
least [] m = m
least (d ∷ ds) m = min d (least ds m)

abbrev pub greatest : List ℕ → ℕ → ℕ
greatest [] m = m
greatest (d ∷ ds) m = max d (greatest ds m)

turn-Fine : (i : ℕ) (ps : List Pc) (t : Timing) → All Fine ps → All Fine (turn i ps t).0
unfolding turn
turn-Fine i [] t f = tt
turn-Fine zero (p ∷ ps) t f = (operation-Fine p t f.0, f.1)
turn-Fine (suc i) (p ∷ ps) t f = (f.0, turn-Fine i ps t f.1)

abbrev fold : (Pc → ℕ → ℕ) → List Pc → ℕ → ℕ
fold f [] m = m
fold f (p ∷ ps) m = f p (fold f ps m)

-- A part of the timing, and what goroutines bring to it in any order, that an operation only moves.
module _ (f : Pc → ℕ → ℕ) (part : Timing → ℕ)
    (swap_ : (p q : Pc) (m : ℕ) → f p (f q m) ≡ f q (f p m))
    (moves : (p : Pc) (t : Timing)
      → Fine p
      → f (operation p t).0 (part (operation p t).1) ≡ f p (part t)) where
  fold-first : (p : Pc) (ps : List Pc) (m : ℕ) → fold f ps (f p m) ≡ f p (fold f ps m)
  fold-first p [] m = refl
  fold-first p (q ∷ ps) m = ap (f q) (fold-first p ps m) ∙ swap_ q p (fold f ps m)

  fold-turn :
      (i : ℕ) (ps : List Pc) (t : Timing)
      → All Fine ps
      → fold f (turn i ps t).0 (part (turn i ps t).1) ≡ fold f ps (part t)
  unfolding turn
  fold-turn i [] t fine = refl
  fold-turn zero (p ∷ ps) t fine =
      sym (fold-first (operation p t).0 ps (part (operation p t).1))
      ∙ (ap (fold f ps) (moves p t fine.0) ∙ fold-first p ps (part t))
  fold-turn (suc i) (p ∷ ps) t fine = ap (f p) (fold-turn i ps t fine.1)

  fold-interleave :
      (is : List ℕ) (ps : List Pc) (t : Timing)
      → All Fine ps
      → fold f (interleave is ps t).0 (part (interleave is ps t).1) ≡ fold f ps (part t)
  unfolding interleave
  fold-interleave [] ps t fine = refl
  fold-interleave (i ∷ is) ps t fine =
      fold-interleave is (turn i ps t).0 (turn i ps t).1 (turn-Fine i ps t fine)
      ∙ fold-turn i ps t fine

abbrev pub IsDone : Pc → Type 0
IsDone (done d) = Unit {0}
IsDone _ = ⊥

-- Goroutines that are done bring nothing.
fold-IsDone :
    (f : Pc → ℕ → ℕ)
    → ((d m : ℕ) → f (done d) m ≡ m)
    → (ps : List Pc) (m : ℕ) → All IsDone ps
    → fold f ps m ≡ m
fold-IsDone f h [] m all_ = refl
fold-IsDone f h (done d ∷ ps) m all_ = h d (fold f ps m) ∙ fold-IsDone f h ps m all_.1
fold-IsDone f h (add_time d ∷ ps) m all_ = absurd all_.0
fold-IsDone f h (load_min d ∷ ps) m all_ = absurd all_.0
fold-IsDone f h (load_max d ∷ ps) m all_ = absurd all_.0
fold-IsDone f h (count d ∷ ps) m all_ = absurd all_.0
fold-IsDone f h (swap_min d old ∷ ps) m all_ = absurd all_.0
fold-IsDone f h (swap_max d old ∷ ps) m all_ = absurd all_.0

calls-Fine : (ds : List ℕ) → All Fine (calls ds)
calls-Fine [] = tt
calls-Fine (d ∷ ds) = (tt, calls-Fine ds)

fold-more : (ds : List ℕ) (m : ℕ) → fold more (calls ds) m ≡ sum ds + m
fold-more [] m = omega arith
fold-more (d ∷ ds) m = omega (arith, fold-more ds m)

fold-counted : (ds : List ℕ) (m : ℕ) → fold counted (calls ds) m ≡ length ds + m
fold-counted [] m = omega arith
fold-counted (d ∷ ds) m = omega (arith, fold-counted ds m)

fold-low : (ds : List ℕ) (m : ℕ) → fold low (calls ds) m ≡ least ds m
fold-low [] m = refl
fold-low (d ∷ ds) m = ap (min d) (fold-low ds m)

fold-high : (ds : List ℕ) (m : ℕ) → fold high (calls ds) m ≡ greatest ds m
fold-high [] m = refl
fold-high (d ∷ ds) m = ap (max d) (fold-high ds m)

more_swap : (p q : Pc) (m : ℕ) → more p (more q m) ≡ more q (more p m)
more_swap p q m = ground arith

counted_swap : (p q : Pc) (m : ℕ) → counted p (counted q m) ≡ counted q (counted p m)
counted_swap p q m = ground arith

low_swap : (p q : Pc) (m : ℕ) → low p (low q m) ≡ low q (low p m)
low_swap p q m = ground arith

high_swap : (p q : Pc) (m : ℕ) → high p (high q m) ≡ high q (high p m)
high_swap p q m = ground arith

module _ (f : Pc → ℕ → ℕ) (part : Timing → ℕ)
    (swap_ : (p q : Pc) (m : ℕ) → f p (f q m) ≡ f q (f p m))
    (moves : (p : Pc) (t : Timing)
      → Fine p
      → f (operation p t).0 (part (operation p t).1) ≡ f p (part t))
    (gone : (d m : ℕ) → f (done d) m ≡ m) where
  finished :
      (ds is : List ℕ) (t : Timing)
      → All IsDone (interleave is (calls ds) t).0
      → part (interleave is (calls ds) t).1 ≡ fold f (calls ds) (part t)
  finished ds is t all_ =
      sym (
        fold-IsDone f gone (interleave is (calls ds) t).0 (part (interleave is (calls ds) t).1)
          all_)
      ∙ fold-interleave f part swap_ moves is (calls ds) t (calls-Fine ds)

-- However the atomic operations of concurrent calls of Add are interleaved, when all calls are done
-- the sum, the count, the minimum and the maximum of the timing are those of all the durations and
-- of what it had before.
pub interleave-calls :
    (ds is : List ℕ) (t : Timing)
    → All IsDone (interleave is (calls ds) t).0
    → ((interleave is (calls ds) t).1.milliseconds ≡ sum ds + t.milliseconds)
      × ((interleave is (calls ds) t).1.invocations ≡ length ds + t.invocations)
      × ((interleave is (calls ds) t).1.min_time ≡ least ds t.min_time)
      × ((interleave is (calls ds) t).1.max_time ≡ greatest ds t.max_time)
interleave-calls ds is t all_ = (
  finished more (λ u. u.milliseconds) more_swap operation-more (λ d m. refl) ds is t all_
      ∙ fold-more ds t.milliseconds,
  finished counted (λ u. u.invocations) counted_swap operation-counted (λ d m. refl) ds is t all_
      ∙ fold-counted ds t.invocations,
  finished low (λ u. u.min_time) low_swap operation-low (λ d m. refl) ds is t all_
      ∙ fold-low ds t.min_time,
  finished high (λ u. u.max_time) high_swap operation-high (λ d m. refl) ds is t all_
      ∙ fold-high ds t.max_time,
)
