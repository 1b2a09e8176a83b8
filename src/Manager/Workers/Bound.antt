-- ===== src/Manager/Workers/Bound.antt =====
-- How many turns the workers can make.
use ytsync.Base.{
  ℕ, zero, suc, ◌+◌, ◌-◌, ◌*◌, ◌≤◌, ◌<◌, ◌≡◌, refl, sym, ap, subst, String, true, ◌∙◌, List, [],
  ◌∷◌, ◌++◌, length, All, max, arith,
}
use ytsync.Manager.State.{Sync}
use ytsync.Manager.Worker.{Video, WorkerEnv, handle_error}
use ytsync.Manager.Worker.Retry.{handle_last}
use ytsync.Manager.Workers.{
  Pc, idle, gone, holding, failing, Shared, System, Turn, leave, receive, drained, give_up, succeed,
  fail, retry, finish, Step, turn, close, interrupt, turns, Run, here, moved, idle_workers, begin,
}

-- The turns that a worker can still make, the receives that follow left out.
abbrev weight : ℕ → Pc → ℕ
weight m idle = 1
weight m gone = 0
weight m (holding v n) = 2 * (m - n) + 1
weight m (failing v n msg) = 2 * (m - n) + 2

abbrev total : ℕ → List Pc → ℕ
total m [] = 0
total m (p ∷ ps) = weight m p + total m ps

total-append : (m : ℕ) (ps qs : List Pc) → total m (ps ++ qs) ≡ total m ps + total m qs
total-append m [] qs = omega arith
total-append m (p ∷ ps) qs = omega (arith, total-append m ps qs)

total-idle_workers : (m n : ℕ) → total m (idle_workers n) ≡ n
total-idle_workers m zero = refl
total-idle_workers m (suc n) = omega (arith, total-idle_workers m n)

abbrev measure : {W : Type 0} → ℕ → System W → ℕ
measure m s = length s.shared.queue * (2 * m + 1) + total m s.workers

-- A worker that holds a video has an attempt left.
abbrev Fine : ℕ → Pc → Type 0
Fine m (holding v n) = n < m
Fine m p = Unit {0}

AllFine-swap :
    (m : ℕ) (before after : List Pc) (p q : Pc)
    → Fine m q
    → All (Fine m) (before ++ p ∷ after)
    → All (Fine m) (before ++ q ∷ after)
AllFine-swap m [] after p q f h = (f, h.1)
AllFine-swap m (b ∷ before) after p q f h = (h.0, AllFine-swap m before after p q f h.1)

AllFine-at :
    (m : ℕ) (before after : List Pc) (p : Pc) → All (Fine m) (before ++ p ∷ after) → Fine m p
AllFine-at m [] after p h = h.0
AllFine-at m (b ∷ before) after p h = AllFine-at m before after p h.1

AllFine-idle_workers : (m n : ℕ) → All (Fine m) (idle_workers n)
AllFine-idle_workers m zero = tt
AllFine-idle_workers m (suc n) = (tt, AllFine-idle_workers m n)

suc_times : (a b : ℕ) → suc a * b ≡ a * b + b
suc_times a b = grind arith

receive-lt : (k t : ℕ) → k * (2 * t + 1) + (2 * (t - 0) + 1) < suc k * (2 * t + 1) + 1
receive-lt k t = omega (arith, suc_times k (2 * t + 1))

module _ {W : Type 0} (env : WorkerEnv W) where
  abbrev pub tries : ℕ
  tries = max 1 env.flags.max_tries

  retry-lt :
      (n : ℕ) (msg : String) (v : Video) (s t : Sync W)
      → handle_error env n msg v s ≡ (true, t)
      → n < env.flags.max_tries
  retry-lt n msg v s t h = ground (arith, handle_last env n msg v s)

  Turn-Fine : {m u : Shared W} {p q : Pc} → Turn env m p u q → Fine tries p → Fine tries q
  Turn-Fine (leave s) f = tt
  Turn-Fine (receive v vs u e g) f = omega arith
  Turn-Fine (drained e c) f = tt
  Turn-Fine (give_up v n s) f = tt
  Turn-Fine (succeed v n s r e) f = tt
  Turn-Fine (fail v n s msg r e) f = tt
  Turn-Fine {m} (retry v n s msg e) f = omega (arith, retry-lt n msg v m.sync s e)
  Turn-Fine (finish v n s msg e) f = tt

  abbrev local : Shared W → Pc → ℕ
  local m p = length m.queue * (2 * tries + 1) + weight tries p

  Turn-lt : {m u : Shared W} {p q : Pc} → Turn env m p u q → Fine tries p → local u q < local m p
  Turn-lt (leave s) f = omega arith
  Turn-lt {m} (receive v vs u e g) f =
      subst
        (λ k. k * (2 * tries + 1) + (2 * (tries - 0) + 1) < length m.queue * (2 * tries + 1) + 1)
        (sym (ap (λ (x : Shared W). length x.queue) g))
        (subst (λ k. length vs * (2 * tries + 1) + (2 * (tries - 0) + 1) < k * (2 * tries + 1) + 1)
          (sym (ap length e)) (receive-lt (length vs) tries))
  Turn-lt (drained e c) f = omega arith
  Turn-lt (give_up v n s) f = omega arith
  Turn-lt (succeed v n s r e) f = omega arith
  Turn-lt (fail v n s msg r e) f = omega (arith, f)
  Turn-lt {m} (retry v n s msg e) f = omega arith
  Turn-lt (finish v n s msg e) f = omega arith

  AllFine : System W → Type 0
  AllFine s = All (Fine tries) s.workers

  Step-AllFine : {s t : System W} → Step env s t → AllFine s → AllFine t
  unfolding AllFine
  Step-AllFine {s} (turn before after p q u at e m) f =
      let here_ = subst (All (Fine tries)) at f in
      subst AllFine (sym e) (
        AllFine-swap tries before after p q (Turn-Fine m (AllFine-at tries before after p here_))
          here_)
  Step-AllFine {s} (close c e) f = subst AllFine (sym e) f
  Step-AllFine {s} (interrupt e) f = subst AllFine (sym e) f

  turn_total :
      (s t : System W) (before after : List Pc) (p q : Pc) (u : Shared W)
      → s.workers ≡ before ++ p ∷ after
      → t ≡ record { shared = u; workers = before ++ q ∷ after }
      → local u q < local s.shared p
      → 1 + measure tries t ≤ measure tries s
  turn_total s t before after p q u at e less =
      let a : total tries s.workers ≡ total tries before + total tries (p ∷ after) =
        ap (total tries) at ∙ total-append tries before (p ∷ after) in
      let b : measure tries t
          ≡ length u.queue * (2 * tries + 1) + total tries (before ++ q ∷ after) =
        ap (measure tries) e in
      omega (arith, a, b, total-append tries before (q ∷ after), less)

  Step-measure :
      {s t : System W} (st : Step env s t)
      → AllFine s
      → turns env st + measure tries t ≤ measure tries s
  unfolding AllFine
  Step-measure {s} {t} (turn before after p q u at e m) f =
      turn_total s t before after p q u at e
        (Turn-lt m (AllFine-at tries before after p (subst (All (Fine tries)) at f)))
  Step-measure {s} {t} (close c e) f =
      let b : measure tries t ≡ 0 * (2 * tries + 1) + total tries s.workers =
        ap (measure tries) e in
      omega (arith, b)
  Step-measure {s} {t} (interrupt e) f =
      let b : measure tries t ≡ measure tries s = ap (measure tries) e in omega (arith, b)

  Run-measure :
      {s t : System W} {n : ℕ}
      → Run env s n t
      → AllFine s
      → AllFine t × (n + measure tries t ≤ measure tries s)
  Run-measure here f = (f, omega arith)
  Run-measure (moved n k t u st r e) f =
      let (fine, less) = Run-measure r f in
      (Step-AllFine st fine, omega (arith, e, less, Step-measure st fine))

  -- However the workers, the producer and interrupts are interleaved, the workers make no more turns
  -- than one for each of them and, for each video, two for each possible attempt and one more.
  pub Run_bound :
      (jobs n : ℕ) (videos : List Video) (s : Sync W) (t : System W)
      → Run env (begin jobs videos s) n t
      → n ≤ length videos * (2 * max 1 env.flags.max_tries + 1) + jobs
  unfolding AllFine
  Run_bound jobs n videos s t r =
      let (_, less) = Run-measure r (AllFine-idle_workers tries jobs) in
      omega (arith, less, total-idle_workers tries jobs)
