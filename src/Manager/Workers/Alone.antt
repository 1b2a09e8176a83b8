-- ===== src/Manager/Workers/Alone.antt =====
-- One worker alone does what start_worker says.
use ytsync.Base.{
  ℕ, zero, suc, ◌+◌, ◌≤◌, ◌<◌, ◌≡◌, refl, String, Bool, true, false, List, [], ◌∷◌, max, inl, inr,
  Bool-cases, Result, ok, err, arith,
}
use ytsync.Manager.State.{Sync}
use ytsync.Manager.Worker.{
  Video, WorkerEnv, Next, stop_worker, next_video, is_stopped, handle_error, again_or_next,
  after_process, attempt, continue_with, start_worker,
}
use ytsync.Manager.Worker.Retry.{handle_last}
use ytsync.Manager.Workers.{
  Pc, idle, gone, holding, failing, Shared, System, with_sync, Turn, leave, receive, drained,
  give_up, succeed, fail, retry, finish, turn, close, Run, here, moved, begin,
}

abbrev place : Next → Pc
place stop_worker = gone
place next_video = idle

module _ {W : Type 0} (env : WorkerEnv W) (first : System W) where
  -- A run that has come to a single worker.
  abbrev At : Shared W → Pc → Type 0
  At m p = (n : ℕ) × Run env first n (record { shared = m; workers = p ∷ [] })

  then_turn : {m u : Shared W} {p q : Pc} → At m p → Turn env m p u q → At u q
  then_turn {m} {u} {p} {q} (n, r) t =
      (suc n, moved n (suc n) _ _ (turn [] [] p q u refl refl t) r (omega arith))

  -- What an attempt has come to.
  abbrev Arrived : Shared W → Next × Sync W → Type 0
  Arrived m r = At (with_sync r.1 m) (place r.0)

  handled :
      (fuel k : ℕ) (v : Video) (m : Shared W) (msg : String) (h : Bool × Sync W)
      → handle_error env (suc k) msg v m.sync ≡ h
      → At m (failing v (suc k) msg)
      → (h.0 ≡ true
          → At (with_sync h.1 m) (holding v (suc k))
          → Arrived m (attempt env fuel (suc k) v h.1))
      → Arrived m (again_or_next env (attempt env fuel (suc k) v) h)
  handled fuel k v m msg (true, s) e a again = again refl (then_turn a (retry v (suc k) s msg e))
  handled fuel k v m msg (false, s) e a again = then_turn a (finish v (suc k) s msg e)

  processed :
      (fuel k : ℕ) (v : Video) (m : Shared W) (r : Result String (Unit {0}) × Sync W)
      → is_stopped env m.sync ≡ false
      → env.process_video v m.sync ≡ r
      → At m (holding v k)
      → ((msg : String) (t s : Sync W)
          → handle_error env (suc k) msg v t ≡ (true, s)
          → At (with_sync s m) (holding v (suc k))
          → Arrived m (attempt env fuel (suc k) v s))
      → Arrived m (after_process env (attempt env fuel (suc k) v) (suc k) v r)
  unfolding after_process
  processed fuel k v m (ok tt, s) running e a again = then_turn a (succeed v k s running e)
  processed fuel k v m (err msg, s) running e a again =
      let h = handle_error env (suc k) msg v s in
      handled fuel k v (with_sync s m) msg h refl (then_turn a (fail v k s msg running e))
        (λ yes_. again msg s h.1 (ground (arith, yes_)))

  attempted :
      (fuel k : ℕ) (v : Video) (m : Shared W)
      → 0 < fuel
      → env.flags.max_tries ≤ k + fuel
      → At m (holding v k)
      → Arrived m (attempt env fuel k v m.sync)
  unfolding attempt
  attempted zero k v m some_ enough a = absurd (omega arith)
  attempted (suc fuel) k v m some_ enough a = elim (Bool-cases (is_stopped env m.sync)) [
    | inl e ↦ rw e (then_turn a (give_up v k e))
    | inr e ↦ rw e (
        processed fuel k v m (env.process_video v m.sync) e refl a (λ msg t s h b.
          attempted fuel (suc k) v (with_sync s m)
            (ground (arith, h, enough, handle_last env (suc k) msg v t)) (omega arith) b))
  ]

  -- Where the worker has returned.
  abbrev Done : Sync W → Type 0
  Done s = (u : Shared W) × (u.sync ≡ s) × At u gone

  continued :
      (vs : List Video) (m : Shared W) (r : Next × Sync W)
      → Arrived m r
      → ((s : Sync W) → At (with_sync s m) idle → Done (start_worker env vs s))
      → Done (continue_with env (start_worker env vs) r)
  continued vs m (stop_worker, s) a rest = (with_sync s m, refl, a)
  continued vs m (next_video, s) a rest = rest s a

  worked :
      (vs : List Video) (m : Shared W)
      → m.queue ≡ vs
      → At m idle
      → Done (start_worker env vs m.sync)
  unfolding start_worker
  worked [] m e (n, r) =
      let m' : Shared W = record m { queue = []; closed = true } in
      let closed_ : At m' idle = (n, moved n n _ _ (close (inl e) refl) r (omega arith)) in
      (m', refl, then_turn closed_ (drained refl refl))
  worked (v ∷ vs) m e a = elim (Bool-cases (is_stopped env m.sync)) [
    | inl s ↦ rw s (m, refl, then_turn a (leave s))
    | inr s ↦ rw s (
        let m' : Shared W = record m { queue = vs } in
        continued vs m' (attempt env (max 1 env.flags.max_tries) 0 v m.sync)
          (attempted (max 1 env.flags.max_tries) 0 v m' (omega arith) (omega arith)
            (then_turn a (receive v vs m' e refl)))
          (λ t b. worked vs (with_sync t m') refl b))
  ]

-- The sequential worker is one of the interleavings: from the beginning with one worker there is a run
-- to a state in which this worker has returned and the sync is what start_worker makes of it.
pub start_worker-Run :
    {W : Type 0} (env : WorkerEnv W) (videos : List Video) (s : Sync W)
    → (n : ℕ) × (u : Shared W) × (u.sync ≡ start_worker env videos s)
      × Run env (begin 1 videos s) n (record { shared = u; workers = gone ∷ [] })
start_worker-Run {W} env videos s =
    let m : Shared W = record { queue = videos; closed = false; sync = s } in
    let (u, same, (n, r)) = worked env (begin 1 videos s) videos m refl (0, here) in (n, u, same, r)
