-- ===== src/Manager/Workers.antt =====
-- The workers of doSync and the producer of enqueueYoutubeVideos in manager/ytsync.go, which share the
-- state of the sync and a queue without a buffer. One step is one turn of a worker: a look at the stop
-- channel, a receive, an attempt, or what follows its error; the calls inside a turn are not
-- interleaved. Other goroutines may stop the group at any time.
pub mod Exclusive
pub mod Bound
pub mod Alone
use ytsync.Base.{
  ◌+◌, ℕ, zero, suc, String, Bool, true, false, List, [], ◌∷◌, ◌++◌, ◌≡◌, ◌⊎◌, Result, ok, err,
}
use ytsync.Manager.State.{Sync, stop}
use ytsync.Manager.Worker.{Video, WorkerEnv, is_stopped, handle_error}

-- Where a worker stands; `n` attempts of its video were made.
pub data Pc : Type 0 where
  idle gone : Pc
  holding : Video → ℕ → Pc
  failing : Video → ℕ → String → Pc

-- The videos that are not sent yet, and whether the queue is closed.
pub record Shared (W : Type 0) : Type 0 where
  pub queue : List Video
  pub closed : Bool
  pub sync : Sync W

pub record System (W : Type 0) : Type 0 where
  pub shared : Shared W
  pub workers : List Pc

abbrev pub with_sync : {W : Type 0} → Sync W → Shared W → Shared W
with_sync s m = record m { sync = s }

module _ {W : Type 0} (env : WorkerEnv W) where
  -- A turn of one worker. Both the receive and the stop channel may be ready: either is taken.
  pub data Turn (m : Shared W) : Pc → Shared W → Pc → Type 0 where
    leave : is_stopped env m.sync ≡ true → Turn m idle m gone
    receive :
        (v : Video) (vs : List Video) (u : Shared W)
        → m.queue ≡ v ∷ vs
        → u ≡ record m { queue = vs }
        → Turn m idle u (holding v 0)
    drained : m.queue ≡ [] → m.closed ≡ true → Turn m idle m gone
    give_up : (v : Video) (n : ℕ) → is_stopped env m.sync ≡ true → Turn m (holding v n) m gone
    succeed :
        (v : Video) (n : ℕ) (s : Sync W)
        → is_stopped env m.sync ≡ false
        → env.process_video v m.sync ≡ (ok tt, s)
        → Turn m (holding v n) (with_sync s m) idle
    fail :
        (v : Video) (n : ℕ) (s : Sync W) (msg : String)
        → is_stopped env m.sync ≡ false
        → env.process_video v m.sync ≡ (err msg, s)
        → Turn m (holding v n) (with_sync s m) (failing v (suc n) msg)
    retry :
        (v : Video) (n : ℕ) (s : Sync W) (msg : String)
        → handle_error env n msg v m.sync ≡ (true, s)
        → Turn m (failing v n msg) (with_sync s m) (holding v n)
    finish :
        (v : Video) (n : ℕ) (s : Sync W) (msg : String)
        → handle_error env n msg v m.sync ≡ (false, s)
        → Turn m (failing v n msg) (with_sync s m) idle

  -- A step: a turn, the producer that closes the queue when it has sent all or was stopped, or a stop
  -- from elsewhere.
  pub data Step (s t : System W) : Type 0 where
    turn :
        (before after : List Pc) (p q : Pc) (u : Shared W)
        → s.workers ≡ before ++ p ∷ after
        → t ≡ record { shared = u; workers = before ++ q ∷ after }
        → Turn s.shared p u q
        → Step s t
    close :
        (s.shared.queue ≡ []) ⊎ (is_stopped env s.shared.sync ≡ true)
        → t ≡ record s { shared = record s.shared { queue = []; closed = true } }
        → Step s t
    interrupt : t ≡ record s { shared = with_sync (stop s.shared.sync) s.shared } → Step s t

  abbrev pub turns : {s t : System W} → Step s t → ℕ
  turns (turn before after p q u e f m) = 1
  turns (close c e) = 0
  turns (interrupt e) = 0

  -- A run, with the number of its turns.
  pub data Run (s : System W) : ℕ → System W → Type 0 where
    here : Run s 0 s
    moved : (n k : ℕ) (t u : System W) (st : Step t u) → Run s n t → k ≡ turns st + n → Run s k u

abbrev pub idle_workers : ℕ → List Pc
idle_workers zero = []
idle_workers (suc n) = idle ∷ idle_workers n

-- The beginning, with so many workers.
abbrev pub begin : {W : Type 0} → ℕ → List Video → Sync W → System W
begin n videos s = record {
  shared = record { queue = videos; closed = false; sync = s };
  workers = idle_workers n;
}
