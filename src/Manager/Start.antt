-- ===== src/Manager/Start.antt =====
-- manager/manager.go: Start, which fetches the channels of its queues and syncs one after the other
-- with FullCycle, and checkUsedSpace. The files that steer it, the disk, the internal APIs and the
-- reflection of blobs are services; messages to Slack are left out. Start runs until it is told to
-- end, so its loop runs on a number of rounds, and `none` is a manager that goes on.
pub mod Repeats
use ytsync.Base.{
  ℕ, zero, suc, String, Bool, true, false, not, ◌&&◌, ◌||◌, ◌⧺◌, ◌++◌, Option, none, some, List, [],
  ◌∷◌, contains, str_eq, leb, ◌==◌, if◌then◌else◌, Result, ok, err, Method, return, fail, ◌>>=◌,
  ◌>>◌, length,
}
use ytsync.Shared.{YoutubeChannel, is_single_channel_sync}
use ytsync.Shared.Status
use ytsync.Manager.State.{Sync}
use ytsync.Manager.Termination.{
  CycleEnv, full_cycle, set_channel_termination_status, is_interrupted,
}

abbrev pub fatal_errors : List String
fatal_errors =
    "default_wallet already exists" ∷ "WALLET HAS NOT BEEN MOVED TO THE WALLET BACKUP DIR"
    ∷ "NotEnoughFunds" ∷ "no space left on device" ∷ "there was a problem uploading the wallet"
    ∷ "the channel in the wallet is different than the channel in the database"
    ∷ "this channel does not belong to this wallet!"
    ∷ "You already have a stream claim published under the name" ∷ []

pub record StartEnv (W : Type 0) : Type 0 where
  pub cycle : CycleEnv W
  pub should_clean_on_startup : Bool
  pub clean_for_startup : W → Result String (Unit {0}) × W
  -- os.Stat of `.freeze` and of `.update`, and os.Remove of the latter.
  pub file_exists : String → W → Bool × W
  pub remove_update : W → W
  pub sleep : W → W
  -- Whether GetUsedSpace answers 0.90 or more.
  pub is_disk_full : W → Result String Bool × W
  pub disk_full_message : String
  pub expected_one : ℕ → String
  pub fetch_channels : String → W → Result String (List YoutubeChannel) × W
  pub sleep_until_quota_reset : W → W
  pub cleanup_metadata : W → W
  pub reflect_and_clean : W → Result String (Unit {0}) × W

-- The variables of Start; `stopped` is the stop group that the syncs share.
pub record StartState (W : Type 0) : Type 0 where
  pub last_channel : String
  pub second_last_channel : String
  pub sync_count : ℕ
  pub stopped : Bool
  pub world : W

module _ {W : Type 0} where
  abbrev pub with_world : W → StartState W → StartState W
  with_world w t = record t { world = w }

  abbrev pub on_start : {A : Type 0} → (W → Result String A × W) → Method (StartState W) A
  on_start call t = let (r, w) = call t.world in (r, with_world w t)

  -- enqueueChannel
  abbrev pub new_sync : YoutubeChannel → StartState W → Sync W
  new_sync c t = record {
    db_channel_data = c;
    synced_videos = [];
    names = [];
    default_account_id = "";
    hard_video_failure = none;
    state = record {
      blockchain_db_downloaded = false;
      wallet_downloaded = false;
      vpn_started = false;
      new_wallet_created = false;
    };
    stopped = t.stopped;
    sizes = [];
    world = t.world;
  }

  abbrev pub is_looping : YoutubeChannel → StartState W → Bool
  is_looping c t = str_eq t.last_channel c.channel_id && str_eq t.second_last_channel t.last_channel

  abbrev pub noted : YoutubeChannel → StartState W → StartState W
  noted c t = record t { last_channel = c.channel_id; second_last_channel = t.last_channel }

module _ {W : Type 0} (env : StartEnv W) where
  unfoldable pub check_used_space : Method (StartState W) (Unit {0})
  check_used_space = on_start env.is_disk_full >>= λ full.
      if full && not env.cycle.flags.skip_space_check then fail env.disk_full_message else return tt

  -- queuesToSync
  unfoldable pub queues_to_sync : List String
  queues_to_sync =
      let f = env.cycle.flags in
      (if not (str_eq f.status "")
        then Status.syncing ∷ f.status ∷ []
        else if f.sync_update
        then Status.syncing ∷ Status.synced ∷ []
        else Status.syncing ∷ Status.queued ∷ [])
      ++ (if not (str_eq f.secondary_status "") then f.secondary_status ∷ [] else [])

  -- Of a queue that is not drained, one channel is taken, and no further queue is read.
  abbrev pub enqueue_from :
      Method (StartState W) (List YoutubeChannel)
      → Bool
      → List YoutubeChannel
      → Method (StartState W) (List YoutubeChannel)
  enqueue_from rest all [] = rest
  enqueue_from rest true (c ∷ cs) = rest >>= λ ds. return (c ∷ cs ++ ds)
  enqueue_from rest false (c ∷ cs) = return (c ∷ [])

  unfoldable pub drain_queues : List String → Method (StartState W) (List YoutubeChannel)
  drain_queues [] = return []
  drain_queues (q ∷ qs) = on_start (env.fetch_channels q) >>= λ cs.
      enqueue_from (drain_queues qs) (str_eq q Status.failed || str_eq q Status.syncing) cs

  abbrev pub only_one : List YoutubeChannel → Method (StartState W) (List YoutubeChannel)
  only_one cs = if length cs == 1 then return cs else fail (env.expected_one (length cs))

  unfoldable pub channels_to_sync : Method (StartState W) (List YoutubeChannel)
  channels_to_sync =
      if is_single_channel_sync env.cycle.flags
      then on_start (env.fetch_channels "") >>= only_one
      else drain_queues queues_to_sync

  abbrev pub stop_loop : YoutubeChannel → StartState W → StartState W
  stop_loop c t =
      let e =
        "Found channel " ⧺ c.desired_channel_name
        ⧺ " running 3 times, set it to failed, and reprocess later" in
      let (_, s) = set_channel_termination_status env.cycle (some e) (new_sync c t) in
      with_world s.world t

  -- Whether the channel does not count, or an error that ends the manager.
  unfoldable pub after_error : Option String → Method (StartState W) Bool
  after_error none t = (ok false, t)
  after_error (some e) t =
      let u =
        if contains e "quotaExceeded"
        then with_world (env.sleep_until_quota_reset t.world) t
        else t in
      if env.cycle.substring_in_slice e fatal_errors
      then (
        err (env.cycle.prefix_error "@Nikooo777 this requires manual intervention! Exiting..." e),
        u,
      )
      else (ok (contains e "this youtube channel is being managed by another server"), u)

  abbrev pub reflect : Method (StartState W) (Unit {0})
  reflect t =
      let (r, w) = env.reflect_and_clean (env.cleanup_metadata t.world) in (r, with_world w t)

  abbrev pub prefixed_reflect :
      Result String (Unit {0}) × StartState W → Result String (Unit {0}) × StartState W
  prefixed_reflect (ok _, t) = (ok tt, t)
  prefixed_reflect (err e, t) =
      (err (env.cycle.prefix_error "@Nikooo777 something went wrong while reflecting blobs" e), t)

  abbrev pub count_channel : Bool → StartState W → StartState W
  count_channel should_not_count t =
      if should_not_count then t else record t { sync_count = suc t.sync_count }

  abbrev pub has_reached_limit : StartState W → Bool
  has_reached_limit t = not (env.cycle.flags.limit == 0) && leb env.cycle.flags.limit t.sync_count

  -- The end of a turn: whether the loop over the channels is left, and the manager ends.
  unfoldable pub next_or_leave : Method (StartState W) Bool → Sync W → Method (StartState W) Bool
  next_or_leave next s t =
      let (frozen, w) = env.file_exists ".freeze" t.world in
      let u = with_world w t in
      let rest = next u in
      if frozen
      then (ok false, u)
      else if is_interrupted env.cycle (record s { world = w }) || has_reached_limit u
      then (ok true, u)
      else rest

  abbrev pub after_cycle :
      Method (StartState W) Bool → Option String × Sync W → Method (StartState W) Bool
  after_cycle next (e, s) = do
    λ t. (ok tt, record t { stopped = s.stopped; world = s.world })
    should_not_count ← after_error e
    λ t. prefixed_reflect (reflect t)
    λ t. next_or_leave next s (count_channel should_not_count t)

  unfoldable pub sync_channel :
      YoutubeChannel → Method (StartState W) Bool → Method (StartState W) Bool
  sync_channel c next t =
      let u = noted c t in after_cycle next (full_cycle env.cycle (new_sync c u)) u

  -- The loop over the channels; its value is whether the manager ends.
  unfoldable pub process_channels : List YoutubeChannel → Method (StartState W) Bool
  process_channels [] t = (ok false, t)
  process_channels (c ∷ cs) t =
      let (update, w) = env.file_exists ".update" t.world in
      let u = with_world w t in
      let skipped = process_channels cs (stop_loop c u) in
      let synced = sync_channel c (process_channels cs) u in
      if update
      then (ok true, with_world (env.remove_update w) u)
      else if is_looping c u
      then skipped
      else synced

  abbrev pub pause_if_none : List YoutubeChannel → Method (StartState W) (Unit {0})
  pause_if_none [] t = (ok tt, with_world (env.sleep t.world) t)
  pause_if_none (_ ∷ _) t = (ok tt, t)

  unfoldable pub sync_channels : Method (StartState W) Bool
  sync_channels = do
    check_used_space
    cs ← channels_to_sync
    pause_if_none cs
    interrupted ← process_channels cs
    return (is_single_channel_sync env.cycle.flags || interrupted || env.cycle.flags.single_run)

  -- One round of the loop: whether it is the last.
  unfoldable pub start_round : Method (StartState W) Bool
  start_round t =
      let (frozen, w) = env.file_exists ".freeze" t.world in
      let u = with_world w t in
      let r = sync_channels u in if frozen then (ok false, with_world (env.sleep w) u) else r

  abbrev pub after_round :
      (StartState W → Option (Result String (Unit {0})) × StartState W)
      → Result String Bool × StartState W
      → Option (Result String (Unit {0})) × StartState W
  after_round next (err e, t) = (some (err e), t)
  after_round next (ok true, t) = (some (ok tt), t)
  after_round next (ok false, t) = next t

  unfoldable pub rounds : ℕ → StartState W → Option (Result String (Unit {0})) × StartState W
  rounds zero t = (none, t)
  rounds (suc n) t = after_round (rounds n) (start_round t)

  abbrev pub first_state : W → StartState W
  first_state w = record {
    last_channel = "";
    second_last_channel = "";
    sync_count = 0;
    stopped = false;
    world = w;
  }

  abbrev pub after_cleanup :
      ℕ → Result String (Unit {0}) × W → Option (Result String (Unit {0})) × StartState W
  after_cleanup n (err e, w) = (some (err e), first_state w)
  after_cleanup n (ok _, w) = rounds n (first_state w)

  -- Start, for so many rounds.
  unfoldable pub start : ℕ → W → Option (Result String (Unit {0})) × StartState W
  start n w =
      let cleaned = after_cleanup n (env.clean_for_startup w) in
      let started = rounds n (first_state w) in
      if env.should_clean_on_startup then cleaned else started
