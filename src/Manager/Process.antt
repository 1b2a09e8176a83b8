-- ===== src/Manager/Process.antt =====
-- processVideo of manager/ytsync.go. The check of the disk, v.Sync and the internal APIs are
-- arguments. v.Sync uses the namer and services, and sets the size of the video; a size that is not
-- set makes the last step panic, which processVideo turns into an error.
pub mod Once
use ytsync.Base.{
  ℕ, ◌*◌, String, Bool, true, false, not, ◌&&◌, Option, none, some, List, leb, ltb, lookup, has_key,
  insert, if◌then◌else◌, Result, ok, err, Method, return, resume, ◌>>=◌, ◌>>◌,
}
use ytsync.Namer.{Names}
use ytsync.Shared.{Fee, SyncFlags, VideoStatus, videos_to_sync, never_retry_failures}
use ytsync.Shared.Status
use ytsync.Manager.State.{
  SyncedVideo, Sync, on_world, append_synced_video, or_no_video, should_transfer,
}
use ytsync.Manager.Accounts.{AccountEnv, get_default_account}
use ytsync.Manager.Worker.{Video, existing}

-- sources.SyncParams; amounts are in units of 0.00000001 LBC, lengths in nanoseconds.
pub record SyncParams : Type 0 where
  pub claim_address : String
  pub amount : ℕ
  pub channel_id : String
  pub max_video_size : ℕ
  pub max_video_length : ℕ
  pub fee : Option Fee
  pub default_account : String

pub record SyncSummary : Type 0 where
  pub claim_id : String
  pub claim_name : String

abbrev pub publish_amount : ℕ
publish_amount = 200000

abbrev pub minute : ℕ
minute = 60000000000

-- What a call of v.Sync leaves.
pub record SyncOutcome (W : Type 0) : Type 0 where
  pub result : Result String SyncSummary
  pub size : Option ℕ
  pub names : Names
  pub world : W

pub record ProcessEnv (W : Type 0) : Type 0 where
  pub flags : SyncFlags
  -- The order in which the map of quotas is walked.
  pub quotas : List (ℕ × ℕ)
  pub substring_in_slice : String → List String → Bool
  pub accounts : AccountEnv W
  pub check_used_space : W → Result String (Unit {0}) × W
  pub sync_video : Video → SyncParams → SyncedVideo → Bool → Names → W → SyncOutcome W
  pub mark_video_status : VideoStatus → W → Result String (Unit {0}) × W

abbrev pub nil_dereference : String
nil_dereference = "runtime error: invalid memory address or nil pointer dereference"

abbrev pub new_metadata_version : ℕ
new_metadata_version = 2

module _ {W : Type 0} (env : ProcessEnv W) where
  abbrev pub requires_upgrade : Video → Sync W → Bool
  requires_upgrade v s =
      has_key v.id s.synced_videos
      && env.flags.upgrade_metadata
      && ltb (existing v s).metadata_version new_metadata_version

  -- The four early returns.
  unfoldable pub skips : Video → Sync W → Bool
  skips v s =
      let known = has_key v.id s.synced_videos in
      if known
        && not (existing v s).published
        && env.substring_in_slice (existing v s).failure_reason never_retry_failures
      then true
      else if known && (existing v s).published && not (requires_upgrade v s)
      then true
      else if known && leb new_metadata_version (existing v s).metadata_version
      then true
      else not (requires_upgrade v s)
        && leb (videos_to_sync env.quotas env.flags s.db_channel_data.total_subscribers)
            v.playlist_position

  abbrev pub sync_params : String → Sync W → SyncParams
  sync_params account s = record {
    claim_address = s.db_channel_data.publish_address.address;
    amount = publish_amount;
    channel_id = s.db_channel_data.channel_claim_id;
    max_video_size = s.db_channel_data.size_limit;
    max_video_length = s.db_channel_data.length_limit * minute;
    fee = s.db_channel_data.fee;
    default_account = account;
  }

  abbrev pub published_status : Video → SyncSummary → ℕ → Sync W → VideoStatus
  published_status v summary size s = record {
    channel_id = s.db_channel_data.channel_id;
    video_id = v.id;
    status = Status.video_published;
    claim_id = summary.claim_id;
    claim_name = summary.claim_name;
    failure_reason = "";
    size = some size;
    metadata_version = Status.latest_metadata_version;
    is_transferred = some (should_transfer env.flags s);
  }

  -- An error of MarkVideoStatus is only logged.
  unfoldable pub record_published : Video → SyncSummary → ℕ → Method (Sync W) (Unit {0})
  unfolding append_synced_video
  record_published v summary size s =
      let t =
        append_synced_video v.id true "" summary.claim_name summary.claim_id new_metadata_version
          size s in
      (ok tt, (on_world (env.mark_video_status (published_status v summary size s)) t).1)

  abbrev pub after_sync : Video → Result String SyncSummary → Option ℕ → Method (Sync W) (Unit {0})
  after_sync v (err e) size s = (err e, s)
  after_sync v (ok summary) none s = (err nil_dereference, s)
  after_sync v (ok summary) (some size) s = record_published v summary size s

  -- The size field of the video, once it is set.
  abbrev pub set_size : Video → Option ℕ → Sync W → Sync W
  set_size v none s = s
  set_size v (some size) s = record s { sizes = insert v.id size s.sizes }

  unfoldable pub sync_and_record : Video → String → Method (Sync W) (Unit {0})
  sync_and_record v account s =
      let o =
        env.sync_video v (sync_params account s) (existing v s) (requires_upgrade v s) s.names
          s.world in
      after_sync v o.result o.size
        (set_size v o.size (record s { names = o.names; world = o.world }))

  unfoldable pub process_video : Video → Method (Sync W) (Unit {0})
  process_video v s =
      let go =
        (do
          on_world env.check_used_space
          account ← get_default_account env.accounts
          sync_and_record v account)
          s in
      if skips v s then (ok tt, s) else go
