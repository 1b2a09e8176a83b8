-- ===== src/Manager/State.antt =====
-- The state of a channel's sync: the Sync struct of manager/ytsync.go and what its methods share.
-- The daemon, the internal APIs and the file system are a world of any type `W`.
use ytsync.Base.{
  ℕ, String, Bool, true, false, not, ◌&&◌, Option, none, some, Dict, insert, leb, ◌==◌, str_eq,
  Result, Method,
}
use ytsync.Shared.{YoutubeChannel, SyncFlags}
use ytsync.Shared.Status.{transfer_pending}
use ytsync.Namer.{Names}

-- sdk.SyncedVideo
pub record SyncedVideo : Type 0 where
  pub video_id : String
  pub published : Bool
  pub failure_reason : String
  pub claim_name : String
  pub claim_id : String
  pub size : ℕ
  pub metadata_version : ℕ
  pub transferred : Bool

-- The zero value that a Go map yields for a key that it does not have.
abbrev pub no_video : SyncedVideo
no_video = record {
  video_id = "";
  published = false;
  failure_reason = "";
  claim_name = "";
  claim_id = "";
  size = 0;
  metadata_version = 0;
  transferred = false;
}

pub record RunState : Type 0 where
  pub blockchain_db_downloaded : Bool
  pub wallet_downloaded : Bool
  pub vpn_started : Bool
  pub new_wallet_created : Bool

pub record Sync (W : Type 0) : Type 0 where
  pub db_channel_data : YoutubeChannel
  pub synced_videos : Dict SyncedVideo
  pub names : Names
  pub default_account_id : String
  pub hard_video_failure : Option String
  pub state : RunState
  -- The stop group: whether some goroutine has called Stop.
  pub stopped : Bool
  -- The size field of each video object, by the video's id.
  pub sizes : Dict ℕ
  pub world : W

abbrev pub or_reason : Option String → String → Option String
or_reason none reason = some reason
or_reason (some first) reason = some first

module _ {W : Type 0} where
  -- A call of a service, which sees nothing of the struct.
  abbrev pub on_world : {A : Type 0} → (W → Result String A × W) → Method (Sync W) A
  on_world call s = let (r, w) = call s.world in (r, record s { world = w })

  -- flagFailure: the first reason stays.
  unfoldable pub flag_failure : String → Sync W → Sync W
  flag_failure reason s = record s { hard_video_failure = or_reason s.hard_video_failure reason }

  -- s.grp.Stop()
  abbrev pub stop : Sync W → Sync W
  stop s = record s { stopped = true }

  unfoldable pub append_synced_video :
      String → Bool → String → String → String → ℕ → ℕ → Sync W → Sync W
  append_synced_video id published reason name claim_id version size s = record s {
    synced_videos =
        insert id
          (record {
            video_id = id;
            published = published;
            failure_reason = reason;
            claim_name = name;
            claim_id = claim_id;
            size = size;
            metadata_version = version;
            transferred = false;
          })
          s.synced_videos;
  }

  unfoldable pub should_transfer : SyncFlags → Sync W → Bool
  should_transfer flags s =
      leb transfer_pending s.db_channel_data.transfer_state
      && not (str_eq s.db_channel_data.publish_address.address "")
      && not flags.disable_transfers
      && not (s.db_channel_data.transfer_state == 3)

abbrev pub or_no_video : Option SyncedVideo → SyncedVideo
or_no_video none = no_video
or_no_video (some v) = v
