-- ===== src/Manager/Examples.antt =====
-- Runs of a sync on a world that is the list of the calls that were made, the latest first.
mod Starts
mod Videos
mod Cycle
mod Claims
mod Transfers
mod Wallets
mod Workers
mod Stored
mod Waits
mod Handovers
mod Archived
use ytsync.Base.{
  ℕ, String, Bool, true, false, none, some, List, [], ◌∷◌, any, contains, Result, ok, err, Dict,
}
use ytsync.Shared.{SyncFlags, YoutubeChannel}
use ytsync.Namer.{Names}
use ytsync.Manager.State.{Sync, SyncedVideo}
use ytsync.Manager.Accounts.{Account, AccountEnv}

abbrev pub Log : Type 0
Log = List String

abbrev pub said : String → Log → Result String (Unit {0}) × Log
said what log = (ok tt, what ∷ log)

abbrev pub refused : String → String → Log → Result String (Unit {0}) × Log
refused why what log = (err why, what ∷ log)

abbrev pub in_slice : String → List String → Bool
in_slice text parts = any (λ part. contains text part) parts

abbrev pub flags : SyncFlags
flags = record {
  take_over_existing_channel = false;
  skip_space_check = false;
  sync_update = false;
  single_run = false;
  remove_db_unpublished = true;
  upgrade_metadata = false;
  disable_transfers = false;
  quick_sync = false;
  max_tries = 2;
  refill = 0;
  limit = 0;
  status = "";
  secondary_status = "";
  channel_id = "";
  with_deleted_on_youtube = false;
  sync_from = 0;
  sync_until = 0;
  concurrent_jobs = 1;
  videos_limit = 5;
  max_video_size = 2048;
  max_video_length = 7200;
}

abbrev pub channel : YoutubeChannel
channel = record {
  channel_id = "UC1";
  total_videos = 3;
  total_subscribers = 10;
  desired_channel_name = "@one";
  fee = none;
  channel_claim_id = "ch1";
  transfer_state = 0;
  publish_address = record { address = "bAddress"; is_mine = true };
  public_key = "";
  length_limit = 120;
  size_limit = 2048;
  last_uploaded_video = "";
  wipe_db = false;
  language = "en";
  is_deleted_on_youtube = false;
}

abbrev pub start : Sync Log
start = record {
  db_channel_data = channel;
  synced_videos = [];
  names = [];
  default_account_id = "";
  hard_video_failure = none;
  state = record {
    blockchain_db_downloaded = false;
    wallet_downloaded = false;
    vpn_started = false;
    new_wallet_created = false;
  };
  stopped = false;
  sizes = [];
  world = [];
}

abbrev pub account : Account
account = record { id = "acc1"; ledger = "lbc_mainnet"; is_default = true; public_key = "pk" }

abbrev pub accounts : AccountEnv Log
accounts = record {
  is_reg_test = false;
  account_list = λ log. (ok (account ∷ []), "account_list" ∷ log);
  account_set = λ id. said "account_set";
  account_add = λ name key. said "account_add";
}
