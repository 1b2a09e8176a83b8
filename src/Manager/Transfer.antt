-- ===== src/Manager/Transfer.antt =====
-- The transfer of a channel to its owner: waitConfirmations, transferVideos, streamUpdate and
-- transferChannel of manager/transfer.go, processTransfers of manager/ytsync.go. The workers of
-- transferVideos are modelled as one, which takes the updates in their order; the amounts of
-- supports are in units of 0.000001 LBC. The daemon is an argument, and so is abandonSupports, which
-- is in Abandon.
pub mod Queue
pub mod Supports
pub mod Abandon
use ytsync.Base.{
  ℕ, zero, suc, String, Bool, true, false, not, ◌&&◌, ◌||◌, Option, none, some, List, [], ◌∷◌, Dict,
  str_eq, contains, ltb, ◌==◌, any, if◌then◌else◌, Result, ok, err, Method, return, fail, resume,
  ◌>>=◌, ◌>>◌,
}
use ytsync.Shared.{VideoStatus}
use ytsync.Shared.Status
use ytsync.Manager.State.{SyncedVideo, Sync, on_world}
use ytsync.Manager.Accounts.{AccountEnv, get_default_account}
use ytsync.Manager.Integrity.{Claim}

pub record TransferEnv (W : Type 0) : Type 0 where
  pub accounts : AccountEnv W
  -- errors.Prefix, on an error that may be nil, and the texts with an amount.
  pub prefix_error : String → Option String → Option String
  pub failed_before : ℕ → String
  pub failed_tip : ℕ → String
  -- The confirmations of each output; 0 stands for none or fewer.
  pub utxo_list : String → W → Result String (List ℕ) × W
  pub stream_list : String → W → Result String (List Claim) × W
  pub stream_update : String → String → String → W → Result String ℕ × W
  pub channel_list : String → W → Result String (List String) × W
  pub channel_update : String → String → W → Result String ℕ × W
  pub support_create : String → ℕ → String → W → Result String ℕ × W
  pub txo_spend : String → W → Result String (Unit {0}) × W
  pub wait_for_new_block : W → Result String (Unit {0}) × W
  pub mark_video_status : VideoStatus → W → Result String (Unit {0}) × W
  -- abandonSupports: what was abandoned, and the error.
  pub abandon_supports : Sync W → (ℕ × Option String) × Sync W

abbrev pub is_eligible : SyncedVideo → Bool
is_eligible v =
    v.published && not v.transferred && v.metadata_version == Status.latest_metadata_version

abbrev pub may_be_signed_by : Option String → String → Bool
may_be_signed_by none channel = true
may_be_signed_by (some id) channel = str_eq id channel

-- Whether the list of streams has the claim of the video.
unfoldable pub has_stream : String → List Claim → SyncedVideo → Bool
has_stream channel streams v =
    any (λ c. str_eq c.claim_id v.claim_id && may_be_signed_by c.signing_channel channel) streams

-- The producer of transferVideos, which returns at a video whose stream is not in the list.
unfoldable pub queue_updates : String → List Claim → Dict SyncedVideo → List SyncedVideo
queue_updates channel streams [] = []
queue_updates channel streams ((_, v) ∷ rest) =
    let others = queue_updates channel streams rest in
    if not (is_eligible v) then others else if has_stream channel streams v then v ∷ others else []

module _ {W : Type 0} (env : TransferEnv W) where
  -- The loop of waitConfirmations, which waits for so many blocks at most.
  unfoldable pub wait_rounds : ℕ → String → Method (Sync W) (Unit {0})
  wait_rounds zero account s = (ok tt, s)
  wait_rounds (suc n) account s =
      resume
        (λ utxos.
          if any (λ c. c == 0) utxos
          then on_world env.wait_for_new_block >> wait_rounds n account
          else return tt)
        (on_world (env.utxo_list account) s)

  unfoldable pub wait_confirmations : Method (Sync W) (Unit {0})
  wait_confirmations = get_default_account env.accounts >>= wait_rounds 2

  abbrev pub transfer_status : SyncedVideo → Result String ℕ → Sync W → VideoStatus
  transfer_status v (ok outputs) s = record {
    channel_id = s.db_channel_data.channel_id;
    video_id = v.video_id;
    status = Status.video_published;
    claim_id = v.claim_id;
    claim_name = v.claim_name;
    failure_reason = "";
    size = none;
    metadata_version = 0;
    is_transferred = some (ltb 0 outputs);
  }
  transfer_status v (err e) s = record {
    channel_id = s.db_channel_data.channel_id;
    video_id = v.video_id;
    status = Status.video_transfer_failed;
    claim_id = v.claim_id;
    claim_name = v.claim_name;
    failure_reason = e;
    size = none;
    metadata_version = 0;
    is_transferred = some false;
  }

  abbrev pub update_error : Result String ℕ → Option String
  update_error (ok _) = none
  update_error (err e) = some e

  abbrev pub update_result : Result String ℕ → Result String (Unit {0}) → Option String
  update_result r (ok _) = update_error r
  update_result r (err e) = env.prefix_error e (update_error r)

  unfoldable pub stream_update : String → SyncedVideo → Sync W → Option String × Sync W
  stream_update account v s =
      let (r, t) =
        on_world (env.stream_update v.claim_id s.db_channel_data.publish_address.address account)
          s in
      let (marked, u) = on_world (env.mark_video_status (transfer_status v r t)) t in
      (update_result r marked, u)

  abbrev pub is_none : Option String → Bool
  is_none none = true
  is_none (some _) = false

  -- The consumer of transferVideos; it returns cleanTransfer.
  unfoldable pub update_all : String → List SyncedVideo → Bool → Sync W → Bool × Sync W
  update_all account [] clean s = (clean, s)
  update_all account (v ∷ vs) clean s =
      let (e, t) = stream_update account v s in update_all account vs (clean && is_none e) t

  abbrev pub check_clean : Bool × Sync W → Result String (Unit {0}) × Sync W
  check_clean (true, s) = (ok tt, s)
  check_clean (false, s) =
      (err "A video has failed to transfer for the channel...skipping channel transfer", s)

  abbrev pub update_queued : String → List Claim → Method (Sync W) (Unit {0})
  update_queued account streams s = check_clean (
      update_all account (queue_updates s.db_channel_data.channel_claim_id streams s.synced_videos)
        true s)

  unfoldable pub transfer_videos : Method (Sync W) (Unit {0})
  transfer_videos = do
    account ← get_default_account env.accounts
    streams ← on_world (env.stream_list account)
    update_queued account streams

  abbrev pub update_channel : List String → Method (Sync W) (Unit {0})
  update_channel ids s =
      let id = s.db_channel_data.channel_claim_id in
      let r =
        resume (λ outputs. return tt)
          (on_world (env.channel_update id s.db_channel_data.publish_address.address) s) in
      if any (λ c. str_eq c id) ids then r else (ok tt, s)

  unfoldable pub transfer_channel : Method (Sync W) (Unit {0})
  transfer_channel = do
    account ← get_default_account env.accounts
    ids ← on_world (env.channel_list account)
    update_channel ids
