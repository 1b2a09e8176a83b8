-- ===== src/Manager/Integrity.antt =====
-- The checks of the claims before a sync, in manager/ytsync.go: isYtsyncClaim, fixDupes,
-- mapFromClaims, updateRemoteDB, getClaims and checkIntegrity. The daemon, the internal APIs and
-- waitForNewBlock are arguments. What is only counted for a message is left out.
pub mod Dupes
pub mod Remote
pub mod Consistent
use ytsync.Base.{
  ℕ, zero, suc, ◌+◌, String, Bool, true, false, not, ◌&&◌, ◌||◌, Option, none, some, List, [], ◌∷◌,
  Dict, str_eq, code, contains, ltb, ◌==◌, lookup, insert, has_key, keep, all, any, if◌then◌else◌,
  Result, ok, err, Method, return, resume, ◌>>=◌, ◌>>◌,
}
use ytsync.Shared.{VideoStatus}
use ytsync.Shared.Status
use ytsync.Manager.State.{SyncedVideo, Sync, on_world, or_no_video}
use ytsync.Manager.Accounts.{AccountEnv, get_default_account}
use ytsync.Manager.Termination.{CycleEnv, set_status_syncing}

-- What is read of a jsonrpc.Claim: whether its value is a stream, the address of its thumbnail, the
-- claim of its channel, and the size of its source, if it has one.
pub record Claim : Type 0 where
  pub claim_id : String
  pub name : String
  pub kind : String
  pub is_stream : Bool
  pub thumbnail : Option String
  pub signing_channel : Option String
  pub height : ℕ
  pub address : String
  pub txid : String
  pub nout : ℕ
  pub stream_size : Option (Result String ℕ)

pub record YtsyncClaim : Type 0 where
  pub claim_id : String
  pub metadata_version : ℕ
  pub claim_name : String
  pub publish_address : String
  pub video_id : String
  pub claim : Claim

pub record IntegrityEnv (W : Type 0) : Type 0 where
  pub cycle : CycleEnv W
  pub accounts : AccountEnv W
  pub stream_list : Option String → W → Result String (List Claim) × W
  pub stream_abandon : Claim → W → Result String (Unit {0}) × W
  pub claim_search : String → W → Result String (List Claim) × W
  pub mark_video_status : VideoStatus → W → Result String (Unit {0}) × W
  pub delete_videos : List String → W → Result String (Unit {0}) × W
  pub wait_for_new_block : W → Result String (Unit {0}) × W

abbrev pub thumbnail_endpoint : String
thumbnail_endpoint = "https://thumbnails.lbry.com/"

abbrev pub thumbnail_hosts : List String
thumbnail_hosts = "berk.ninja/thumbnails/" ∷ thumbnail_endpoint ∷ []

abbrev pub has_slash : String → Bool
has_slash String.[] = false
has_slash (String.◌∷◌ c s) = code c == 47 || has_slash s

-- tn[strings.LastIndex(tn, "/")+1:]
abbrev pub after_last_slash : String → String
after_last_slash String.[] = ""
after_last_slash (String.◌∷◌ c s) =
    let rest = after_last_slash s in
    if has_slash s then rest else if code c == 47 then s else String.◌∷◌ c s

abbrev pub url_of : Option String → String
url_of none = ""
url_of (some url) = url

abbrev pub is_signed_by : Option String → String → Bool
is_signed_by none channel = false
is_signed_by (some id) channel = str_eq id channel

abbrev pub video_id_of : Claim → String
video_id_of c = after_last_slash (url_of c.thumbnail)

unfoldable pub is_ytsync_claim : Claim → String → Bool
unfolding contains
is_ytsync_claim c channel =
    (str_eq c.kind "claim" || str_eq c.kind "update")
    && c.is_stream
    && not (str_eq (url_of c.thumbnail) "")
    && is_signed_by c.signing_channel channel
    && any (λ host. contains (url_of c.thumbnail) host) thumbnail_hosts

-- What fixDupes does with a claim: the claims that it then keeps for their videos, and the claim to
-- drop.
unfoldable pub compare_with : Option Claim → Claim → Dict Claim → Dict Claim × Option Claim
compare_with none c seen = (insert (video_id_of c) c seen, none)
compare_with (some cl) c seen =
    if str_eq cl.claim_id c.claim_id
    then (insert (video_id_of c) c seen, none)
    else if ltb cl.height c.height
    then (insert (video_id_of c) c seen, some cl)
    else (insert (video_id_of c) cl seen, some c)

unfoldable pub sort_out : String → Claim → Dict Claim → Dict Claim × Option Claim
unfolding is_ytsync_claim compare_with
sort_out channel c seen =
    if is_ytsync_claim c channel
    then compare_with (lookup (video_id_of c) seen) c seen
    else (seen, none)

module _ {W : Type 0} (env : IntegrityEnv W) where
  -- Whether the claim may be abandoned; `id` is the video that it stands for.
  unfoldable pub may_abandon : Claim → String → Sync W → Bool
  may_abandon c id s =
      (not (str_eq c.address s.db_channel_data.publish_address.address)
        || s.db_channel_data.publish_address.is_mine)
      && not (or_no_video (lookup id s.synced_videos)).transferred

  abbrev pub say_abandoned : Unit {0} → Method (Sync W) Bool
  say_abandoned _ s = (ok true, s)

  unfoldable pub abandon : Option Claim → String → Method (Sync W) Bool
  abandon none id s = (ok false, s)
  abandon (some c) id s =
      let r = resume say_abandoned (on_world (env.stream_abandon c) s) in
      if may_abandon c id s then r else (ok false, s)

  -- The loop of fixDupes, which holds the claims that it keeps.
  unfoldable pub fix_claims : List Claim → Dict Claim → Bool → Method (Sync W) Bool
  unfolding sort_out abandon
  fix_claims [] seen done s = (ok done, s)
  fix_claims (c ∷ cs) seen done s =
      let (next, victim) = sort_out s.db_channel_data.channel_claim_id c seen in
      resume (λ more. fix_claims cs next (done || more)) (abandon victim (video_id_of c) s)

  unfoldable pub fix_dupes : List Claim → Method (Sync W) Bool
  fix_dupes claims = fix_claims claims [] false
