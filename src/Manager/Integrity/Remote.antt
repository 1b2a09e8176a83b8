-- ===== src/Manager/Integrity/Remote.antt =====
-- mapFromClaims, updateRemoteDB, getClaims and checkIntegrity of manager/ytsync.go.
use ytsync.Base.{
  ℕ, suc, String, Bool, true, false, not, ◌&&◌, ◌||◌, Option, none, some, List, [], ◌∷◌, Dict,
  str_eq, contains, ltb, ◌==◌, lookup, insert, has_key, keep, length, if◌then◌else◌, Result, ok,
  err, Method, return, resume, ◌>>=◌, ◌>>◌,
}
use ytsync.Shared.{VideoStatus}
use ytsync.Shared.Status
use ytsync.Manager.State.{SyncedVideo, Sync, on_world}
use ytsync.Manager.Accounts.{get_default_account}
use ytsync.Manager.Termination.{set_status_syncing}
use ytsync.Manager.Integrity.{
  Claim, YtsyncClaim, IntegrityEnv, thumbnail_endpoint, url_of, is_signed_by, video_id_of,
  is_ytsync_claim, fix_dupes,
}

abbrev pub ytsync_claim : Claim → YtsyncClaim
ytsync_claim c = record {
  claim_id = c.claim_id;
  metadata_version = if contains (url_of c.thumbnail) thumbnail_endpoint then 2 else 1;
  claim_name = c.name;
  publish_address = c.address;
  video_id = video_id_of c;
  claim = c;
}

abbrev pub add_claims : String → List Claim → Dict YtsyncClaim → Dict YtsyncClaim
add_claims channel [] found = found
add_claims channel (c ∷ cs) found =
    add_claims channel cs
      (if is_ytsync_claim c channel then insert (video_id_of c) (ytsync_claim c) found else found)

unfoldable pub map_from_claims : String → List Claim → Dict YtsyncClaim
map_from_claims channel claims = add_claims channel claims []

-- The size that is reported: 0 for a claim with no source, or whose source cannot be read.
abbrev pub claim_size : Option (Result String ℕ) → ℕ
claim_size none = 0
claim_size (some (ok n)) = n
claim_size (some (err _)) = 0

abbrev pub differs : Option SyncedVideo → YtsyncClaim → Bool → Bool
differs none chain transferred = true
differs (some sv) chain transferred =
    not (sv.metadata_version == chain.metadata_version)
    || not (str_eq sv.claim_id chain.claim_id)
    || not (str_eq sv.claim_name chain.claim_name)
    || not sv.published
    || (if sv.transferred then not transferred else transferred)

module _ {W : Type 0} (env : IntegrityEnv W) where
  abbrev pub is_transferred : Dict YtsyncClaim → String → Sync W → Bool
  is_transferred own id s =
      not (has_key id own) || s.db_channel_data.transfer_state == Status.transfer_manual

  unfoldable pub mismatch : Dict YtsyncClaim → String → YtsyncClaim → Sync W → Bool
  mismatch own id chain s = differs (lookup id s.synced_videos) chain (is_transferred own id s)

  abbrev pub chain_status : Dict YtsyncClaim → String → YtsyncClaim → Sync W → VideoStatus
  chain_status own id chain s = record {
    channel_id = s.db_channel_data.channel_id;
    video_id = id;
    status = Status.video_published;
    claim_id = chain.claim_id;
    claim_name = chain.claim_name;
    failure_reason = "";
    size = some (claim_size chain.claim.stream_size);
    metadata_version = chain.metadata_version;
    is_transferred = some (is_transferred own id s);
  }

  abbrev pub plus_one : ℕ → Method (Sync W) ℕ
  plus_one n s = (ok (suc n), s)

  -- The first loop of updateRemoteDB; it returns how many entries it has corrected.
  unfoldable pub update_entries : Dict YtsyncClaim → Dict YtsyncClaim → Method (Sync W) ℕ
  unfolding mismatch
  update_entries own [] s = (ok 0, s)
  update_entries own ((id, chain) ∷ rest) s =
      if mismatch own id chain s
      then resume (λ _. update_entries own rest >>= plus_one)
          (on_world (env.mark_video_status (chain_status own id chain s)) s)
      else update_entries own rest s

  abbrev pub reload_if : Bool → Method (Sync W) (Unit {0})
  reload_if wanted = if wanted then set_status_syncing env.cycle else return tt

  -- The search for a transferred video that is gone from the chain; its answer is only logged.
  abbrev pub look_for : Dict YtsyncClaim → String → SyncedVideo → Sync W → Sync W
  look_for chain id sv s =
      if not (has_key id chain) && sv.published
      then (on_world (env.claim_search sv.claim_id) s).1
      else s

  abbrev pub is_unpublished : Dict YtsyncClaim → String → SyncedVideo → Bool
  is_unpublished own id sv = not sv.transferred && not (has_key id own) && sv.published

  -- The second loop of updateRemoteDB: what the database should forget.
  unfoldable pub ids_to_remove : Dict YtsyncClaim → Dict SyncedVideo → List String
  ids_to_remove own [] = []
  ids_to_remove own ((id, sv) ∷ rest) =
      let ids = ids_to_remove own rest in if is_unpublished own id sv then id ∷ ids else ids

  unfoldable pub search_transferred : Dict YtsyncClaim → Dict SyncedVideo → Sync W → Sync W
  search_transferred chain [] s = s
  search_transferred chain ((id, sv) ∷ rest) s =
      search_transferred chain rest (if sv.transferred then look_for chain id sv s else s)

  abbrev pub is_empty : List String → Bool
  is_empty [] = true
  is_empty (_ ∷ _) = false

  -- The removal at the end of updateRemoteDB; `removed` counts the calls, not the videos.
  unfoldable pub remove_unpublished : List String → Method (Sync W) ℕ
  remove_unpublished ids s =
      let r = (do on_world (env.delete_videos ids); reload_if true; return 1) s in
      if env.cycle.flags.remove_db_unpublished && not (is_empty ids) then r else (ok 0, s)

  abbrev pub forget : Dict YtsyncClaim → Dict YtsyncClaim → Method (Sync W) ℕ
  forget chain own s =
      remove_unpublished (ids_to_remove own s.synced_videos)
        (search_transferred chain s.synced_videos s)

  abbrev pub note : ℕ → ℕ → ℕ → Method (Sync W) (ℕ × ℕ × ℕ)
  note count fixed removed s = (ok (count, fixed, removed), s)

  unfoldable pub update_remote_db : List Claim → List Claim → Method (Sync W) (ℕ × ℕ × ℕ)
  update_remote_db claims own_claims s =
      let chain = map_from_claims s.db_channel_data.channel_claim_id claims in
      let own = map_from_claims s.db_channel_data.channel_claim_id own_claims in
      (do
        fixed ← update_entries own chain
        reload_if (ltb 0 fixed)
        removed ← forget chain own
        note (length chain) fixed removed)
        s

  abbrev pub of_channel : String → List Claim → List Claim
  of_channel channel claims = keep (λ c. is_signed_by c.signing_channel channel) claims

  abbrev pub prefixed : {A : Type 0} → String → Result String A × Sync W → Result String A × Sync W
  prefixed before (ok a, s) = (ok a, s)
  prefixed before (err e, s) = (err (env.cycle.prefix_error before e), s)

  abbrev pub list_claims : Option String → Method (Sync W) (List Claim)
  list_claims account s =
      resume (λ claims. λ t. (ok (of_channel t.db_channel_data.channel_claim_id claims), t))
        (prefixed "cannot list claims" (on_world (env.stream_list account) s))

  unfoldable pub get_claims : Bool → Method (Sync W) (List Claim)
  get_claims true s = resume (λ id. list_claims (some id)) (get_default_account env.accounts s)
  get_claims false s = list_claims none s

  -- The claims that remain once the duplicates are gone.
  abbrev pub after_dupes : List Claim → Bool → Method (Sync W) (List Claim)
  after_dupes claims false s = (ok claims, s)
  after_dupes claims true s = (do on_world env.wait_for_new_block; get_claims false) s

  unfoldable pub check_integrity : Method (Sync W) (Unit {0})
  check_integrity = do
    found ← get_claims false
    has_dupes ← λ s. prefixed "error checking for duplicates" (fix_dupes env found s)
    claims ← after_dupes found has_dupes
    own ← get_claims true
    counts ← λ s. prefixed "error updating remote database" (update_remote_db claims own s)
    return tt
