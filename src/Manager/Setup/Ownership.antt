-- ===== src/Manager/Setup/Ownership.antt =====
-- ensureChannelOwnership and getChannelClaimIDForTimedOutCreation of manager/setup.go.
use ytsync.Base.{
  ◌+◌, ◌*◌, String, Bool, true, false, not, ◌&&◌, ◌||◌, ◌⧺◌, Option, none, some, List, [], ◌∷◌,
  str_eq, contains, leb, ◌==◌, if◌then◌else◌, Result, ok, err, Method, return, resume, ◌>>=◌, ◌>>◌,
}
use ytsync.Shared.Status
use ytsync.Manager.State.{Sync, on_world}
use ytsync.Manager.Accounts.{get_default_account}
use ytsync.Manager.Setup.{
  SetupEnv, ListedChannel, ChannelInfo, ClaimCreateOptions, is_below, channel_claim_amount,
  estimated_max_tx_fee, lbc, nil_dereference, or_missing, read_balance, add_credits,
}

-- The loop over the channels of the wallet.
abbrev pub find_channel :
    String → String → List ListedChannel → Result String (Option ListedChannel)
find_channel id name [] = ok none
find_channel id name (c ∷ cs) =
    if not (str_eq c.claim_id id)
    then find_channel id name cs
    else if not (str_eq c.name name)
    then err "the channel in the wallet is different than the channel in the database"
    else ok (some c)

abbrev pub must_find :
    String → String → Result String (Option ListedChannel) → Result String (Option ListedChannel)
must_find id name (err e) = err e
must_find id name (ok (some c)) = ok (some c)
must_find id name (ok none) = err (
    "this wallet has channels but not a single one is ours! Expected claim_id: " ⧺ id ⧺ " (" ⧺ name
    ⧺ ")")

-- channelToUse
unfoldable pub channel_to_use :
    {W : Type 0} → List ListedChannel → Sync W → Result String (Option ListedChannel)
channel_to_use [] s =
    if s.db_channel_data.transfer_state == Status.transfer_complete
    then err "the channel was transferred but appears to have been abandoned!"
    else if not (str_eq s.db_channel_data.channel_claim_id "")
    then err (
        "the database has a channel recorded (" ⧺ s.db_channel_data.channel_claim_id
        ⧺ ") but nothing was found in our control")
    else ok none
channel_to_use (c ∷ cs) s =
    let id = s.db_channel_data.channel_claim_id in
    let name = s.db_channel_data.desired_channel_name in
    if str_eq id ""
    then err
        "this channel does not have a recorded claimID in the database. To prevent failures, updates are not supported until an entry is manually added in the database"
    else must_find id name (find_channel id name (c ∷ cs))

abbrev pub is_old : String → ListedChannel → Bool
is_old language c = not c.has_thumbnail || (not c.has_languages && not (str_eq language ""))

-- The channel is there, and its metadata is of the new kind.
abbrev pub is_current : String → Option ListedChannel → Bool
is_current language none = false
is_current language (some c) = not (is_old language c)

-- channelUsesOldMetadata
abbrev pub uses_old_metadata : String → Option ListedChannel → Bool
uses_old_metadata language none = false
uses_old_metadata language (some c) = is_old language c

abbrev pub last_of : List String → Option String
last_of [] = none
last_of (x ∷ []) = some x
last_of (x ∷ y ∷ ys) = last_of (y ∷ ys)

abbrev pub texts_of : String → List String
texts_of text = if str_eq text "" then [] else text ∷ []

-- The variables `c`, `err` and `recoveredChannelClaimID` after the claim was written.
pub record Written : Type 0 where
  pub outputs : Option (List String)
  pub error : Option String
  pub recovered : String

module _ {W : Type 0} (env : SetupEnv W) where
  abbrev pub only_channel : List ListedChannel → Method (Sync W) String
  only_channel (c ∷ []) s =
      if not (str_eq c.name s.db_channel_data.desired_channel_name)
      then (err "the channel found in the wallet has a different name than the one we expected", s)
      else (ok c.claim_id, s)
  only_channel _ s = (
    err
        "more than one channel found when trying to recover from SDK failure in creating the channel",
    s,
  )

  unfoldable pub get_channel_claim_id_for_timed_out_creation : Method (Sync W) String
  get_channel_claim_id_for_timed_out_creation = do
    answer ← on_world env.channel_list
    channels ← or_missing "no channel response" answer
    only_channel channels

  abbrev pub mirror_banner : Option (List String) → Method (Sync W) (Option String)
  mirror_banner none s = (ok none, s)
  mirror_banner (some urls) s = elim (last_of urls) [
    | none ↦ (err nil_dereference, s)
    | some url ↦
        resume (λ mirrored. return (some mirrored))
          (on_world (env.mirror_thumbnail url ("banner-" ⧺ s.db_channel_data.channel_id)) s)
  ]

  abbrev pub mirror_avatar : Option String → Method (Sync W) String
  mirror_avatar none s = (err "no thumbnails found for channel", s)
  mirror_avatar (some url) s = on_world (env.mirror_thumbnail url s.db_channel_data.channel_id) s

  abbrev pub info_again :
      String → Result String ChannelInfo × Sync W → Result String ChannelInfo × Sync W
  info_again id (ok info, s) = (ok info, s)
  info_again id (err e, s) =
      if contains e "invalid character 'e' looking for beginning of value"
      then on_world (env.channel_info id 1) s
      else (err e, s)

  abbrev pub read_info : Method (Sync W) ChannelInfo
  read_info s =
      let id = s.db_channel_data.channel_id in info_again id (on_world (env.channel_info id 0) s)

  abbrev pub fill_up : Method (Sync W) (Unit {0})
  fill_up = read_balance env none >>= λ balance.
      if is_below balance channel_claim_amount
      then add_credits env (channel_claim_amount + estimated_max_tx_fee * 3 + 5 * lbc)
      else return tt

  abbrev pub claim_options : ChannelInfo → String → Option String → Sync W → ClaimCreateOptions
  claim_options info thumbnail cover s = record {
    title = info.title;
    description = info.description;
    tags = env.get_tags_for_channel s.db_channel_data.channel_id;
    languages = texts_of s.db_channel_data.language;
    locations = texts_of info.country_code;
    thumbnail_url = thumbnail;
    cover_url = cover;
  }

  -- The error of ChannelUpdate goes to a variable of the inner block: `err` stays nil.
  abbrev pub updated : Result String (List String) × Sync W → Written × Sync W
  updated (ok outputs, s) = (record { outputs = some outputs; error = none; recovered = "" }, s)
  updated (err e, s) = (record { outputs = none; error = none; recovered = "" }, s)

  -- After a failed ChannelCreate; the error stays also where the claim was found.
  abbrev pub recovered : String → Result String String × Sync W → Written × Sync W
  recovered e (ok id, s) = (record { outputs = none; error = some e; recovered = id }, s)
  recovered e (err e2, s) =
      (record { outputs = none; error = some (env.prefix_error e2 e); recovered = "" }, s)

  abbrev pub created : Result String (List String) × Sync W → Written × Sync W
  created (ok outputs, s) = (record { outputs = some outputs; error = none; recovered = "" }, s)
  created (err e, s) = recovered e (get_channel_claim_id_for_timed_out_creation s)

  abbrev pub set_claim_id : String → Method (Sync W) (Unit {0})
  set_claim_id id s =
      on_world (env.set_channel_claim_id s.db_channel_data.channel_id id)
        (record s { db_channel_data = record s.db_channel_data { channel_claim_id = id } })

  abbrev pub first_output : Option (List String) → Method (Sync W) (Unit {0})
  first_output none s = (err nil_dereference, s)
  first_output (some []) s = (
    err
        "no outputs found when updating channel - is the channel mistakenly flagged as non transferred in the database?",
    s,
  )
  first_output (some (id ∷ _)) s = set_claim_id id s

  abbrev pub finish : Written × Sync W → Result String (Unit {0}) × Sync W
  finish (w, s) = elim w.error [
    | some e ↦ (err e, s)
    | none ↦
        if not (str_eq w.recovered "") then set_claim_id w.recovered s else first_output w.outputs s
  ]

  unfoldable pub create_channel : ClaimCreateOptions → Method (Sync W) (Unit {0})
  create_channel options s = finish (
      created (
        on_world
          (env.channel_create s.db_channel_data.desired_channel_name channel_claim_amount options)
          s))

  unfoldable pub update_channel : ClaimCreateOptions → String → Method (Sync W) (Unit {0})
  update_channel options account s =
      let r = finish (
        updated
          (on_world (env.channel_update s.db_channel_data.channel_claim_id account options) s)) in
      if leb s.db_channel_data.transfer_state Status.transfer_pending then r else (ok tt, s)

  abbrev pub write_channel : Bool → ClaimCreateOptions → Method (Sync W) (Unit {0})
  write_channel true options = get_default_account env.accounts >>= update_channel options
  write_channel false options = create_channel options

  -- From the balance on: the channel is created, or its metadata is updated.
  unfoldable pub publish_channel : Bool → Method (Sync W) (Unit {0})
  publish_channel old = do
    fill_up
    on_world env.get_ip_pool
    info ← read_info
    thumbnail ← mirror_avatar (last_of info.avatars)
    cover ← mirror_banner info.banners
    λ s. write_channel old (claim_options info thumbnail cover s) s

  -- What is done about the channel that was chosen.
  unfoldable pub ensure_channel : Option ListedChannel → Method (Sync W) (Unit {0})
  ensure_channel channel s =
      let language = s.db_channel_data.language in
      let r = publish_channel (uses_old_metadata language channel) s in
      if s.db_channel_data.is_deleted_on_youtube
        || s.db_channel_data.transfer_state == Status.transfer_complete
      then (ok tt, s)
      else if is_current language channel
      then (ok tt, s)
      else r

  abbrev pub choose_channel : List ListedChannel → Method (Sync W) (Option ListedChannel)
  choose_channel channels s = (channel_to_use channels s, s)

  unfoldable pub list_and_ensure : Method (Sync W) (Unit {0})
  list_and_ensure = do
    answer ← on_world env.channel_list
    channels ← or_missing "no channel response" answer
    channel ← choose_channel channels
    ensure_channel channel

  unfoldable pub ensure_channel_ownership : Method (Sync W) (Unit {0})
  ensure_channel_ownership s =
      let r = list_and_ensure s in
      if str_eq s.db_channel_data.desired_channel_name "" then (err "no channel name set", s) else r
