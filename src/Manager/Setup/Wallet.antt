-- ===== src/Manager/Setup/Wallet.antt =====
-- walletSetup of manager/setup.go.
use ytsync.Base.{
  ℕ, suc, ◌+◌, ◌-◌, ◌*◌, max, String, Bool, true, not, ◌&&◌, ◌||◌, none, List, [], ◌∷◌, Dict,
  contains, str_eq, ltb, ◌==◌, if◌then◌else◌, Result, ok, err, Method, resume, ◌>>=◌, ◌>>◌,
}
use ytsync.Shared.{videos_to_sync}
use ytsync.Shared.Status
use ytsync.Manager.State.{SyncedVideo, Sync, on_world, should_transfer}
use ytsync.Manager.Accounts.{get_default_account}
use ytsync.Manager.Process.{publish_amount}
use ytsync.Manager.Setup.{
  SetupEnv, Amount, credit, debt, lbc, channel_claim_amount, estimated_max_tx_fee,
  minimum_account_balance, minimum_refill_amount, nil_dereference, is_below, or_missing,
  read_balance, add_credits,
}
use ytsync.Manager.Setup.Ownership.{ensure_channel_ownership}
use ytsync.Manager.Setup.Utxos.{ensure_enough_utxos}

-- publishedCount, notUpgradedCount and failedCount.
pub record Counts : Type 0 where
  pub published : ℕ
  pub not_upgraded : ℕ
  pub failed : ℕ

unfoldable pub count_videos : Dict SyncedVideo → Counts
count_videos [] = record { published = 0; not_upgraded = 0; failed = 0 }
count_videos ((_, v) ∷ rest) =
    let c = count_videos rest in
    if v.published
    then record c {
      published = suc c.published;
      not_upgraded = if ltb v.metadata_version 2 then suc c.not_upgraded else c.not_upgraded;
    }
    else record c { failed = suc c.failed }

-- A difference below 0 counts as 0.
unfoldable pub unallocated_videos : ℕ → ℕ → Counts → ℕ
unallocated_videos on_youtube limit c =
    (if ltb limit on_youtube then limit else on_youtube) - (c.published + c.failed)

unfoldable pub required_balance : Bool → Bool → ℕ → Counts → ℕ
required_balance claimed upgrades unallocated c =
    (unallocated * (publish_amount + estimated_max_tx_fee)
      + (if claimed then 0 else channel_claim_amount))
    + (if upgrades then c.not_upgraded * estimated_max_tx_fee else 0)

-- What is missing to an amount; 0 for a balance above it, which the minimum then outweighs.
abbrev pub missing : ℕ → Amount → ℕ
missing amount (credit b) = amount - b
missing amount (debt d) = amount + d

unfoldable pub refill_amount : ℕ → ℕ → Amount → ℕ
refill_amount refill required balance =
    (if is_below balance required || is_below balance minimum_account_balance
      then max (max (missing required balance) (missing minimum_account_balance balance))
          minimum_refill_amount
      else 0)
    + refill * lbc

-- What a balance has above the amount that is required.
abbrev pub extra : Amount → ℕ → ℕ
extra (credit b) required = b - required
extra (debt d) required = 0

abbrev pub refund_address : String
refund_address = "bPcPhyBeuiq5ZRquuxsGFTH1AQ69CMMkEz"

abbrev pub refund_error : String
refund_error = "something went wrong while refunding extra credits"

module _ {W : Type 0} (env : SetupEnv W) where
  abbrev pub send_after_block :
      String → ℕ → String → Result String (Unit {0}) × Sync W → Result String (Unit {0}) × Sync W
  send_after_block account amount before (ok _, s) =
      on_world (env.account_send account amount refund_address) s
  send_after_block account amount before (err e, s) = (err (env.prefix_error refund_error e), s)

  abbrev pub send_after_spend :
      String → ℕ → String → Result String (Unit {0}) × Sync W → Result String (Unit {0}) × Sync W
  send_after_spend account amount before (ok _, s) =
      send_after_block account amount before (on_world env.wait_for_new_block s)
  send_after_spend account amount before (err _, s) =
      (err (env.prefix_error refund_error before), s)

  abbrev pub sent :
      String → ℕ → Result String (Unit {0}) × Sync W → Result String (Unit {0}) × Sync W
  sent account amount (ok _, s) = (ok tt, s)
  sent account amount (err e, s) =
      if contains e "tx-size"
      then send_after_spend account amount e (on_world (env.txo_spend account) s)
      else (err e, s)

  unfoldable pub send_back : ℕ → Method (Sync W) (Unit {0})
  send_back amount = get_default_account env.accounts >>= λ account.
      λ s. sent account amount (on_world (env.account_send account amount refund_address) s)

  -- The refill, or the return of what is too much for a channel that was transferred by hand.
  unfoldable pub settle : Amount → ℕ → Method (Sync W) (Unit {0})
  settle balance required s =
      let refill = refill_amount env.flags.refill required balance in
      let more = extra balance required in
      if ltb 0 refill
      then add_credits env refill s
      else if ltb 0 more
          && s.db_channel_data.transfer_state == Status.transfer_manual
          && ltb (5 * lbc) more
      then send_back (more - lbc) s
      else (ok tt, s)

  abbrev pub first_address : List String → Method (Sync W) String
  first_address [] s = (err nil_dereference, s)
  first_address (a ∷ _) s = (ok a, s)

  abbrev pub own_address : String → Sync W → Sync W
  own_address address s = record s {
    db_channel_data = record s.db_channel_data {
      publish_address = record { address = address; is_mine = true };
    };
  }

  -- The address is only looked at where it is needed.
  unfoldable pub set_address : List String → Method (Sync W) (Unit {0})
  set_address addresses s =
      let own = resume (λ a. λ t. (ok tt, own_address a t)) (first_address addresses s) in
      if str_eq s.db_channel_data.publish_address.address "" || not (should_transfer env.flags s)
      then own
      else (ok tt, s)

  unfoldable pub check_address : Method (Sync W) (Unit {0})
  check_address s =
      if str_eq s.db_channel_data.publish_address.address ""
      then (err "found blank claim address", s)
      else (ok tt, s)

  abbrev pub required_for : Sync W → ℕ
  required_for s =
      let c = count_videos s.synced_videos in
      required_balance (not (str_eq s.db_channel_data.channel_claim_id ""))
        env.flags.upgrade_metadata
        (unallocated_videos s.db_channel_data.total_videos
          (videos_to_sync env.quotas env.flags s.db_channel_data.total_subscribers) c)
        c

  abbrev pub settle_for : Amount → Method (Sync W) (Unit {0})
  settle_for balance s = settle balance (required_for s) s

  unfoldable pub fund_and_address : Amount → Method (Sync W) (Unit {0})
  fund_and_address balance = do
    settle_for balance
    answer ← on_world env.address_list
    addresses ← or_missing "could not get an address" answer
    set_address addresses
    check_address
    ensure_enough_utxos env

  abbrev pub unless_empty : Amount → Method (Sync W) (Unit {0})
  unless_empty balance s =
      let r = fund_and_address balance s in
      if s.db_channel_data.total_videos == 0 then (ok tt, s) else r

  unfoldable pub wallet_setup : Method (Sync W) (Unit {0})
  wallet_setup = do
    ensure_channel_ownership env
    balance ← read_balance env none
    unless_empty balance
