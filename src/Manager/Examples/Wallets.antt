-- ===== src/Manager/Examples/Wallets.antt =====
-- Runs of the setup of a wallet, and of the wait for a block.
use ytsync.Manager.Setup.Utxos.{refill_utxos, count_utxos, split_balance, ensure_enough_utxos}
use ytsync.Base.{
  ◌-◌, if◌then◌else◌, ℕ, suc, ◌<◌, ◌≡◌, refl, true, false, none, some, ◌⊎◌, inl, inr, [], ◌∷◌, ok,
  err, ltb, ◌==◌, str_eq, arith,
}
use ytsync.Shared.{default_videos_to_sync, videos_to_sync}
use ytsync.Manager.State.{should_transfer}
use ytsync.Manager.Accounts.{get_default_account}
use ytsync.Manager.Setup.{SetupEnv, credit, ListedChannel, ClaimCreateOptions, lbc, read_balance}
use ytsync.Manager.Setup.Blocks.{BlockEnv, WalletStatus, wait_for_new_block}
use ytsync.Manager.Setup.Blocks.Ends.{IsBehind, FirstSynced, FirstAbove, wait_for_new_block-ends}
use ytsync.Manager.Setup.Ownership.{
  ensure_channel_ownership, list_and_ensure, ensure_channel, channel_to_use,
}
use ytsync.Manager.Setup.Chosen.{Chosen, channel_to_use-Chosen}
use ytsync.Manager.Setup.Wallet.{
  fund_and_address, settle, required_balance, unallocated_videos, count_videos, set_address,
  check_address, refill_amount, wallet_setup,
}
use ytsync.Manager.Setup.Refill.{wallet_setup-ok}
use ytsync.Manager.Examples.{Log, said, flags, start, accounts}

-- The height is one more at each answer; the first three come while the wallet is behind.
abbrev growing : BlockEnv ℕ
growing = record {
  status = λ n. (ok (record { blocks = n; blocks_behind = if ltb n 3 then 1 else 0 }), suc n);
  generates_blocks = false;
  generate_regtest_block = λ n. (ok tt, n);
}

abbrev growing_answer : ℕ → WalletStatus
growing_answer n = record { blocks = n; blocks_behind = if ltb n 3 then 1 else 0 }

catches_up : (u : ℕ) → IsBehind (growing_answer u) → 3 - suc u < 3 - u
catches_up u (inl e) = omega arith
catches_up u (inr l) = ground arith

wait_for_new_block-ends_example :
    (low : WalletStatus) × (u : ℕ) × FirstSynced growing 0 low u
    × (g₀ : ℕ) × ((g : ℕ)
        → g₀ < g
        → (high : WalletStatus) × (v : ℕ) × (wait_for_new_block growing 5 g 0 ≡ some (ok high, v))
          × FirstAbove growing low.blocks u high v)
wait_for_new_block-ends_example =
    wait_for_new_block-ends growing (λ n. 3 - n) (λ h n. suc h - n) 0
      (λ u. (growing_answer u, refl, catches_up u)) (λ u. refl)
      (λ h u. (growing_answer u, refl, λ l. omega (arith, l))) 5 (omega arith)

abbrev ours : ListedChannel
ours = record { claim_id = "ch1"; name = "@one"; has_thumbnail = true; has_languages = true }

abbrev setup : SetupEnv Log
setup = record {
  accounts = accounts;
  flags = flags;
  quotas = default_videos_to_sync;
  prefix_error = λ before e. before;
  get_lbrycrd_client = λ log. (ok tt, log);
  simple_send = λ address amount. said "simple_send";
  address_unused = λ account log. (ok (some "bNew"), log);
  address_list = λ log. (ok (some ("bOwn" ∷ [])), log);
  account_balance = λ account log. (ok (some (ok (credit lbc))), log);
  account_send = λ account amount address. said "account_send";
  account_fund = λ account amount outputs log. (ok (some tt), "account_fund" ∷ log);
  txo_spend = λ account. said "txo_spend";
  utxo_list = λ account log. (ok (some []), log);
  uint64_of_debt = λ d. 0;
  wait_for_new_block = said "wait_for_new_block";
  channel_list = λ log. (ok (some (ours ∷ [])), "channel_list" ∷ log);
  channel_update = λ id account options log. (err "timeout", "channel_update" ∷ log);
  channel_create = λ name amount options log. (err "timeout", "channel_create" ∷ log);
  get_ip_pool = λ log. (ok tt, log);
  channel_info = λ id n log. (err "no info", log);
  mirror_thumbnail = λ url name log. (ok url, log);
  get_tags_for_channel = λ id. [];
  set_channel_claim_id = λ channel id. said "set_channel_claim_id";
}

abbrev options : ClaimCreateOptions
options = record {
  title = "One";
  description = "";
  tags = [];
  languages = [];
  locations = [];
  thumbnail_url = "url";
  cover_url = none;
}

channel_to_use-Chosen_example : Chosen (ours ∷ []) start (channel_to_use (ours ∷ []) start)
channel_to_use-Chosen_example = channel_to_use-Chosen (ours ∷ []) start

wallet_setup-ok_example :
    ((wallet_setup setup start).1.db_channel_data.total_videos == 0 ≡ true)
    ⊎ (str_eq (wallet_setup setup start).1.db_channel_data.publish_address.address "" ≡ false)
unfolding wallet_setup ensure_channel_ownership list_and_ensure channel_to_use ensure_channel
    read_balance fund_and_address settle refill_amount required_balance unallocated_videos
    videos_to_sync count_videos set_address should_transfer check_address ensure_enough_utxos
    get_default_account refill_utxos count_utxos split_balance
wallet_setup-ok_example = wallet_setup-ok setup start (wallet_setup setup start).1 refl
