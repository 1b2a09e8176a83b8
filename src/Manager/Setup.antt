-- ===== src/Manager/Setup.antt =====
-- The setup of the wallet, in manager/setup.go: what the calls of the daemon, of lbrycrd and of the
-- internal APIs answer, and addCredits. Amounts are in units of 0.00000001 LBC and exact, where the
-- source rounds to floats. A nil pointer that is dereferenced (a panic) is the error
-- `nil_dereference`.
pub mod Blocks
pub mod Ownership
pub mod Utxos
pub mod Wallet
pub mod Refill
pub mod Recovery
pub mod Chosen
use ytsync.Base.{
  ℕ, ◌*◌, ◌-◌, ◌+◌, String, Bool, true, false, Option, none, some, List, Result, ok, err, Method,
  return, resume, ◌>>=◌, ◌>>◌, ltb,
}
use ytsync.Shared.{SyncFlags}
use ytsync.Manager.State.{Sync, on_world}
use ytsync.Manager.Accounts.{AccountEnv, get_default_account}

-- A balance, which may be negative.
pub data Amount : Type 0 where
  credit debt : ℕ → Amount

abbrev pub lbc : ℕ
lbc = 100000000

abbrev pub channel_claim_amount : ℕ
channel_claim_amount = 1000000

abbrev pub estimated_max_tx_fee : ℕ
estimated_max_tx_fee = 150000

abbrev pub minimum_account_balance : ℕ
minimum_account_balance = lbc

abbrev pub minimum_refill_amount : ℕ
minimum_refill_amount = lbc

abbrev pub nil_dereference : String
nil_dereference = "runtime error: invalid memory address or nil pointer dereference"

-- A channel in the wallet: whether its value has a thumbnail, and languages.
pub record ListedChannel : Type 0 where
  pub claim_id : String
  pub name : String
  pub has_thumbnail : Bool
  pub has_languages : Bool

-- What is read of ytapi.ChannelInfo: the addresses of the avatar and, where there is a banner, of
-- its images; the empty text stands for no country code.
pub record ChannelInfo : Type 0 where
  pub avatars : List String
  pub banners : Option (List String)
  pub country_code : String
  pub title : String
  pub description : String

pub record ClaimCreateOptions : Type 0 where
  pub title : String
  pub description : String
  pub tags : List String
  pub languages : List String
  pub locations : List String
  pub thumbnail_url : String
  pub cover_url : Option String

pub record Utxo : Type 0 where
  pub is_my_output : Bool
  pub is_payment : Bool
  pub amount : ℕ
  pub confirmations : ℕ

-- The services. A response that may be nil is an option; the balance is parsed from a text.
pub record SetupEnv (W : Type 0) : Type 0 where
  pub accounts : AccountEnv W
  pub flags : SyncFlags
  pub quotas : List (ℕ × ℕ)
  pub prefix_error : String → String → String
  pub get_lbrycrd_client : W → Result String (Unit {0}) × W
  pub simple_send : String → ℕ → W → Result String (Unit {0}) × W
  pub address_unused : String → W → Result String (Option String) × W
  pub address_list : W → Result String (Option (List String)) × W
  pub account_balance : Option String → W → Result String (Option (Result String Amount)) × W
  pub account_send : String → ℕ → String → W → Result String (Unit {0}) × W
  pub account_fund : String → ℕ → ℕ → W → Result String (Option (Unit {0})) × W
  pub txo_spend : String → W → Result String (Unit {0}) × W
  pub utxo_list : String → W → Result String (Option (List Utxo)) × W
  -- uint64 of a negative float depends on the machine.
  pub uint64_of_debt : ℕ → ℕ
  pub wait_for_new_block : W → Result String (Unit {0}) × W
  pub channel_list : W → Result String (Option (List ListedChannel)) × W
  pub channel_update : String → String → ClaimCreateOptions → W → Result String (List String) × W
  pub channel_create : String → ℕ → ClaimCreateOptions → W → Result String (List String) × W
  pub get_ip_pool : W → Result String (Unit {0}) × W
  pub channel_info : String → ℕ → W → Result String ChannelInfo × W
  pub mirror_thumbnail : String → String → W → Result String String × W
  pub get_tags_for_channel : String → List String
  pub set_channel_claim_id : String → String → W → Result String (Unit {0}) × W

-- `x < y`, for a balance and an amount.
abbrev pub is_below : Amount → ℕ → Bool
is_below (credit b) a = ltb b a
is_below (debt d) a = true

module _ {W : Type 0} where
  -- `if x == nil { return errors.Err(msg) }`
  abbrev pub or_missing : {A : Type 0} → String → Option A → Method (Sync W) A
  or_missing msg none s = (err msg, s)
  or_missing msg (some a) s = (ok a, s)

  -- `if err != nil { return err }`, for a value that was parsed.
  abbrev pub parsed : {A : Type 0} → Result String A → Method (Sync W) A
  parsed r s = (r, s)

module _ {W : Type 0} (env : SetupEnv W) where
  unfoldable pub read_balance : Option String → Method (Sync W) Amount
  read_balance account = do
    answer ← on_world (env.account_balance account)
    text ← or_missing "no response" answer
    parsed text

  unfoldable pub add_credits : ℕ → Method (Sync W) (Unit {0})
  add_credits amount = do
    on_world env.get_lbrycrd_client
    account ← get_default_account env.accounts
    answer ← on_world (env.address_unused account)
    address ← or_missing "no response" answer
    on_world (env.simple_send address amount)
