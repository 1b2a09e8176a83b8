-- ===== src/Manager/Accounts.antt =====
-- The accounts of the wallet: getDefaultAccount and enableAddressReuse of manager/setup.go,
-- importPublicKey of manager/ytsync.go. The daemon's calls are arguments; a nil ledger of an
-- account (a panic) is not modelled.
use ytsync.Base.{
  String, Bool, false, not, ◌&&◌, ◌≡◌, refl, List, [], ◌∷◌, str_eq, if◌then◌else◌, Result, ok, err,
  Method, return, resume, ◌>>=◌, keep, any, arith, inl, inr, Bool-cases,
}
use ytsync.Manager.State.{Sync, on_world}

pub record Account : Type 0 where
  pub id : String
  pub ledger : String
  pub is_default : Bool
  pub public_key : String

-- The calls of the daemon that concern accounts.
pub record AccountEnv (W : Type 0) : Type 0 where
  pub is_reg_test : Bool
  pub account_list : W → Result String (List Account) × W
  pub account_set : String → W → Result String (Unit {0}) × W
  pub account_add : String → String → W → Result String (Unit {0}) × W

module _ {W : Type 0} (env : AccountEnv W) where
  abbrev pub ledger : String
  ledger = if env.is_reg_test then "lbc_regtest" else "lbc_mainnet"

  -- The loop of getDefaultAccount: the id of the first default account of the ledger, if any.
  abbrev pub first_default : List Account → String
  first_default [] = ""
  first_default (a ∷ rest) =
      if str_eq a.ledger ledger && a.is_default then a.id else first_default rest

  abbrev pub choose_account : String → Method (Sync W) String
  choose_account id s =
      if str_eq id ""
      then (err "No default account found", s)
      else (ok id, record s { default_account_id = id })

  unfoldable pub get_default_account : Method (Sync W) String
  get_default_account s =
      if str_eq s.default_account_id ""
      then (do accounts ← on_world env.account_list; choose_account (first_default accounts)) s
      else (ok s.default_account_id, s)

  -- The loop of enableAddressReuse over the accounts of the ledger.
  unfoldable pub set_accounts : List Account → Method (Sync W) (Unit {0})
  set_accounts [] s = (ok tt, s)
  set_accounts (a ∷ rest) s = resume (λ _. set_accounts rest) (on_world (env.account_set a.id) s)

  unfoldable pub enable_address_reuse : Method (Sync W) (Unit {0})
  unfolding set_accounts
  enable_address_reuse = do
    accounts ← on_world env.account_list
    set_accounts (keep (λ a. str_eq a.ledger ledger) accounts)

  abbrev pub is_imported : String → Account → Bool
  is_imported key a = str_eq a.ledger ledger && str_eq a.public_key key

  unfoldable pub import_public_key : Method (Sync W) (Unit {0})
  import_public_key s =
      let key = s.db_channel_data.public_key in
      if not (str_eq key "")
      then (do
        accounts ← on_world env.account_list
        if any (is_imported key) accounts
            then return tt
            else on_world (env.account_add s.db_channel_data.desired_channel_name key))
          s
      else (ok tt, s)

  chosen_account :
      (accounts : Result String (List Account)) (s t : Sync W) (id : String)
      → resume (λ list. choose_account (first_default list)) (accounts, s) ≡ (ok id, t)
      → (t ≡ record s { default_account_id = id }) × (str_eq id "" ≡ false)
  chosen_account (err e) s t id h = absurd (ground arith)
  chosen_account (ok list) s t id h = elim (Bool-cases (str_eq (first_default list) "")) [
    | inl e ↦ absurd (ground arith)
    | inr e ↦ (ground arith, ground arith)
  ]

  -- Once getDefaultAccount has returned an account, it returns the same account at every later call,
  -- and asks the daemon no more. The account is never the empty text.
  pub get_default_account_once :
      (s t : Sync W) (id : String)
      → get_default_account s ≡ (ok id, t)
      → (get_default_account t ≡ (ok id, t)) × (str_eq id "" ≡ false)
  unfolding get_default_account
  get_default_account_once s t id h = elim (Bool-cases (str_eq s.default_account_id "")) [
    | inl e ↦
        (let c =
            chosen_account (env.account_list s.world).0
              (record s { world = (env.account_list s.world).1 }) t id (ground arith) in
          (ground (arith, c.0, c.1), c.1))
    | inr e ↦ (ground arith, ground arith)
  ]

  keeps_map :
      (accounts : Result String (List Account)) (s : Sync W)
      → (resume (λ list. choose_account (first_default list)) (accounts, s)).1.synced_videos
        ≡ s.synced_videos
  keeps_map (err e) s = refl
  keeps_map (ok list) s = ground arith

  -- The entries of the videos are not touched.
  pub get_default_account_synced_videos :
      (s : Sync W) → (get_default_account s).1.synced_videos ≡ s.synced_videos
  unfolding get_default_account
  get_default_account_synced_videos s =
      let k =
        keeps_map (env.account_list s.world).0
          (record s { world = (env.account_list s.world).1 }) in
      ground (arith, k)
