-- ===== src/Manager/Setup/Utxos.antt =====
-- ensureEnoughUTXOs of manager/setup.go.
use ytsync.Base.{
  ℕ, suc, ◌-◌, ◌/◌, min, String, Bool, ◌&&◌, some, List, [], ◌∷◌, ltb, if◌then◌else◌, ok, err,
  Method, return, ◌>>=◌, ◌>>◌,
}
use ytsync.Manager.State.{Sync, on_world}
use ytsync.Manager.Accounts.{get_default_account}
use ytsync.Manager.Setup.{SetupEnv, Amount, credit, debt, Utxo, or_missing, read_balance, is_below}

abbrev pub target : ℕ
target = 40

-- int(float32(0.1) * float32(target))
abbrev pub slack : ℕ
slack = 4

abbrev pub utxo_wait_threshold : ℕ
utxo_wait_threshold = 16

abbrev pub max_utxos : ℕ
max_utxos = 500

-- 0.1 LBC: the size of an output, the smallest balance to split, and the fee that is kept back.
abbrev pub tenth : ℕ
tenth = 10000000

abbrev pub is_counted : Utxo → Bool
is_counted u = u.is_my_output && u.is_payment && ltb 100000 u.amount

-- The loop over the outputs: how many there are, and how many of them are confirmed.
unfoldable pub count_utxos : List Utxo → ℕ × ℕ
count_utxos [] = (0, 0)
count_utxos (u ∷ us) =
    let (count, confirmed) = count_utxos us in
    if is_counted u
    then (suc count, if ltb 0 u.confirmations then suc confirmed else confirmed)
    else (count, confirmed)

module _ {W : Type 0} (env : SetupEnv W) where
  -- desiredUTXOCount
  unfoldable pub desired_utxo_count : Amount → ℕ
  desired_utxo_count (credit b) = min (b / tenth) max_utxos
  desired_utxo_count (debt d) = min (env.uint64_of_debt d) max_utxos

  -- What is split, less the fee.
  abbrev pub to_split : Amount → ℕ
  to_split (credit b) = b - tenth
  to_split (debt d) = 0

  abbrev pub wait_if_few : ℕ → Method (Sync W) (Unit {0})
  wait_if_few confirmed =
      if ltb confirmed utxo_wait_threshold then on_world env.wait_for_new_block else return tt

  unfoldable pub split_balance : String → ℕ → Amount → Method (Sync W) (Unit {0})
  unfolding desired_utxo_count
  split_balance account confirmed balance s =
      let desired = desired_utxo_count balance in
      let fund =
        (do
          answer ← on_world (env.account_fund account (to_split balance) desired)
          or_missing "no response" answer
          wait_if_few confirmed)
          s in
      if ltb desired confirmed
      then (ok tt, s)
      else if is_below balance tenth
      then (err "not enough balance to split UTXOs", s)
      else fund

  unfoldable pub refill_utxos : String → ℕ × ℕ → Method (Sync W) (Unit {0})
  refill_utxos account (count, confirmed) =
      if ltb count (target - slack)
      then read_balance env (some account) >>= split_balance account confirmed
      else wait_if_few confirmed

  unfoldable pub ensure_enough_utxos : Method (Sync W) (Unit {0})
  ensure_enough_utxos = do
    account ← get_default_account env.accounts
    answer ← on_world (env.utxo_list account)
    utxos ← or_missing "no response" answer
    refill_utxos account (count_utxos utxos)
