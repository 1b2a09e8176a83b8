-- ===== src/Manager/Transfer/Supports.antt =====
-- processTransfers of manager/ytsync.go, whose last step gives the abandoned supports back as a tip.
use ytsync.Base.{
  ℕ, String, Option, none, some, contains, ltb, ◌==◌, if◌then◌else◌, Result, ok, err, Method,
  return, resume, ◌>>=◌, ◌>>◌,
}
use ytsync.Shared.Status
use ytsync.Manager.State.{Sync, on_world}
use ytsync.Manager.Accounts.{get_default_account}
use ytsync.Manager.Transfer.{TransferEnv, wait_confirmations, transfer_videos, transfer_channel}

module _ {W : Type 0} (env : TransferEnv W) where
  -- An error with a text before it; a nil error stays nil.
  abbrev pub or_nil : Option String → Result String (Unit {0})
  or_nil none = ok tt
  or_nil (some e) = err e

  -- return errors.Prefix("something went wrong …", err)
  abbrev pub tip_failed : ℕ → String → Method (Sync W) (Unit {0})
  tip_failed amount e s = (or_nil (env.prefix_error (env.failed_tip amount) (some e)), s)

  abbrev pub check_outputs : ℕ → ℕ → Method (Sync W) (Unit {0})
  check_outputs amount outputs s =
      if ltb outputs 1 then (err (env.failed_tip amount), s) else (ok tt, s)

  abbrev pub create_support : ℕ → String → Method (Sync W) ℕ
  create_support amount account s =
      on_world (env.support_create s.db_channel_data.channel_claim_id amount account) s

  abbrev pub tip_again : ℕ → Result String ℕ × Sync W → Result String (Unit {0}) × Sync W
  tip_again amount (ok outputs, s) = check_outputs amount outputs s
  tip_again amount (err e, s) = tip_failed amount e s

  abbrev pub tip_after_block :
      ℕ → String → Result String (Unit {0}) × Sync W → Result String (Unit {0}) × Sync W
  tip_after_block amount account (ok _, s) = tip_again amount (create_support amount account s)
  tip_after_block amount account (err e, s) =
      (or_nil (env.prefix_error (env.failed_tip amount) (some e)), s)

  -- The outputs are joined first; `before` is the error of the first attempt.
  abbrev pub tip_after_spend :
      ℕ → String → String → Result String (Unit {0}) × Sync W → Result String (Unit {0}) × Sync W
  tip_after_spend amount account before (ok _, s) =
      tip_after_block amount account (on_world env.wait_for_new_block s)
  tip_after_spend amount account before (err _, s) = tip_failed amount before s

  unfoldable pub tip : ℕ → String → Result String ℕ × Sync W → Result String (Unit {0}) × Sync W
  tip amount account (ok outputs, s) = check_outputs amount outputs s
  tip amount account (err e, s) =
      if contains e "tx-size"
      then tip_after_spend amount account e (on_world (env.txo_spend s.default_account_id) s)
      else tip_failed amount e s

  abbrev pub give_back : ℕ → String → Method (Sync W) (Unit {0})
  give_back amount account =
      if ltb 10000 amount
      then wait_confirmations env >> (λ s. tip amount account (create_support amount account s))
      else return tt

  abbrev pub after_abandon : (ℕ × Option String) × Sync W → Result String ℕ × Sync W
  after_abandon ((amount, none), s) = (ok amount, s)
  after_abandon ((amount, some e), s) =
      resume (λ _. λ t. (ok amount, t))
        (or_nil (env.prefix_error (env.failed_before amount) (some e)), s)

  abbrev pub abandon_all : Method (Sync W) ℕ
  abandon_all s = after_abandon (env.abandon_supports s)

  abbrev pub wait_if_pending : Method (Sync W) (Unit {0})
  wait_if_pending s =
      let r = wait_confirmations env s in
      if s.db_channel_data.transfer_state == Status.transfer_complete then (ok tt, s) else r

  unfoldable pub process_transfers : Method (Sync W) (Unit {0})
  process_transfers = do
    wait_if_pending
    amount ← abandon_all
    transfer_videos env
    transfer_channel env
    account ← get_default_account env.accounts
    give_back amount account
