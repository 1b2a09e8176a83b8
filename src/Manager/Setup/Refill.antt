-- ===== src/Manager/Setup/Refill.antt =====
-- How much walletSetup adds to a wallet, and the address that it leaves.
use ytsync.Base.{
  ℕ, ◌*◌, ◌≤◌, ◌≡◌, refl, sym, subst, ◌∙◌, ap, String, true, false, ◌||◌, ◌==◌, ◌⊎◌, ◌-◌, ◌>>◌, inl,
  inr, Option, none, some, List, Result, ok, str_eq, ltb, Bool-cases, Method, return, bind-ok,
  ◌>>=◌, arith,
}
use ytsync.Manager.State.{Sync, on_world}
use ytsync.Manager.Unchanged.{
  Unchanged, on_world-Unchanged, bind-Unchanged, if-Unchanged, get_default_account-Unchanged,
}
use ytsync.Manager.Accounts.{get_default_account}
use ytsync.Manager.Setup.{
  SetupEnv, Amount, credit, debt, lbc, is_below, minimum_account_balance, minimum_refill_amount,
  read_balance, or_missing, parsed,
}
use ytsync.Shared.{YoutubeChannel}
use ytsync.Manager.Setup.Ownership.{ensure_channel_ownership}
use ytsync.Manager.Setup.Utxos.{
  utxo_wait_threshold, ensure_enough_utxos, refill_utxos, split_balance, wait_if_few, count_utxos,
  desired_utxo_count, to_split, tenth, target, slack,
}
use ytsync.Manager.Setup.Wallet.{
  missing, refill_amount, wallet_setup, unless_empty, fund_and_address, settle_for, set_address,
  check_address,
}

-- The refill brings a wallet to what the videos need and to the minimum balance of one LBC. It is
-- what the flag asks for where the balance is not below these, and else at least one LBC.
pub refill_amount_covers :
    (refill required : ℕ) (balance : Amount)
    → (missing required balance ≤ refill_amount refill required balance)
      × (missing minimum_account_balance balance ≤ refill_amount refill required balance)
      × (((is_below balance required ≡ false)
            × (is_below balance minimum_account_balance ≡ false)
            × (refill_amount refill required balance ≡ refill * lbc))
          ⊎ (minimum_refill_amount ≤ refill_amount refill required balance))
unfolding refill_amount
refill_amount_covers refill required (credit b) = (
  ground arith,
  ground arith,
  elim (Bool-cases (ltb b required || ltb b minimum_account_balance)) [
    | inl e1 ↦ inr (ground (arith, e1))
    | inr e2 ↦ inl (ground (arith, e2), ground (arith, e2), ground (arith, e2))
  ],
)
refill_amount_covers refill required (debt d) = (omega arith, omega arith, inr (omega arith))

module _ {W : Type 0} (env : SetupEnv W) where
  or_missing-Unchanged :
      {A : Type 0} (msg : String) (o : Option A) → Unchanged {W = W} (or_missing msg o)
  or_missing-Unchanged msg none s = refl
  or_missing-Unchanged msg (some a) s = refl

  read_balance-Unchanged : (account : Option String) → Unchanged (read_balance env account)
  unfolding read_balance
  read_balance-Unchanged account =
      bind-Unchanged (on_world (env.account_balance account)) _
        (on_world-Unchanged (env.account_balance account))
        λ answer.
          bind-Unchanged (or_missing "no response" answer) parsed
            (or_missing-Unchanged "no response" answer) λ text. λ s. refl

  wait_if_few-Unchanged : (confirmed : ℕ) → Unchanged (wait_if_few env confirmed)
  wait_if_few-Unchanged confirmed =
      if-Unchanged (ltb confirmed utxo_wait_threshold) (on_world env.wait_for_new_block) (return tt)
        (on_world-Unchanged env.wait_for_new_block) (λ s. refl)

  abbrev fund : String → ℕ → ℕ → ℕ → Method (Sync W) (Unit {0})
  fund account confirmed amount desired = do
    answer ← on_world (env.account_fund account amount desired)
    or_missing "no response" answer
    wait_if_few env confirmed

  fund-Unchanged :
      (account : String) (confirmed amount desired : ℕ)
      → Unchanged (fund account confirmed amount desired)
  fund-Unchanged account confirmed amount desired =
      bind-Unchanged (on_world (env.account_fund account amount desired)) _
        (on_world-Unchanged (env.account_fund account amount desired))
        λ answer.
          bind-Unchanged (or_missing "no response" answer) (λ _. wait_if_few env confirmed)
            (or_missing-Unchanged "no response" answer) λ _. wait_if_few-Unchanged confirmed

  split_balance-Unchanged :
      (account : String) (confirmed : ℕ) (balance : Amount)
      → Unchanged (split_balance env account confirmed balance)
  unfolding split_balance
  split_balance-Unchanged account confirmed balance s =
      let desired = desired_utxo_count env balance in
      elim (Bool-cases (ltb desired confirmed)) [
        | inl e1 ↦ rw e1 refl
        | inr e2 ↦ elim (Bool-cases (is_below balance tenth)) [
          | inl e3 ↦ rw (e2, e3) refl
          | inr e4 ↦ rw (e2, e4) (fund-Unchanged account confirmed (to_split env balance) desired s)
        ]
      ]

  refill_utxos-Unchanged :
      (account : String) (counts : ℕ × ℕ) → Unchanged (refill_utxos env account counts)
  unfolding refill_utxos
  refill_utxos-Unchanged account (count, confirmed) =
      if-Unchanged (ltb count (target - slack))
        (read_balance env (some account) >>= split_balance env account confirmed)
        (wait_if_few env confirmed)
        (bind-Unchanged (read_balance env (some account)) (split_balance env account confirmed)
          (read_balance-Unchanged (some account)) (split_balance-Unchanged account confirmed))
        (wait_if_few-Unchanged confirmed)

  ensure_enough_utxos-Unchanged : Unchanged (ensure_enough_utxos env)
  unfolding ensure_enough_utxos
  ensure_enough_utxos-Unchanged =
      bind-Unchanged (get_default_account env.accounts) _
        (get_default_account-Unchanged env.accounts)
        λ account.
          bind-Unchanged (on_world (env.utxo_list account)) _
            (on_world-Unchanged (env.utxo_list account))
            λ answer.
              bind-Unchanged (or_missing "no response" answer)
                (λ utxos. refill_utxos env account (count_utxos utxos))
                (or_missing-Unchanged "no response" answer)
                λ utxos. refill_utxos-Unchanged account (count_utxos utxos)

  abbrev after_address : Method (Sync W) (Unit {0})
  after_address = check_address env >> ensure_enough_utxos env

  abbrev after_addresses : List String → Method (Sync W) (Unit {0})
  after_addresses addresses = set_address env addresses >> after_address

  abbrev after_list : Option (List String) → Method (Sync W) (Unit {0})
  after_list answer = or_missing "could not get an address" answer >>= after_addresses

  abbrev after_settle : Method (Sync W) (Unit {0})
  after_settle = on_world env.address_list >>= after_list

  check_address_unchanged :
      (s : Sync W)
      → str_eq s.db_channel_data.publish_address.address "" ≡ false
      → check_address env s ≡ (ok tt, s)
  unfolding check_address
  check_address_unchanged s e = rw e refl

  check_address-ok :
      (s t : Sync W)
      → check_address env s ≡ (ok tt, t)
      → (s ≡ t) × (str_eq s.db_channel_data.publish_address.address "" ≡ false)
  unfolding check_address
  check_address-ok s t h = elim (Bool-cases (str_eq s.db_channel_data.publish_address.address "")) [
    | inl e1 ↦ absurd (ground (arith, h, e1))
    | inr e2 ↦ (ap (λ r. r.1) (sym (check_address_unchanged s e2) ∙ h), e2)
  ]

  fund_and_address-ok :
      (balance : Amount) (s t : Sync W)
      → fund_and_address env balance s ≡ (ok tt, t)
      → str_eq t.db_channel_data.publish_address.address "" ≡ false
  unfolding fund_and_address
  fund_and_address-ok balance s t h =
      let (_, u, _, h1) = bind-ok (settle_for env balance) (λ _. after_settle) tt s t h in
      let (answer, v, _, h2) = bind-ok (on_world env.address_list) after_list tt u t h1 in
      let (addresses, w, _, h3) =
        bind-ok (or_missing "could not get an address" answer) after_addresses tt v t h2 in
      let (_, x, _, h4) = bind-ok (set_address env addresses) (λ _. after_address) tt w t h3 in
      let (_, y, checked, h5) =
        bind-ok (check_address env) (λ _. ensure_enough_utxos env) tt x t h4 in
      let (same, blank) = check_address-ok x y checked in
      let kept : t.db_channel_data ≡ x.db_channel_data =
        ap (λ (r : Result String (Unit {0}) × Sync W). r.1.db_channel_data) (sym h5)
        ∙ (ensure_enough_utxos-Unchanged y ∙ ap (λ (z : Sync W). z.db_channel_data) (sym same)) in
      subst (λ (c : YoutubeChannel). str_eq c.publish_address.address "" ≡ false) (sym kept) blank

  skipped :
      (balance : Amount) (s : Sync W)
      → s.db_channel_data.total_videos == 0 ≡ true
      → unless_empty env balance s ≡ (ok tt, s)
  skipped balance s e = rw e refl

  taken :
      (balance : Amount) (s : Sync W)
      → s.db_channel_data.total_videos == 0 ≡ false
      → unless_empty env balance s ≡ fund_and_address env balance s
  taken balance s e = rw e refl

  -- When walletSetup succeeds and the channel has videos, there is an address to publish to.
  pub wallet_setup-ok :
      (s t : Sync W)
      → wallet_setup env s ≡ (ok tt, t)
      → (t.db_channel_data.total_videos == 0 ≡ true)
        ⊎ (str_eq t.db_channel_data.publish_address.address "" ≡ false)
  unfolding wallet_setup
  wallet_setup-ok s t h =
      let (_, u, _, h1) =
        bind-ok (ensure_channel_ownership env) (λ _. read_balance env none >>= unless_empty env) tt
          s t h in
      let (balance, v, _, h2) = bind-ok (read_balance env none) (unless_empty env) tt u t h1 in
      elim (Bool-cases (v.db_channel_data.total_videos == 0)) [
        | inl e1 ↦ inl (
            subst (λ (z : Sync W). z.db_channel_data.total_videos == 0 ≡ true)
              (ap (λ (r : Result String (Unit {0}) × Sync W). r.1)
                (sym (skipped balance v e1) ∙ h2))
              e1)
        | inr e2 ↦ inr (fund_and_address-ok balance v t (sym (taken balance v e2) ∙ h2))
      ]
