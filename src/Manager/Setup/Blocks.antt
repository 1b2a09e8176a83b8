-- ===== src/Manager/Setup/Blocks.antt =====
-- waitForNewBlock of manager/setup.go, on fuel for each of its two loops; sleeping has no effect
-- but what the world does until the next call.
pub mod Ends
use ytsync.Base.{
  ℕ, zero, suc, ◌<◌, ◌≤◌, ◌⊎◌, leb→le, ◌≡◌, ◌+◌, ◌∙◌, ap, refl, String, Bool, true, false, not,
  ◌||◌, Option, none, some, Result, ok, err, inl, inr, Bool-cases, if◌then◌else◌, leb, ◌==◌, arith,
}

-- The wallet's part of the daemon's status.
pub record WalletStatus : Type 0 where
  pub blocks : ℕ
  pub blocks_behind : ℕ

pub record BlockEnv (W : Type 0) : Type 0 where
  pub status : W → Result String WalletStatus × W
  pub generates_blocks : Bool
  pub generate_regtest_block : W → Result String (Unit {0}) × W

abbrev pub is_synced : WalletStatus → Bool
is_synced st = not (st.blocks == 0 || not (st.blocks_behind == 0))

module _ {W : Type 0} (env : BlockEnv W) where
  -- A further call of Status, after which a loop goes on.
  abbrev pub then_status :
      (WalletStatus → W → Option (Result String WalletStatus × W))
      → Result String WalletStatus × W
      → Option (Result String WalletStatus × W)
  then_status next (ok st, w) = next st w
  then_status next (err e, w) = some (err e, w)

  -- The first loop, which waits for a wallet that is not behind; `none`: still waiting.
  unfoldable pub until_synced : ℕ → WalletStatus → W → Option (Result String WalletStatus × W)
  until_synced zero st w = none
  until_synced (suc n) st w =
      let again = then_status (until_synced n) (env.status w) in
      if is_synced st then some (ok st, w) else again

  abbrev pub generate : W → Result String (Unit {0}) × W
  generate w = if env.generates_blocks then env.generate_regtest_block w else (ok tt, w)

  abbrev pub generate_then :
      (WalletStatus → W → Option (Result String WalletStatus × W))
      → Result String (Unit {0}) × W
      → Option (Result String WalletStatus × W)
  generate_then next (ok _, w) = then_status next (env.status w)
  generate_then next (err e, w) = some (err e, w)

  -- The second loop, which waits for a block above the height.
  unfoldable pub until_higher : ℕ → ℕ → WalletStatus → W → Option (Result String WalletStatus × W)
  until_higher zero current st w = none
  until_higher (suc n) current st w =
      let again = generate_then (until_higher n current) (generate w) in
      if leb st.blocks current then again else some (ok st, w)

  abbrev pub then_higher :
      ℕ → Option (Result String WalletStatus × W) → Option (Result String WalletStatus × W)
  then_higher g none = none
  then_higher g (some (err e, w)) = some (err e, w)
  then_higher g (some (ok st, w)) = until_higher g st.blocks st w

  -- waitForNewBlock; on success its last status is the result.
  unfoldable pub wait_for_new_block : ℕ → ℕ → W → Option (Result String WalletStatus × W)
  wait_for_new_block f g w = then_higher g (then_status (until_synced f) (env.status w))
