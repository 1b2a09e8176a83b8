-- ===== src/Util/Startup/Held.antt =====
-- When a clean start removes something.
use ytsync.Base.{
  ℕ, ◌-◌, ◌≡◌, refl, ◌⊎◌, inl, inr, String, Bool, true, false, Option, none, some, Result, ok, err,
  Method, resume, Bool-cases, if◌then◌else◌, ltb, ◌>>◌, ◌∙◌,
}
use ytsync.Util.Daemon.{
  is_reg_test, is_using_docker, is_lbrynet_running, stop_daemon, with_container,
  get_lbrynet_container,
}
use ytsync.Util.Startup.{
  StartupEnv, asked, cleanup_lbrynet, unless_running, stop_if, retold_client, get_lbrycrd_client,
  generate_missing, min_blocks_for_utxo, remove_wallet, fund_and_remove_wallet, clean,
  clean_for_startup,
}

-- What is seen of the world is a matter of these calls no more.
pub record HostLaws {W C : Type 0} (env : StartupEnv W) (seen : W → C) : Type 0 where
  pub systemctl-seen :
      (action service : String) (w : W) → seen (env.host.systemctl action service w).1 ≡ seen w
  pub container_stop-seen : (id : String) (w : W) → seen (env.host.container_stop id w).1 ≡ seen w
  pub get_block_count-seen : (w : W) → seen (env.get_block_count w).1 ≡ seen w
  pub generate-seen : (n : ℕ) (w : W) → seen (env.generate n w).1 ≡ seen w

module _ {W C : Type 0} (env : StartupEnv W) (seen : W → C) (laws : HostLaws env seen) where
  -- What is seen is as it was, or the daemon was found not to run in a test.
  abbrev pub Safe : W → W → Type 0
  Safe w t =
      (seen t ≡ seen w)
      ⊎ ((is_reg_test env.host ≡ true) × (u : W) × (is_lbrynet_running env.host u ≡ ok false))

  resume_same :
      {A B : Type 0} (k : A → Method W B) (r : Result String A × W) (w : W)
      → seen r.1 ≡ seen w
      → ((a : A) (u : W) → seen (k a u).1 ≡ seen u)
      → seen (resume k r).1 ≡ seen w
  resume_same k (ok a, u) w h rest = rest a u ∙ h
  resume_same k (err e, u) w h rest = h

  generate_missing_same : (n : ℕ) (w : W) → seen (generate_missing env n w).1 ≡ seen w
  generate_missing_same n w = elim (Bool-cases (ltb n min_blocks_for_utxo)) [
    | inl e ↦ rw e (laws.generate-seen (min_blocks_for_utxo - n) w)
    | inr e ↦ rw e refl
  ]

  module _ (wallet-seen : (w : W) → seen (env.remove env.default_wallet_path w).1 ≡ seen w) where
    remove_wallet_same : (w : W) → seen (remove_wallet env w).1 ≡ seen w
    remove_wallet_same w = elim (Bool-cases (env.exists env.default_wallet_path w)) [
      | inl e ↦ rw e (wallet-seen w)
      | inr e ↦ rw e refl
    ]

    fund_and_remove_wallet_same : (w : W) → seen (fund_and_remove_wallet env w).1 ≡ seen w
    fund_and_remove_wallet_same w =
        resume_same _ (asked env (λ v. retold_client env (get_lbrycrd_client env v)) w) w refl
          (λ a u.
            resume_same (λ n. generate_missing env n >> remove_wallet env) (env.get_block_count u) u
              (laws.get_block_count-seen u)
              (λ n v.
                resume_same (λ _. remove_wallet env) (generate_missing env n v) v
                  (generate_missing_same n v) (λ b x. remove_wallet_same x)))

    with_container_same :
        (o : Result String (Option String)) (w : W)
        → seen (with_container env.host env.host.container_stop o w).1 ≡ seen w
    with_container_same (ok (some c)) w = laws.container_stop-seen c w
    with_container_same (ok none) w = refl
    with_container_same (err e) w = refl

    stop_if_same : (b : Bool) (w : W) → seen (stop_if env b w).1 ≡ seen w
    unfolding stop_daemon
    stop_if_same false w = refl
    stop_if_same true w = elim (Bool-cases (is_using_docker env.host)) [
      | inl e ↦ rw e (with_container_same (get_lbrynet_container env.host false w) w)
      | inr e ↦ rw e (laws.systemctl-seen "stop" "lbrynet.service" w)
    ]

    module _ (reg_test : is_reg_test env.host ≡ true) (w : W) where
      cleaned-Safe :
          (u : W) (o : Result String Bool)
          → is_lbrynet_running env.host u ≡ o
          → seen u ≡ seen w
          → Safe w (resume (λ _. fund_and_remove_wallet env) (resume (unless_running env) (o, u))).1
      cleaned-Safe u (err e) h same = inl same
      cleaned-Safe u (ok false) h same = inr (reg_test, u, h)
      cleaned-Safe u (ok true) h same = inl (
          resume_same (λ _. fund_and_remove_wallet env) (unless_running env true u) w same
            (λ a v. fund_and_remove_wallet_same v))

      stopped-Safe :
          (r : Result String (Unit {0}) × W)
          → seen r.1 ≡ seen w
          → Safe w (resume (λ _. cleanup_lbrynet env >> fund_and_remove_wallet env) r).1
      unfolding cleanup_lbrynet
      stopped-Safe (err e, u) same = inl same
      stopped-Safe (ok a, u) same = cleaned-Safe u (is_lbrynet_running env.host u) refl same

      asked-Safe :
          (o : Result String Bool)
          → Safe w
              (resume
                (λ b. stop_if env b >> (cleanup_lbrynet env >> fund_and_remove_wallet env))
                (o, w)).1
      asked-Safe (err e) = inl refl
      asked-Safe (ok b) = stopped-Safe (stop_if env b w) (stop_if_same b w)

    tested-Safe :
        (b : Bool) (w : W) (refused : Result String (Unit {0}))
        → is_reg_test env.host ≡ b
        → Safe w (if b then clean env w else (refused, w)).1
    tested-Safe true w refused e = asked-Safe e w (is_lbrynet_running env.host w)
    tested-Safe false w refused e = inl refl

    -- What is seen of the world may be anything that stopping the daemon, the calls of lbrycrd and the
    -- removal of the wallet leave alone. CleanForStartup leaves it alone too, or it is a test, and the
    -- daemon was found not to run.
    pub clean_for_startup-Safe : (w : W) → Safe w (clean_for_startup env w).1
    unfolding clean_for_startup
    clean_for_startup-Safe w = tested-Safe (is_reg_test env.host) w _ refl
