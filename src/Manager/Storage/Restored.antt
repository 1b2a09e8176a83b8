-- ===== src/Manager/Storage/Restored.antt =====
-- The wallet that uploadWallet has sent is the one that downloadWallet puts back.
use ytsync.Base.{
  if◌then◌else◌, true, false, ℕ, ◌≡◌, refl, sym, ap, subst, ◌∙◌, String, Bool, true, false, Option,
  none, some, Result, ok, err, bind-ok, arith,
}
use ytsync.Manager.Storage.{
  StorageEnv, WalletPaths, S3Error, get_default_wallet_path, wallet_key, uploaded, try_upload,
  send_wallet, upload_wallet, get_wallet_paths, fetch_wallet, received, download_wallet,
  or_prefixed, get_s3_client, looked,
}
use ytsync.Manager.Storage.Laws.{StorageLaws}
use ytsync.Manager.Storage.Kept.{wallet, stored, Tried, first-Tried}

module _ {W : Type 0} (env : StorageEnv W) where
  or_prefixed-ok :
      {A : Type 0} (before : String) (r : Result String A × W) (a : A) (w : W)
      → or_prefixed env before r ≡ (ok a, w)
      → r ≡ (ok a, w)
  or_prefixed-ok before (ok b, u) a w h = h
  or_prefixed-ok before (err e, u) a w h = absurd (ground arith)

  client-ok : (a : Unit {0}) (w u : W) → get_s3_client env w ≡ (ok a, u) → w ≡ u
  client-ok a w u h =
      ap (λ r. r.1) (or_prefixed-ok "error starting session" (env.new_session w, w) a u h)

  uploaded-ok :
      (r : Option String × W) (a : Unit {0}) (w : W) → uploaded env r ≡ (ok a, w) → r ≡ (none, w)
  uploaded-ok (none, u) a w h = ap (λ x. (none, x.1)) h
  uploaded-ok (some e, u) a w h = absurd (ground arith)

  received-ok :
      (r : Result S3Error ℕ × W) (a : Unit {0}) (w : W)
      → received env r ≡ (ok a, w)
      → (n : ℕ) × (r ≡ (ok n, w))
  unfolding received
  received-ok (ok n, u) a w h = (n, ap (λ x. (ok n, x.1)) h)
  received-ok (err e, u) a w h = absurd (ground arith)

  found-ok :
      (b : Bool) (here paths : WalletPaths) (w u : W)
      → ◌≡◌ {A = Result String WalletPaths × W}
          (if b then (err "default_wallet already exists", w) else (ok here, w))
          (ok paths, u)
      → (w ≡ u) × (here ≡ paths)
  found-ok true here paths w u h = absurd (ground arith)
  found-ok false here paths w u h = (ap (λ r. r.1) h, ground (arith, h))

  sent-ok :
      (b : Bool) (r : Result String (Unit {0}) × W) (w u : W)
      → (if b then r else (err "default_wallet does not exist", w)) ≡ (ok tt, u)
      → r ≡ (ok tt, u)
  sent-ok true r w u h = h
  sent-ok false r w u h = absurd (ground arith)

  get_wallet_paths-ok :
      (channel : String) (w u : W) (paths : WalletPaths)
      → get_wallet_paths env channel w ≡ (ok paths, u)
      → (w ≡ u)
        × (get_default_wallet_path env ≡ paths.default_wallet)
        × (wallet_key env channel ≡ paths.key)
  unfolding get_wallet_paths
  get_wallet_paths-ok channel w u paths h =
      let (same, these) = found-ok (env.exists (get_default_wallet_path env) w) _ paths w u h in
      (same, ap (λ p. p.default_wallet) these, ap (λ p. p.key) these)

  module _ {C : Type 0} (laws : StorageLaws env C) where
    pub upload_wallet-ok :
        (channel : String) (w u : W)
        → upload_wallet env channel w ≡ (ok tt, u)
        → (wallet env laws u ≡ none) × (stored env laws channel u ≡ wallet env laws w)
    unfolding upload_wallet
    upload_wallet-ok channel w u h =
        let path = get_default_wallet_path env in
        let sent : send_wallet env channel w ≡ (ok tt, u) = sent-ok (env.exists path w) _ w u h in
        let (a, w1, h1, k1) = bind-ok (get_s3_client env) _ tt w u sent in
        let (b, w2, h2, k2) = bind-ok (looked env (env.open_file path)) _ tt w1 u k1 in
        let (c, w3, h3, k3) = bind-ok (try_upload env channel) (λ _. env.remove path) tt w2 u k2 in
        let key = wallet_key env channel in
        let from_w : w ≡ w2 = client-ok a w w1 h1 ∙ ap (λ r. r.1) h2 in
        let (same, up) =
          subst (Tried env laws channel w2) (uploaded-ok _ c w3 h3)
            (first-Tried env laws channel w2) in
        let away =
          subst (λ r. laws.file path r.1 ≡ none) k3 (laws.remove-gone path w3 (ap (λ r. r.0) k3)) in
        let still =
          subst (λ r. laws.object env.wallet_bucket key r.1 ≡ stored env laws channel w3) k3
            ((laws.remove-only path w3).1 env.wallet_bucket key) in
        (away, still ∙ (up refl ∙ ap (wallet env laws) (sym from_w)))

    pub download_wallet-ok :
        (channel : String) (w u : W)
        → download_wallet env channel w ≡ (ok tt, u)
        → wallet env laws u ≡ stored env laws channel w
    unfolding download_wallet
    download_wallet-ok channel w u h =
        let (paths, w1, h1, k1) =
          bind-ok (get_wallet_paths env channel) (fetch_wallet env) tt w u h in
        let (a, w2, h2, k2) = bind-ok (get_s3_client env) _ tt w1 u k1 in
        let (b, w3, h3, k3) =
          bind-ok
            (λ x. or_prefixed env "error creating temp wallet" (env.create paths.temp_wallet x)) _
            tt w2 u k2 in
        let (c, w4, h4, k4) =
          bind-ok (λ x. received env (env.download env.wallet_bucket paths.key paths.temp_wallet x))
            _ tt w3 u k3 in
        let bucket = env.wallet_bucket in
        let (same, at, by_) = get_wallet_paths-ok channel w w1 paths h1 in
        let hc = or_prefixed-ok _ _ b w3 h3 in
        let (n, hd) = received-ok _ c w4 h4 in
        let hr = or_prefixed-ok _ _ tt u k4 in
        let unmoved =
          subst (λ r. laws.object bucket paths.key r.1 ≡ laws.object bucket paths.key w2) hc
            ((laws.create-only paths.temp_wallet w2).1 bucket paths.key) in
        let fetched =
          subst (λ r. laws.file paths.temp_wallet r.1 ≡ laws.object bucket paths.key w3) hd
            (laws.download-ok bucket paths.key paths.temp_wallet w3 n (ap (λ r. r.0) hd)) in
        let placed =
          subst (λ r. laws.file paths.default_wallet r.1 ≡ laws.file paths.temp_wallet w4) hr
            (laws.rename-ok paths.temp_wallet paths.default_wallet w4 (ap (λ r. r.0) hr)) in
        ap (λ p. laws.file p u) at
        ∙ (placed
            ∙ (fetched
                ∙ (unmoved
                    ∙ (ap (λ k. laws.object bucket k w2) (sym by_)
                        ∙ ap (stored env laws channel) (sym (same ∙ client-ok a w1 w2 h2))))))

    -- When uploadWallet has succeeded and then downloadWallet for the same channel, the wallet's file
    -- has the content that it had before both.
    pub download_wallet-upload_wallet :
        (channel : String) (w u v : W)
        → upload_wallet env channel w ≡ (ok tt, u)
        → download_wallet env channel u ≡ (ok tt, v)
        → wallet env laws v ≡ wallet env laws w
    download_wallet-upload_wallet channel w u v h k =
        download_wallet-ok channel u v k ∙ (upload_wallet-ok channel w u h).1
