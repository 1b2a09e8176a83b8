-- ===== src/Manager/Storage/Kept.antt =====
-- A wallet is not lost, and comes back.
use ytsync.Base.{
  ℕ, zero, suc, ◌-◌, ◌≡◌, refl, ◌∙◌, ◌⊎◌, inl, inr, String, true, Option, none, some, ltb, Result,
  ok, err, Bool-cases, resume, arith,
}
use ytsync.Manager.Storage.{
  StorageEnv, get_default_wallet_path, wallet_key, upload_loop, after_upload, uploaded, upload_fuel,
  send_wallet, upload_wallet, or_prefixed,
}
use ytsync.Manager.Storage.Laws.{StorageLaws}

module _ {W C : Type 0} (env : StorageEnv W) (laws : StorageLaws env C) where
  abbrev pub wallet : W → Option C
  wallet w = laws.file (get_default_wallet_path env) w

  abbrev pub stored : String → W → Option C
  stored channel w = laws.object env.wallet_bucket (wallet_key env channel) w

  -- The wallet is where it was, or it is on S3.
  abbrev Safe : String → W → W → Type 0
  Safe channel w u = (wallet u ≡ wallet w) ⊎ (stored channel u ≡ wallet w)

  -- What the attempts leave: the file as it was, and after a success the object.
  abbrev pub Tried : String → W → Option String × W → Type 0
  Tried channel w r = (wallet r.1 ≡ wallet w) × (r.0 ≡ none → stored channel r.1 ≡ wallet w)

  after_upload-Tried :
      (channel : String) (w : W) (again : Option String → W → Option String × W)
      (r : Result String (Unit {0}) × W)
      → wallet r.1 ≡ wallet w
      → (r.0 ≡ ok tt → stored channel r.1 ≡ wallet w)
      → ((e : String) (u : W) → wallet u ≡ wallet w → Tried channel w (again (some e) u))
      → Tried channel w (after_upload env again r)
  after_upload-Tried channel w again (ok _, u) same up more = (same, λ _. up refl)
  after_upload-Tried channel w again (err e, u) same up more =
      more e (env.sleep 30 u) (laws.sleep-file 30 (get_default_wallet_path env) u ∙ same)

  later-Tried :
      (fuel : ℕ) (channel : String) (start : ℕ) (e : String) (w u : W)
      → wallet u ≡ wallet w
      → Tried channel w (upload_loop env fuel (wallet_key env channel) start (some e) u)
  unfolding upload_loop
  later-Tried zero channel start e w u same = (same, λ n. absurd (ground (arith, n)))
  later-Tried (suc fuel) channel start e w u same =
      elim (Bool-cases (ltb (env.now u - start) 1800)) [
        | inr late ↦ rw late (same, λ n. absurd (ground (arith, n)))
        | inl soon ↦ rw soon (
            let path = get_default_wallet_path env in
            let key = wallet_key env channel in
            after_upload-Tried channel w (upload_loop env fuel key start)
              (env.upload env.wallet_bucket key path u)
              (laws.upload-file env.wallet_bucket key path path u ∙ same)
              (λ good. laws.upload-ok env.wallet_bucket key path u good ∙ same)
              (λ f v k. later-Tried fuel channel start f w v k))
      ]

  pub first-Tried :
      (channel : String) (w : W)
      → Tried channel w (upload_loop env upload_fuel (wallet_key env channel) (env.now w) none w)
  unfolding upload_loop
  first-Tried channel w =
      let path = get_default_wallet_path env in
      let key = wallet_key env channel in
      let soon : ltb (env.now w - env.now w) 1800 ≡ true = ground arith in
      rw soon (
        after_upload-Tried channel w (upload_loop env 60 key (env.now w))
          (env.upload env.wallet_bucket key path w)
          (laws.upload-file env.wallet_bucket key path path w)
          (λ good. laws.upload-ok env.wallet_bucket key path w good)
          (λ f v k. later-Tried 60 channel (env.now w) f w v k))

  removed-Safe :
      (channel : String) (w : W) (r : Option String × W)
      → Tried channel w r
      → Safe channel w (resume (λ _. env.remove (get_default_wallet_path env)) (uploaded env r)).1
  removed-Safe channel w (some e, u) h = inl h.0
  removed-Safe channel w (none, u) h = inr (
      (laws.remove-only (get_default_wallet_path env) u).1 env.wallet_bucket
        (wallet_key env channel)
      ∙ h.1 refl)

  looked-Safe :
      (channel : String) (w : W) (r : Result String (Unit {0}))
      (next : Unit {0} → W → Result String (Unit {0}) × W)
      → Safe channel w (next tt w).1
      → Safe channel w (resume next (r, w)).1
  looked-Safe channel w (ok tt) next h = h
  looked-Safe channel w (err e) next h = inl refl

  client-Safe :
      (channel : String) (w : W) (r : Result String (Unit {0}))
      (next : Unit {0} → W → Result String (Unit {0}) × W)
      → Safe channel w (next tt w).1
      → Safe channel w (resume next (or_prefixed env "error starting session" (r, w))).1
  client-Safe channel w (ok tt) next h = h
  client-Safe channel w (err e) next h = inl refl

  send_wallet-Safe : (channel : String) (w : W) → Safe channel w (send_wallet env channel w).1
  send_wallet-Safe channel w = client-Safe channel w (env.new_session w) _ (
      looked-Safe channel w (env.open_file (get_default_wallet_path env) w) _
        (removed-Safe channel w _ (first-Tried channel w)))

  -- However uploadWallet ends, the wallet is still in its file or its content is on S3 at the key of
  -- the channel.
  pub upload_wallet_keeps :
      (channel : String) (w : W)
      → (wallet (upload_wallet env channel w).1 ≡ wallet w)
        ⊎ (stored channel (upload_wallet env channel w).1 ≡ wallet w)
  unfolding upload_wallet
  upload_wallet_keeps channel w = elim (Bool-cases (env.exists (get_default_wallet_path env) w)) [
    | inl yes_ ↦ rw yes_ (send_wallet-Safe channel w)
    | inr no_ ↦ rw no_ (inl refl)
  ]
