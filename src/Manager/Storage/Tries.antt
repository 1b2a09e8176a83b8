-- ===== src/Manager/Storage/Tries.antt =====
-- The loop of uploadWallet ends by the clock.
use ytsync.Base.{
  ℕ, zero, suc, ◌+◌, ◌-◌, ◌*◌, ◌≤◌, ◌<◌, ◌≡◌, refl, String, false, Option, some, ltb, Result, ok,
  err, Bool-cases, arith, inl, inr,
}
use ytsync.Manager.Storage.{StorageEnv, get_default_wallet_path, upload_loop, after_upload}
use ytsync.Manager.Storage.Laws.{ClockLaws}

module _ {W : Type 0} (env : StorageEnv W) (clock : ClockLaws env) where
  after_upload_same :
      (start : ℕ) (m : Option String → W → Option String × W)
      (n : Option String → W → Option String × W) (w : W) (r : Result String (Unit {0}) × W)
      → env.now w ≤ env.now r.1
      → ((e : Option String) (u : W) → env.now w + 30 ≤ env.now u → m e u ≡ n e u)
      → after_upload env m r ≡ after_upload env n r
  after_upload_same start m n w (ok _, u) later same = refl
  after_upload_same start m n w (err e, u) later same =
      same (some e) (env.sleep 30 u) (omega (arith, later, clock.sleep-now 30 u))

  -- As the clock goes on, uploadWallet stops trying: the fuel does not matter once there is enough
  -- for the rest of the thirty minutes.
  pub upload_loop_fuel :
      (a b : ℕ) (key : String) (start : ℕ) (last : Option String) (w : W)
      → 1800 + start < env.now w + 30 * a
      → 1800 + start < env.now w + 30 * b
      → upload_loop env a key start last w ≡ upload_loop env b key start last w
  unfolding upload_loop
  upload_loop_fuel zero zero key start last w f g = refl
  upload_loop_fuel zero (suc b) key start last w f g =
      let late : ltb (env.now w - start) 1800 ≡ false = ground (arith, f) in rw late refl
  upload_loop_fuel (suc a) zero key start last w f g =
      let late : ltb (env.now w - start) 1800 ≡ false = ground (arith, g) in rw late refl
  upload_loop_fuel (suc a) (suc b) key start last w f g =
      elim (Bool-cases (ltb (env.now w - start) 1800)) [
        | inr late ↦ rw late refl
        | inl soon ↦ rw soon (
            after_upload_same start (upload_loop env a key start) (upload_loop env b key start) w
              (env.upload env.wallet_bucket key (get_default_wallet_path env) w)
              (clock.upload-now env.wallet_bucket key (get_default_wallet_path env) w)
              (λ e u later.
                upload_loop_fuel a b key start e u (omega (arith, later, f))
                  (omega (arith, later, g))))
      ]
