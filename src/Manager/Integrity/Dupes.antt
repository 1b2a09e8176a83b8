-- ===== src/Manager/Integrity/Dupes.antt =====
-- Which claims fixDupes abandons.
use ytsync.Base.{
  ◌∙◌, ap, ◌≤◌, ◌≡◌, refl, sym, subst, String, Bool, false, ◌||◌, Option, none, some, List, [], ◌∷◌,
  Dict, inl, inr, str_eq, eq_iff, lookup, lookup-insert, insert, ltb, In, All, All-In, Result, ok,
  err, resume, Bool-cases, arith,
}
use ytsync.Manager.State.{Sync, on_world}
use ytsync.Manager.Termination.Effects.{Keeps}
use ytsync.Manager.Integrity.{
  Claim, IntegrityEnv, video_id_of, is_ytsync_claim, compare_with, sort_out, abandon, may_abandon,
  fix_claims, fix_dupes, say_abandoned,
}

-- Of two claims for one video, the one that is not the latest.
unfoldable pub Outdone : Claim → Claim → Type 0
Outdone c d =
    (video_id_of d ≡ video_id_of c) × (str_eq d.claim_id c.claim_id ≡ false) × c.height ≤ d.height

module _ (P : Claim → Type 0) where
  abbrev Good : Dict Claim → Type 0
  Good seen = (id : String) (d : Claim) → lookup id seen ≡ some d → P d × (video_id_of d ≡ id)

  unfoldable Replaced : Option Claim → Type 0
  Replaced none = Unit {0}
  Replaced (some c) = (d : Claim) × P c × P d × Outdone c d

  same_some : (a b : Claim) → some a ≡ some b → a ≡ b
  same_some a b e = cc

  none-Good : Good []
  unfolding lookup
  none-Good id d e = absurd (ground arith)

  Good-insert :
      (key : String) (c : Claim) (seen : Dict Claim)
      → P c
      → video_id_of c ≡ key
      → Good seen
      → Good (insert key c seen)
  Good-insert key c seen p same good id d e = elim (Bool-cases (str_eq key id)) [
    | inl e1 ↦
        (let is = same_some c d (ground (arith, lookup-insert key id c seen)) in
          let id_same : key ≡ id = ground (arith, eq_iff key id) in
          (subst P is p, ap video_id_of (sym is) ∙ (same ∙ id_same)))
    | inr e2 ↦ good id d (ground (arith, lookup-insert key id c seen))
  ]

  compare_with-Good :
      (c : Claim) (seen : Dict Claim) (o : Option Claim)
      → lookup (video_id_of c) seen ≡ o
      → P c
      → Good seen
      → Good (compare_with o c seen).0 × Replaced (compare_with o c seen).1
  unfolding compare_with Replaced Outdone
  compare_with-Good c seen none e p good = (Good-insert (video_id_of c) c seen p refl good, tt)
  compare_with-Good c seen (some cl) e p good =
      let old = good (video_id_of c) cl e in
      elim (Bool-cases (str_eq cl.claim_id c.claim_id)) [
        | inl e1 ↦ rw e1 (Good-insert (video_id_of c) c seen p refl good, tt)
        | inr e2 ↦ rw e2 (elim (Bool-cases (ltb cl.height c.height)) [
          | inl e3 ↦ rw e3 (
            Good-insert (video_id_of c) c seen p refl good,
            (
              c,
              old.0,
              p,
              (
                sym old.1,
                ground (arith, eq_iff cl.claim_id c.claim_id, eq_iff c.claim_id cl.claim_id),
                ground arith,
              ),
            ),
          )
          | inr e4 ↦ rw e4 (
            Good-insert (video_id_of c) cl seen old.0 old.1 good,
            (cl, p, old.0, (old.1, e2, ground arith)),
          )
        ])
      ]

  sort_out-Good :
      (channel : String) (c : Claim) (seen : Dict Claim)
      → P c
      → Good seen
      → Good (sort_out channel c seen).0 × Replaced (sort_out channel c seen).1
  unfolding sort_out Replaced
  sort_out-Good channel c seen p good = elim (Bool-cases (is_ytsync_claim c channel)) [
    | inl e1 ↦ rw e1 (compare_with-Good c seen _ refl p good)
    | inr e2 ↦ rw e2 (good, tt)
  ]

module _ {W : Type 0} (env : IntegrityEnv W) (I : W → Type 0) (P : Claim → Type 0) where
  abbrev Allowed : Type 0
  Allowed = (c d : Claim) → P c → P d → Outdone c d → Keeps I (env.stream_abandon c)

  resume-Keeps :
      {A : Type 0} (next : A → Sync W → Result String Bool × Sync W) (r : Result String A × Sync W)
      → I r.1.world
      → ((b : A) (t : Sync W) → I t.world → I (next b t).1.world)
      → I (resume next r).1.world
  resume-Keeps next (ok b, t) h k = k b t h
  resume-Keeps next (err e, t) h k = h

  abandon-Keeps :
      (o : Option Claim) (id : String) (s : Sync W)
      → Allowed
      → Replaced P o
      → I s.world
      → I (abandon env o id s).1.world
  unfolding abandon Replaced
  abandon-Keeps none id s k r h = h
  abandon-Keeps (some c) id s k (d, pc, pd, out) h = elim (Bool-cases (may_abandon env c id s)) [
    | inl e1 ↦ rw e1 (
        resume-Keeps (say_abandoned env) (on_world (env.stream_abandon c) s)
          (k c d pc pd out s.world h) λ b t i. i)
    | inr e2 ↦ rw e2 h
  ]

  fix_claims-Keeps :
      (cs : List Claim) (seen : Dict Claim) (done : Bool) (s : Sync W)
      → Allowed
      → All P cs
      → Good P seen
      → I s.world
      → I (fix_claims env cs seen done s).1.world
  unfolding fix_claims
  fix_claims-Keeps [] seen done s k all good h = h
  fix_claims-Keeps (c ∷ cs) seen done s k all good h =
      let sorted = sort_out-Good P s.db_channel_data.channel_claim_id c seen all.0 good in
      let (next, victim) = sort_out s.db_channel_data.channel_claim_id c seen in
      resume-Keeps _ (abandon env victim (video_id_of c) s)
        (abandon-Keeps victim (video_id_of c) s k sorted.1 h)
        (λ more t. fix_claims-Keeps cs next (done || more) t k all.1 sorted.0)

module _ {W : Type 0} (env : IntegrityEnv W) where
  -- fixDupes abandons a claim only when the list has another claim for the same video that is at
  -- least as high on the chain: what the abandoning of such claims keeps holds at the end, so the
  -- latest claim of a video is never given up.
  pub fix_dupes_latest :
      (I : W → Type 0) (claims : List Claim) (s : Sync W)
      → ((c d : Claim) → In c claims → In d claims → Outdone c d → Keeps I (env.stream_abandon c))
      → I s.world
      → I (fix_dupes env claims s).1.world
  unfolding fix_dupes
  fix_dupes_latest I claims s k h =
      fix_claims-Keeps env I (λ c. In c claims) claims [] false s k
        (All-In (λ c. In c claims) claims (λ c m. m)) (none-Good (λ c. In c claims)) h
