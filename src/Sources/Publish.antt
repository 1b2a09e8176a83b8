-- ===== src/Sources/Publish.antt =====
-- How the loop over the names ends.
use ytsync.Base.{
  ℕ, zero, suc, ◌<◌, ◌≡◌, refl, String, true, false, Option, some, Char, contains, has_key,
  has_key-insert, insert, Result, ok, err, inl, inr, Bool-cases, arith,
}
use ytsync.Namer.{Names}
use ytsync.Namer.Fresh.{get_next_name_total}
use ytsync.Manager.Process.{SyncSummary}
use ytsync.Sources.{after_create, with_name, publish_and_retry_existing_names}

-- The name of a claim that was made was not among the names before.
unfoldable pub IsNew : Names → Result String SyncSummary → Type 0
IsNew names (ok summary) = has_key summary.claim_name names ≡ false
IsNew names (err _) = Unit {0}

module _ {W : Type 0} (create : String → W → Result String String × W) (lower : Char → Char)
    (md5_hex : String → String) where
  abbrev pub Ended : Names → Option (Result String SyncSummary × Names × W) → Type 0
  Ended names o =
      (r : Result String SyncSummary) × (names' : Names) × (w : W) × (o ≡ some (r, names', w))
      × IsNew names r

  IsNew-insert :
      (name : String) (names : Names) (r : Result String SyncSummary)
      → IsNew (insert name true names) r
      → IsNew names r
  unfolding IsNew
  IsNew-insert name names (ok summary) h =
      ground (arith, h, has_key-insert name summary.claim_name true names)
  IsNew-insert name names (err e) h = tt

  after_create-Ended :
      (again : Names → W → Option (Result String SyncSummary × Names × W)) (name : String)
      (names : Names) (r : Result String String × W)
      → has_key name names ≡ false
      → ((e : String)
          → r.0 ≡ err e
          → contains e "failed: Multiple claims (" ≡ true
          → Ended (insert name true names) (again (insert name true names) r.1))
      → Ended names (after_create create again name (insert name true names) r)
  unfolding after_create IsNew
  after_create-Ended again name names (ok id, w) free h = (_, _, _, refl, free)
  after_create-Ended again name names (err e, w) free h =
      elim (Bool-cases (contains e "failed: Multiple claims (")) [
        | inl e1 ↦
            (let (r, names', u, same, new) = h e refl e1 in
              rw e1 (r, names', u, same, IsNew-insert name names r new))
        | inr e2 ↦ rw e2 (err e, insert name true names, w, refl, tt)
      ]

  -- If the daemon can answer only so often that a name has multiple claims (`left` decreases with
  -- each such answer), publishAndRetryExistingNames ends, and the name of a claim that it made is not
  -- one that the namer had.
  pub publish_and_retry_existing_names_total :
      (left : W → ℕ) (fuel : ℕ) (title : String) (names : Names) (w : W)
      → ((name e : String) (u : W)
          → (create name u).0 ≡ err e
          → contains e "failed: Multiple claims (" ≡ true
          → left (create name u).1 < left u)
      → left w < fuel
      → Ended names (publish_and_retry_existing_names create lower md5_hex fuel title names w)
  unfolding publish_and_retry_existing_names with_name
  publish_and_retry_existing_names_total left zero title names w less enough = absurd (omega arith)
  publish_and_retry_existing_names_total left (suc fuel) title names w less enough =
      let (name, found, free) = get_next_name_total lower md5_hex title names in
      rw found (
        after_create-Ended (publish_and_retry_existing_names create lower md5_hex fuel title) name
          names (create name w) free
          λ e refused many.
            publish_and_retry_existing_names_total left fuel title (insert name true names)
              (create name w).1 less (omega (arith, less name e w refused many)))
