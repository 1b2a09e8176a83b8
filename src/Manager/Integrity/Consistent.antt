-- ===== src/Manager/Integrity/Consistent.antt =====
-- What updateRemoteDB corrects, and what it forgets.
use ytsync.Base.{
  ℕ, ◌≡◌, ◌≢◌, refl, sym, subst, ap, String, true, false, [], ◌∷◌, Dict, List, ◌↔◌, ◌⊎◌, inl, inr,
  has_key, In, All, Result, ok, Bool-cases, arith, return, ◌>>◌,
}
use ytsync.Manager.State.{SyncedVideo, Sync, on_world}
use ytsync.Manager.Termination.{set_status_syncing}
use ytsync.Manager.Integrity.{YtsyncClaim, IntegrityEnv}
use ytsync.Manager.Integrity.Remote.{
  mismatch, update_entries, ids_to_remove, is_unpublished, search_transferred, remove_unpublished,
  forget,
}

module _ {W : Type 0} (env : IntegrityEnv W) where
  -- When every claim on the chain agrees with its entry in the database, nothing is corrected and the
  -- server is not called.
  pub update_entries_consistent :
      (own chain : Dict YtsyncClaim) (s : Sync W)
      → All (λ entry. mismatch env own entry.0 entry.1 s ≡ false) chain
      → update_entries env own chain s ≡ (ok 0, s)
  unfolding update_entries
  update_entries_consistent own [] s h = refl
  update_entries_consistent own ((id, c) ∷ rest) s h =
      rw h.0 (update_entries_consistent own rest s h.1)

  unpublished-facts :
      (own : Dict YtsyncClaim) (id key : String) (sv : SyncedVideo)
      → id ≡ key
      → is_unpublished env own key sv ≡ true
      → (sv.published ≡ true) × (sv.transferred ≡ false) × (has_key id own ≡ false)
  unpublished-facts own id key sv same h =
      let absent : has_key key own ≡ false = ground arith in
      (ground arith, ground arith, subst (λ k. has_key k own ≡ false) (sym same) absent)

  facts-unpublished :
      (own : Dict YtsyncClaim) (id key : String) (x sv : SyncedVideo)
      → Path (String × SyncedVideo) (id, x) (key, sv)
      → (x.published ≡ true) × (x.transferred ≡ false) × (has_key id own ≡ false)
      → is_unpublished env own key sv ≡ true
  facts-unpublished own id key x sv same facts =
      subst (λ p. is_unpublished env own p.0 p.1 ≡ true) same
        (ground (arith, facts.0, facts.1, facts.2))

  -- An entry of the map is published, was not transferred, and has no claim in the own wallet.
  abbrev pub IsUnpublished : Dict YtsyncClaim → Dict SyncedVideo → String → Type 0
  IsUnpublished own videos id =
      (sv : SyncedVideo) × In (id, sv) videos
      × ((sv.published ≡ true) × (sv.transferred ≡ false) × (has_key id own ≡ false))

  ids_to_remove_iff :
      (own : Dict YtsyncClaim) (videos : Dict SyncedVideo) (id : String)
      → In id (ids_to_remove env own videos) ↔ IsUnpublished own videos id
  unfolding ids_to_remove
  ids_to_remove_iff own [] id = ((λ h. absurd h), λ h. absurd h.1)
  ids_to_remove_iff own ((key, sv) ∷ rest) id =
      let ih = ids_to_remove_iff own rest id in
      elim (Bool-cases (is_unpublished env own key sv)) [
        | inl e1 ↦ rw e1 (
          (λ h. elim h [
            | inl same ↦ (sv, inl (ap (λ k. (k, sv)) same), unpublished-facts own id key sv same e1)
            | inr more ↦ (let (x, m, facts) = ih.0 more in (x, inr m, facts))
          ]),
          λ (x, m, facts). elim m [
            | inl same ↦ inl (ap (λ p. p.0) same)
            | inr more ↦ inr (ih.1 (x, more, facts))
          ],
        )
        | inr e2 ↦ rw e2 (
          (λ h. let (x, m, facts) = ih.0 h in (x, inr m, facts)),
          λ (x, m, facts). elim m [
            | inl same ↦ absurd (ground (arith, facts-unpublished own id key x sv same facts))
            | inr more ↦ ih.1 (x, more, facts)
          ],
        )
      ]

  -- How the removal ends: DeleteVideos is called with exactly the unpublished entries, of which there
  -- is one at least, and then the channel is read again; or the server is not asked at all.
  abbrev pub Removes :
      Dict YtsyncClaim → Dict SyncedVideo → Sync W → Result String ℕ × Sync W → Type 0
  Removes own videos t r =
      ((ids : List String) × (env.cycle.flags.remove_db_unpublished ≡ true)
        × (ids ≢ [])
        × ((id : String) → In id ids ↔ IsUnpublished own videos id)
        × (r ≡ (do on_world (env.delete_videos ids); set_status_syncing env.cycle; return 1) t))
      ⊎ (((env.cycle.flags.remove_db_unpublished ≡ false)
            ⊎ ((id : String) → ¬ IsUnpublished own videos id))
          × (r ≡ (ok 0, t)))

  remove_unpublished-Removes :
      (own : Dict YtsyncClaim) (videos : Dict SyncedVideo) (ids : List String) (t : Sync W)
      → ((id : String) → In id ids ↔ IsUnpublished own videos id)
      → Removes own videos t (remove_unpublished env ids t)
  unfolding remove_unpublished
  remove_unpublished-Removes own videos [] t exactly =
      inr (inr (λ id facts. (exactly id).1 facts), ground arith)
  remove_unpublished-Removes own videos (x ∷ xs) t exactly =
      elim (Bool-cases env.cycle.flags.remove_db_unpublished) [
        | inl on ↦ inl (x ∷ xs, on, cc, exactly, rw on refl)
        | inr off ↦ inr (inl off, rw off refl)
      ]

  -- After the searches for transferred videos, updateRemoteDB either calls DeleteVideos with exactly
  -- the ids of the entries that are published, were not transferred, and have no claim in the own
  -- wallet, and then reads the channel again if that went well; RemoveDBUnpublished is set then and
  -- there is such an entry. Or it makes no further call, and then RemoveDBUnpublished is not set or
  -- there is no such entry.
  pub forget-Removes :
      (own chain : Dict YtsyncClaim) (s : Sync W)
      → Removes own s.synced_videos
          (search_transferred env chain s.synced_videos s)
          (forget env chain own s)
  forget-Removes own chain s =
      remove_unpublished-Removes own s.synced_videos (ids_to_remove env own s.synced_videos)
        (search_transferred env chain s.synced_videos s) (ids_to_remove_iff own s.synced_videos)
