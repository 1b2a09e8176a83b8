-- ===== src/Ytapi/Wanted.antt =====
-- Which videos are queued for a channel.
use ytsync.Base.{
  ℕ, suc, ◌≡◌, refl, sym, subst, ap, String, Bool, true, false, not, List, [], ◌∷◌, ◌++◌, ◌⊎◌, ◌↔◌,
  inl, inr, Dict, In, keep, lookup, insert, has_key, has_key-insert, str_eq, eq_iff, Bool-cases,
  arith,
}
use ytsync.Manager.State.{SyncedVideo}
use ytsync.Ytapi.{ListingEnv, is_finished, unfinished, video_ids, adds_last, add_all, with_position}

In-keep :
    (test : String → Bool) (ids : List String) (id : String)
    → In id (keep test ids) ↔ (In id ids × (test id ≡ true))
In-keep test [] id = ((λ h. absurd h), λ h. absurd h.0)
In-keep test (x ∷ ids) id =
    let ih = In-keep test ids id in
    elim (Bool-cases (test x)) [
      | inl e1 ↦ rw e1 (
        (λ h. elim h [
          | inl same ↦ (inl same, subst (λ y. test y ≡ true) (sym same) e1)
          | inr m ↦ (let r = ih.0 m in (inr r.0, r.1))
        ]),
        λ (m, t). elim m [ inl same ↦ inl same | inr k ↦ inr (ih.1 (k, t)) ],
      )
      | inr e2 ↦ rw e2 (
        (λ m. let r = ih.0 m in (inr r.0, r.1)),
        λ (m, t). elim m [
          | inl same ↦ absurd (ground (arith, t, ap test same, e2))
          | inr k ↦ ih.1 (k, t)
        ],
      )
    ]

In-append : (xs ys : List String) (id : String) → In id (xs ++ ys) ↔ (In id xs ⊎ In id ys)
In-append [] ys id = ((λ m. inr m), λ h. elim h [ inl m ↦ absurd m | inr m ↦ m ])
In-append (x ∷ xs) ys id =
    let ih = In-append xs ys id in
    (
      (λ h. elim h [
        | inl same ↦ inl (inl same)
        | inr m ↦ elim (ih.0 m) [ inl k ↦ inl (inr k) | inr k ↦ inr k ]
      ]),
      λ h. elim h [
        | inl (inl same) ↦ inl same
        | inl (inr k) ↦ inr (ih.1 (inl k))
        | inr k ↦ inr (ih.1 (inr k))
      ],
    )

no_key : {A : Type 0} (id : String) (d : Dict ℕ) → d ≡ [] → has_key id d ≡ true → A
unfolding has_key
no_key id [] e h = absurd (ground (arith, h))
no_key id (x ∷ d) e h = absurd (ground (arith, e))

In-positions :
    (ids : List String) (i : ℕ) (d : Dict ℕ) (id : String)
    → has_key id (add_all (with_position i ids) d) ≡ true
    → In id ids ⊎ (has_key id d ≡ true)
In-positions [] i d id h = inr h
In-positions (x ∷ ids) i d id h = elim (In-positions ids (suc i) (insert x i d) id h) [
  | inl m ↦ inl (inr m)
  | inr k ↦ elim (Bool-cases (str_eq x id)) [
    | inl e1 ↦ inl (inl (sym (ground (arith, eq_iff x id, e1))))
    | inr e2 ↦ inr (ground (arith, k, has_key-insert x id i d))
  ]
]

module _ {W : Type 0} (env : ListingEnv W) where
  -- Where a last uploaded video is set, a video is in the list that GetVideosToSync hands to
  -- getVideos exactly when it is in the playlist or is the last uploaded one, and is not finished.
  pub video_ids_iff :
      (synced : Dict SyncedVideo) (last id : String) (all_videos : List String)
      → str_eq last "" ≡ false
      → In id (video_ids env synced last all_videos)
        ↔ ((In id all_videos ⊎ (id ≡ last)) × (is_finished env (lookup id synced) ≡ false))
  unfolding video_ids unfinished
  video_ids_iff synced last id all_videos h =
      let ids = unfinished env synced all_videos in
      let kept = In-keep (λ x. not (is_finished env (lookup x synced))) all_videos id in
      let split = In-append ids (last ∷ []) id in
      elim (Bool-cases (adds_last env synced last ids)) [
        | inl e1 ↦ rw e1 (
          (λ m. elim (split.0 m) [
            | inl k ↦ (let r = kept.0 k in (inl r.0, ground (arith, r.1)))
            | inr (inl same) ↦ (
              inr same,
              subst (λ x. is_finished env (lookup x synced) ≡ false) (sym same)
                  (ground (arith, e1)),
            )
            | inr (inr k) ↦ absurd k
          ]),
          λ (m, f). elim m [
            | inl k ↦ split.1 (inl (kept.1 (k, ground (arith, f))))
            | inr same ↦ split.1 (inr (inl same))
          ],
        )
        | inr e2 ↦ rw e2 (
          (λ m. let r = kept.0 m in (inl r.0, ground (arith, r.1))),
          λ (m, f). elim m [
            | inl k ↦ kept.1 (k, ground (arith, f))
            | inr same ↦
                (let g = subst (λ x. is_finished env (lookup x synced) ≡ false) same f in
                  elim (In-positions ids 0 [] last (ground (arith, e2, g, h))) [
                    | inl k ↦ subst (λ x. In x ids) (sym same) k
                    | inr k ↦ no_key last [] refl k
                  ])
          ],
        )
      ]
