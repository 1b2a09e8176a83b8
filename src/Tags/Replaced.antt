-- ===== src/Tags/Replaced.antt =====
-- Which tags SanitizeTags never leaves.
use ytsync.Base.{
  ◌≡◌, refl, ap, sym, subst, ◌∙◌, String, Bool, true, false, Option, none, some, List, [], ◌∷◌,
  ◌++◌, Dict, insert, delete, lookup, has_key, has_key-insert, any, str_eq, eq_iff, if◌then◌else◌,
  Bool-cases, inl, inr, arith,
}
use ytsync.Tags.Tables.{tags_to_skip, map_and_replace, map_and_keep, channel_wide_tags}
use ytsync.Tags.{
  TagTexts, unsanitized, Sanitized, cleanup, replace_one, replace, add_one, add_matches,
  add_curated, tags_for_channel, get_tags_for_channel, add, tags_of, sanitized_of, sanitize_tags,
}
use ytsync.Tags.Final.{
  is_final, all_final, replace_final, keep_final, channels_final, lookup-all_entries,
  lookup-all_pairs, lookup-all_lists,
}

abbrev pub has_tag : String → List String → Bool
has_tag t = any (λ s. str_eq s t)

module _ (t : String) (replaced : has_key t map_and_replace ≡ true) where
  other : (m : String) → is_final m ≡ true → str_eq m t ≡ false
  unfolding is_final
  other m h = elim (Bool-cases (str_eq m t)) [
    | inl e ↦
        (let same = ap (λ z. has_key z map_and_replace) ((eq_iff m t).0 e) in absurd (ground arith))
    | inr e ↦ e
  ]

  insert-absent :
      (m : String) (b : Bool) (d : Sanitized)
      → is_final m ≡ true
      → has_key t d ≡ false
      → has_key t (insert m b d) ≡ false
  insert-absent m b d f h = rw (has_key-insert m t b d, other m f) h

  delete-absent :
      (x : String) (d : Sanitized) → has_key t d ≡ false → has_key t (delete x d) ≡ false
  unfolding has_key delete
  delete-absent x [] h = refl
  delete-absent x ((a, b) ∷ d) h = ground (arith, delete-absent x d)

  delete_same : (d : Sanitized) → has_key t (delete t d) ≡ false
  unfolding has_key delete
  delete_same [] = refl
  delete_same ((a, b) ∷ d) = ground (arith, delete_same d)

  replace_one-absent :
      (x : String) (o : Option String) (d : Sanitized)
      → lookup x map_and_replace ≡ o
      → has_key t d ≡ false
      → has_key t (replace_one x o d) ≡ false
  replace_one-absent x none d e h = h
  replace_one-absent x (some m) d e h =
      insert-absent m true (delete x d) (lookup-all_entries x m map_and_replace replace_final e)
        (delete-absent x d h)

  replace-absent :
      (ts : List String) (d : Sanitized) → has_key t d ≡ false → has_key t (replace ts d) ≡ false
  unfolding replace
  replace-absent [] d h = h
  replace-absent (x ∷ ts) d h =
      replace-absent ts (replace_one x (lookup x map_and_replace) d)
        (replace_one-absent x (lookup x map_and_replace) d refl h)

  found : (d : Dict String) → has_key t d ≡ true → (m : String) × (lookup t d ≡ some m)
  unfolding has_key lookup
  found [] h = absurd (ground arith)
  found ((k, n) ∷ rest) h = elim (Bool-cases (str_eq k t)) [
    | inl q ↦ (n, rw q refl)
    | inr q ↦ (let (m, e) = found rest (ground arith) in (m, rw q e))
  ]

  replace_self-absent :
      (x : String) (d : Sanitized)
      → x ≡ t
      → has_key t (replace_one x (lookup x map_and_replace) d) ≡ false
  replace_self-absent x d same =
      let (m, e) = found map_and_replace replaced in
      subst (λ z. has_key t (replace_one z (lookup z map_and_replace) d) ≡ false) (sym same)
        (rw e (
          insert-absent m true (delete t d) (lookup-all_entries t m map_and_replace replace_final e)
            (delete_same d)))

  replace-removes :
      (ts : List String) (d : Sanitized) → has_tag t ts ≡ true → has_key t (replace ts d) ≡ false
  unfolding replace
  replace-removes [] d h = absurd (ground arith)
  replace-removes (x ∷ ts) d h = elim (Bool-cases (str_eq x t)) [
    | inl e ↦
        replace-absent ts (replace_one x (lookup x map_and_replace) d)
          (replace_self-absent x d ((eq_iff x t).0 e))
    | inr e ↦ replace-removes ts (replace_one x (lookup x map_and_replace) d) (ground arith)
  ]

  cleanup-absent :
      (ts : List String) (d : Sanitized)
      → has_tag t ts ≡ false
      → has_key t d ≡ false
      → has_key t (cleanup ts d) ≡ false
  unfolding cleanup
  cleanup-absent [] d h k = k
  cleanup-absent (x ∷ ts) d h k =
      let s = any (λ s. str_eq s x) tags_to_skip in
      cleanup-absent ts (if s then d else insert x false d) (ground arith)
        (skipped s (rw (has_key-insert x t false d) (ground arith)))
    where
      skipped :
          (b : Bool)
          → has_key t (insert x false d) ≡ false
          → has_key t (if b then d else insert x false d) ≡ false
      skipped true i = k
      skipped false i = i

  add_one-absent :
      (x : String) (o : Option String) (d : Sanitized)
      → lookup x map_and_keep ≡ o
      → has_key t d ≡ false
      → has_key t (add_one x o d) ≡ false
  add_one-absent x none d e h = h
  add_one-absent x (some m) d e h =
      let (key, value) = lookup-all_pairs x m map_and_keep keep_final e in
      insert-absent x false (insert m true d) key (insert-absent m true d value h)

  add_matches-absent :
      (ts : List String) (d : Sanitized)
      → has_key t d ≡ false
      → has_key t (add_matches ts d) ≡ false
  unfolding add_matches
  add_matches-absent [] d h = h
  add_matches-absent (x ∷ ts) d h =
      add_matches-absent ts (add_one x (lookup x map_and_keep) d)
        (add_one-absent x (lookup x map_and_keep) d refl h)

  add_curated-absent :
      (ts : List String) (d : Sanitized)
      → all_final ts ≡ true
      → has_key t d ≡ false
      → has_key t (add_curated ts d) ≡ false
  unfolding all_final
  add_curated-absent [] d f h = h
  add_curated-absent (x ∷ ts) d f h =
      add_curated-absent ts (insert x true d) (ground arith)
        (insert-absent x true d (ground arith) h)

  nothing : has_key {V = Bool} t [] ≡ false
  unfolding has_key
  nothing = refl

  sanitized_of-absent :
      (ts : List String) (channel_id : String) → has_key t (sanitized_of ts channel_id) ≡ false
  unfolding sanitized_of add get_tags_for_channel
  sanitized_of-absent ts channel_id =
      let cleaned : has_key t (replace ts (cleanup ts [])) ≡ false =
        elim (Bool-cases (has_tag t ts)) [
          | inl e ↦ replace-removes ts (cleanup ts []) e
          | inr e ↦ replace-absent ts (cleanup ts []) (cleanup-absent ts [] e nothing)
        ] in
      add_curated-absent (tags_for_channel (lookup channel_id channel_wide_tags))
        (add_matches ts (replace ts (cleanup ts [])))
        (lookup-all_lists channel_id channel_wide_tags channels_final)
        (add_matches-absent ts (replace ts (cleanup ts [])) cleaned)

  tags_of-absent :
      (b : Bool) (d : Sanitized) → has_key t d ≡ false → has_tag t (tags_of b d) ≡ false
  unfolding tags_of has_key
  tags_of-absent b [] h = refl
  tags_of-absent b ((x, c) ∷ d) h = ground (arith, tags_of-absent b d)

  has_tag-append :
      (xs ys : List String)
      → has_tag t xs ≡ false
      → has_tag t ys ≡ false
      → has_tag t (xs ++ ys) ≡ false
  has_tag-append [] ys h k = k
  has_tag-append (x ∷ xs) ys h k = ground (arith, has_tag-append xs ys)

-- Where sorting keeps the tags of a list, a tag that mapAndReplace replaces is never among those that
-- SanitizeTags returns, for any tags and any channel.
pub sanitize_tags_replaced :
    (texts : TagTexts) (sort : List String → List String) (tags : List String)
    (channel_id t : String)
    → ((ts : List String) → has_tag t (sort ts) ≡ has_tag t ts)
    → has_key t map_and_replace ≡ true
    → has_tag t (sanitize_tags texts sort tags channel_id) ≡ false
unfolding sanitize_tags
sanitize_tags_replaced texts sort tags channel_id t same replaced =
    let d = sanitized_of (unsanitized texts tags) channel_id in
    let gone = sanitized_of-absent t replaced (unsanitized texts tags) channel_id in
    has_tag-append t replaced (sort (tags_of true d)) (sort (tags_of false d))
      (same (tags_of true d) ∙ tags_of-absent t replaced true d gone)
      (same (tags_of false d) ∙ tags_of-absent t replaced false d gone)
