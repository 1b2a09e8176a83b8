-- ===== src/Tags/Final.antt =====
-- The tables bring in no tag that is to be replaced.
use ytsync.Base.{
  ◌≡◌, refl, subst, String, Bool, true, not, ◌&&◌, some, List, [], ◌∷◌, Dict, lookup, has_key,
  str_eq, eq_iff, Bool-cases, inl, inr, arith,
}
use ytsync.Tags.Tables.{map_and_replace, map_and_keep, channel_wide_tags}
use ytsync.Tags.{tags_for_channel}

unfoldable pub is_final : String → Bool
is_final t = not (has_key t map_and_replace)

unfoldable pub all_final : List String → Bool
all_final [] = true
all_final (t ∷ ts) = is_final t && all_final ts

pub all_entries : Dict String → Bool
all_entries [] = true
all_entries ((k, m) ∷ rest) = is_final m && all_entries rest

pub all_pairs : Dict String → Bool
all_pairs [] = true
all_pairs ((k, m) ∷ rest) = is_final k && is_final m && all_pairs rest

pub all_lists : Dict (List String) → Bool
all_lists [] = true
all_lists ((k, ts) ∷ rest) = all_final ts && all_lists rest

pub replace_final : all_entries map_and_replace ≡ true
unfolding all_entries is_final map_and_replace has_key
replace_final = refl

pub keep_final : all_pairs map_and_keep ≡ true
unfolding all_pairs is_final map_and_replace map_and_keep has_key
keep_final = refl

pub channels_final : all_lists channel_wide_tags ≡ true
unfolding all_lists all_final is_final map_and_replace channel_wide_tags has_key
channels_final = refl

pub lookup-all_entries :
    (t m : String) (d : Dict String)
    → all_entries d ≡ true
    → lookup t d ≡ some m
    → is_final m ≡ true
unfolding all_entries lookup
lookup-all_entries t m [] h e = absurd (ground arith)
lookup-all_entries t m ((k, n) ∷ rest) h e = elim (Bool-cases (str_eq k t)) [
  | inl q ↦ (let same : n ≡ m = ground arith in subst (λ z. is_final z ≡ true) same (ground arith))
  | inr q ↦ lookup-all_entries t m rest (ground arith) (ground arith)
]

pub lookup-all_pairs :
    (t m : String) (d : Dict String)
    → all_pairs d ≡ true
    → lookup t d ≡ some m
    → (is_final t ≡ true) × (is_final m ≡ true)
unfolding all_pairs lookup
lookup-all_pairs t m [] h e = absurd (ground arith)
lookup-all_pairs t m ((k, n) ∷ rest) h e = elim (Bool-cases (str_eq k t)) [
  | inl q ↦
      (let same : n ≡ m = ground arith in
        (
          subst (λ z. is_final z ≡ true) ((eq_iff k t).0 q) (ground arith),
          subst (λ z. is_final z ≡ true) same (ground arith),
        ))
  | inr q ↦ lookup-all_pairs t m rest (ground arith) (ground arith)
]

pub lookup-all_lists :
    (id : String) (d : Dict (List String))
    → all_lists d ≡ true
    → all_final (tags_for_channel (lookup id d)) ≡ true
unfolding all_lists lookup all_final
lookup-all_lists id [] h = refl
lookup-all_lists id ((k, ts) ∷ rest) h = elim (Bool-cases (str_eq k id)) [
  | inl q ↦ rw q (ground arith)
  | inr q ↦ rw q (lookup-all_lists id rest (ground arith))
]
