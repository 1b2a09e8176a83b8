-- ===== src/Shared/Quota.antt =====
-- VideosToSync does not depend on the order of the map, and is the table's step function.
use mathlib.Core.List.{Permᴰ}
use ytsync.Base.{ℕ, ◌≡◌, refl, ◌∙◌, List, [], ◌∷◌, ltb, leb, ◌&&◌, if◌then◌else◌, arith, max, ap}
use ytsync.Shared.{SyncFlags, default_videos_to_sync, largest_quota, videos_to_sync}

-- The table's step function, written out.
abbrev pub quota : ℕ → ℕ
quota n =
    if leb 10000 n
    then 1000
    else if leb 5000 n
    then 500
    else if leb 1000 n
    then 400
    else if leb 800 n
    then 250
    else if leb 600 n
    then 200
    else if leb 200 n
    then 80
    else if leb 100 n
    then 20
    else if leb 1 n
    then 10
    else 0

-- The largest quota among the entries that the channel reaches.
abbrev best : ℕ → List (ℕ × ℕ) → ℕ
best n [] = 0
best n ((s, r) ∷ table) = max (if leb s n then r else 0) (best n table)

largest_quota-best :
    (n v : ℕ) (table : List (ℕ × ℕ)) → largest_quota n v table ≡ max v (best n table)
unfolding largest_quota
largest_quota-best n v [] = omega arith
largest_quota-best n v ((s, r) ∷ table) =
    largest_quota-best n (if leb s n && ltb v r then r else v) table ∙ ground arith

entry_eq :
    (n : ℕ) (a b : ℕ × ℕ) → a ≡ b → (if leb a.0 n then a.1 else 0) ≡ (if leb b.0 n then b.1 else 0)
entry_eq n a b e = ap (λ (x : ℕ × ℕ). if leb x.0 n then x.1 else 0) e

best-perm : (n : ℕ) {xs ys : List (ℕ × ℕ)} → Permᴰ xs ys → best n xs ≡ best n ys
best-perm n Permᴰ.nil = refl
best-perm n (Permᴰ.cons {a = a} {b = b} e d) = omega (arith, best-perm n d, entry_eq n a b e)
best-perm n (Permᴰ.swap {a = a} {b = b} {a' = a'} {b' = b'} e₁ e₂) =
    omega (arith, entry_eq n a b' e₁, entry_eq n b a' e₂)
best-perm n (Permᴰ.trans d₁ d₂) = best-perm n d₁ ∙ best-perm n d₂

best-default : (n : ℕ) → best n default_videos_to_sync ≡ quota n
best-default n = ground arith

-- VideosToSync is the limit of the flags where that is set. Otherwise it is the step function of
-- the table, in whatever order the map of quotas is walked.
pub videos_to_sync-quota :
    (table : List (ℕ × ℕ)) (f : SyncFlags) (n : ℕ)
    → Permᴰ table default_videos_to_sync
    → videos_to_sync table f n ≡ (if ltb 0 f.videos_limit then f.videos_limit else quota n)
unfolding videos_to_sync
videos_to_sync-quota table f n d =
    let e = largest_quota-best n 0 table ∙ ap (max 0) (best-perm n d ∙ best-default n) in
    ground (arith, e)
