-- ===== src/IpPool/Selection.antt =====
-- Which address nextIP hands out, and when it fails.
use mathlib.Core.List.Permᴰ
use ytsync.Base.{
  ◌≢◌, ℕ, zero, suc, ◌≤◌, ◌≡◌, refl, ◌⊎◌, inl, inr, String, Bool, true, false, ◌||◌, none, some,
  List, [], ◌∷◌, All, All-mono, Option-cases, ap, ◌∙◌, get_elem?, ok, err, arith, Bool-cases,
}
use ytsync.IpPool.{
  ThrottledIp, IpPool, all_throttled, all_in_use, first_free, mark_used, next_ip, PoolError,
  all_ips_in_use, all_ips_throttled,
}
use ytsync.IpPool.Sorting.{Sorted, IsSort, All-perm}

abbrev pub busy : ThrottledIp → Bool
busy x = x.in_use || x.throttled

all_in_use-first_free : (xs : List ThrottledIp) → all_in_use xs ≡ false → first_free xs ≢ none
unfolding all_in_use first_free
all_in_use-first_free [] h = cc
all_in_use-first_free (x ∷ xs) h = ground (arith, all_in_use-first_free xs)

pub all_in_use-busy : (xs : List ThrottledIp) → all_in_use xs ≡ true → All (λ x. busy x ≡ true) xs
unfolding all_in_use
all_in_use-busy [] h = tt
all_in_use-busy (x ∷ xs) h = (ground arith, all_in_use-busy xs (ground arith))

throttled-All : (xs : List ThrottledIp) → all_throttled xs ≡ true → All (λ x. x.throttled ≡ true) xs
unfolding all_throttled
throttled-All [] h = tt
throttled-All (x ∷ xs) h = (ground arith, throttled-All xs (ground arith))

-- The first free slot of a sorted slice is the free slot that was used least recently.
first_free_least :
    (xs : List ThrottledIp) (j : ℕ)
    → Sorted xs
    → first_free xs ≡ some j
    → (x : ThrottledIp) × (get_elem? xs j ≡ some x)
      × (busy x ≡ false)
      × All (λ y. busy y ≡ false → x.last_use ≤ y.last_use) xs
unfolding first_free
first_free_least [] j s h = cc
first_free_least (x ∷ xs) zero s h = elim (Bool-cases (busy x)) [
  | inl b ↦ absurd (ground arith)
  | inr f ↦ (
    x,
    refl,
    f,
    (
      (λ _. omega arith),
      All-mono (λ y. x.last_use ≤ y.last_use) (λ y. busy y ≡ false → x.last_use ≤ y.last_use) xs
          (λ y l _. l) s.0,
    ),
  )
]
first_free_least (x ∷ xs) (suc j) s h = elim (Bool-cases (busy x)) [
  | inl b ↦
      let (y, at, free, least) = first_free_least xs j s.1 (ground arith) in
      (y, at, free, ((λ f. absurd (ground arith)), least))
  | inr f ↦ absurd (ground arith)
]

module _ (sort : List ThrottledIp → List ThrottledIp) where
  -- Whatever nextIP returns, the slice is sorted, and at most one slot is marked as used.
  pub next_ip_cases {ℓ} :
      (P : IpPool → Type ℓ) (v : String) (p : IpPool)
      → P (record p { ips = sort p.ips })
      → ((j : ℕ) → P (record p { ips = mark_used v j (sort p.ips) }))
      → P (next_ip sort v p).0
  unfolding next_ip
  next_ip_cases P v p same marked = elim (Bool-cases (all_throttled (sort p.ips))) [
    | inl t ↦ rw (t, next_ip) same
    | inr f ↦ elim (Bool-cases (all_in_use (sort p.ips))) [
      | inl u ↦ rw (f, u, next_ip) same
      | inr g ↦ elim (Option-cases (first_free (sort p.ips))) [
        | inl e ↦ rw (f, g, e, next_ip) same
        | inr (j, e) ↦ rw (f, g, e, next_ip) (marked j)
      ]
    ]
  ]

module _ {sort : List ThrottledIp → List ThrottledIp} (is_sort : IsSort sort) where
  -- When nextIP succeeds, it hands out a slot that was neither in use nor throttled, and that no
  -- other such slot was used before; it marks that slot as in use for the video, and changes
  -- nothing else but the order of the slots.
  pub next_ip_least :
      (v : String) (p q : IpPool) (j : ℕ)
      → next_ip sort v p ≡ (q, ok j)
      → (x : ThrottledIp) × (get_elem? (sort p.ips) j ≡ some x)
        × (busy x ≡ false)
        × All (λ y. busy y ≡ false → x.last_use ≤ y.last_use) (sort p.ips)
        × (q ≡ record p { ips = mark_used v j (sort p.ips) })
  unfolding next_ip
  next_ip_least v p q j h = elim (Option-cases (first_free (sort p.ips))) [
    | inl e ↦ absurd (ground arith)
    | inr (k, e) ↦
        let same : k ≡ j = ground arith in
        let (x, at, free, least) =
          first_free_least (sort p.ips) j (is_sort.sorts p.ips) (e ∙ ap some same) in
        (x, at, free, least, ground arith)
  ]

  -- When nextIP fails, then with ErrAllThrottled and every slot throttled, or with ErrAllInUse and
  -- every slot in use or throttled; ErrResourceLock is never returned.
  pub next_ip_errors :
      (v : String) (p : IpPool) (e : PoolError)
      → (next_ip sort v p).1 ≡ err e
      → ((e ≡ all_ips_throttled) × All (λ x. x.throttled ≡ true) p.ips)
        ⊎ ((e ≡ all_ips_in_use) × All (λ x. busy x ≡ true) p.ips)
  unfolding next_ip
  next_ip_errors v p e h =
      let back = Permᴰ.symm (is_sort.rearranges p.ips) in
      elim (Bool-cases (all_throttled (sort p.ips))) [
        | inl t ↦
            inl
              (ground arith, All-perm (λ x. x.throttled ≡ true) back (throttled-All (sort p.ips) t))
        | inr f ↦ elim (Bool-cases (all_in_use (sort p.ips))) [
          | inl u ↦
              inr
                (ground arith, All-perm (λ x. busy x ≡ true) back (all_in_use-busy (sort p.ips) u))
          | inr g ↦ absurd (ground (arith, all_in_use-first_free (sort p.ips)))
        ]
      ]
