-- ===== src/IpPool/Abstract/Refines.antt =====
-- Each call of the pool is a move of the abstract pool.
use ytsync.Base.{
  ℕ, zero, suc, ◌≡◌, ◌≢◌, refl, sym, ◌∙◌, ap, subst, inl, inr, String, Bool, true, false, Option,
  none, some, List, [], ◌∷◌, All, map, get_elem?, Result, ok, err, arith, str_eq, Bool-cases,
  Option-cases, if◌then◌else◌,
}
use ytsync.IpPool.{
  ThrottledIp, IpPool, has_ip, update_ips, release_ip, release_one, release_all, find_slot,
  set_throttled, unban, first_free, all_in_use, all_throttled, mark_used, next_ip,
}
use ytsync.IpPool.Sorting.{IsSort}
use ytsync.IpPool.Selection.{busy, all_in_use-busy}
use ytsync.IpPool.Holding.{
  Call, next_call, release_call, release_all_call, throttle_call, unban_call, update_call, step,
  run,
}
use ytsync.IpPool.Distinct.{Distinct, Distinct-perm, Proper, step-Distinct}
use ytsync.IpPool.Update.{find_ip, or_else, update_ips_find}
use ytsync.IpPool.Abstract.{
  flags_of, view, used, Move, taken, none_free, gave, gave_all, updated, not_updated, Moves, end,
  then_,
}
use ytsync.IpPool.Abstract.Throttling.{find_slot-IsAt, throttled-Move, fired-Move}
use ytsync.IpPool.Abstract.Views.{
  same_view, view-perm, find_ip-at, view-change_slot, mark_used-change_slot, mark_used-change_slot,
  view-release_first, released_all,
}

released_all-Move :
    (xs : List ThrottledIp) → Move release_all_call (view xs) (view (map release_one xs))
unfolding view
released_all-Move xs =
    subst (Move release_all_call (view xs)) (same_view _ _ λ a. sym (released_all a xs))
      (gave_all (view xs))

found-has_ip : (a : String) (xs : List ThrottledIp) → has_ip a xs ≡ true → find_ip a xs ≢ none
found-has_ip a [] h = cc
found-has_ip a (x ∷ xs) h = ground (arith, found-has_ip a xs)

absent-has_ip : (a : String) (xs : List ThrottledIp) → has_ip a xs ≡ false → find_ip a xs ≡ none
absent-has_ip a [] h = refl
absent-has_ip a (x ∷ xs) h = ground (arith, absent-has_ip a xs)

-- The flags after UpdateIps.
updated_flags :
    (b : Bool) (o n : Option ThrottledIp)
    → (b ≡ true → n ≢ none)
    → (b ≡ false → n ≡ none)
    → flags_of (if b then or_else o n else none) ≡ elim (flags_of n) [
      | none ↦ none
      | some f ↦ elim (flags_of o) [ none ↦ some f | some g ↦ some g ]
    ]
updated_flags true o none there gone = absurd (there refl refl)
updated_flags true none (some n) there gone = refl
updated_flags true (some o) (some n) there gone = refl
updated_flags false o none there gone = refl
updated_flags false o (some n) there gone = absurd (ground (arith, gone refl))

updated-Move :
    (p : IpPool) (old : List ThrottledIp) (r : Result String (List ThrottledIp))
    → Move (update_call old r) (view p.ips) (view (update_ips p old r).0.ips)
unfolding update_ips view
updated-Move p old (err e) = not_updated (view p.ips) old e
updated-Move p old (ok current) =
    subst (Move (update_call old (ok current)) (view p.ips))
      (same_view _ _ λ a. sym (
        ap flags_of (update_ips_find p old current a)
        ∙ updated_flags (has_ip a current) (find_ip a old) (find_ip a current)
            (found-has_ip a current) (absent-has_ip a current)))
      (updated (view p.ips) old current)

free_slot :
    (xs : List ThrottledIp) (j : ℕ)
    → first_free xs ≡ some j
    → (x : ThrottledIp) × (get_elem? xs j ≡ some x) × (busy x ≡ false)
unfolding first_free
free_slot [] j h = cc
free_slot (x ∷ xs) zero h = elim (Bool-cases (busy x)) [
  | inl b ↦ absurd (ground arith)
  | inr f ↦ (x, refl, f)
]
free_slot (x ∷ xs) (suc j) h = elim (Bool-cases (busy x)) [
  | inl b ↦ free_slot xs j (ground arith)
  | inr f ↦ absurd (ground arith)
]

free_flags :
    (x : ThrottledIp) (xs : List ThrottledIp)
    → find_ip x.ip xs ≡ some x
    → busy x ≡ false
    → view xs x.ip ≡ some (false, false)
unfolding view
free_flags x xs h f = ap flags_of h ∙ ground arith

mark_used-Move :
    (video v : String) (j : ℕ) (x : ThrottledIp) (xs : List ThrottledIp)
    → Distinct xs
    → get_elem? xs j ≡ some x
    → busy x ≡ false
    → Move (next_call video) (view xs) (view (mark_used v j xs))
mark_used-Move video v j x xs d at f =
    subst (Move (next_call video) (view xs))
      (sym (
        ap view (mark_used-change_slot v j xs)
        ∙ view-change_slot used (λ y. record y { in_use = true; used_for_video = v }) j x xs
            (λ y. refl) refl d at))
      (taken (view xs) video x.ip (free_flags x xs (find_ip-at j x xs d at) f))

-- Where no slot is free, no address is.
busy-view :
    (xs : List ThrottledIp) (a : String)
    → All (λ x. busy x ≡ true) xs
    → view xs a ≢ some (false, false)
unfolding view
busy-view [] a h = cc
busy-view (x ∷ xs) a h = elim (Bool-cases (str_eq x.ip a)) [
  | inl e ↦ rw e (λ same. ground (arith, h.0, same))
  | inr e ↦ rw e (busy-view xs a h.1)
]

all_throttled-busy : (xs : List ThrottledIp) → all_throttled xs ≡ true → All (λ x. busy x ≡ true) xs
unfolding all_throttled
all_throttled-busy [] h = tt
all_throttled-busy (x ∷ xs) h = (ground (arith, h), all_throttled-busy xs (ground (arith, h)))

taken-busy : (xs : List ThrottledIp) → first_free xs ≡ none → All (λ x. busy x ≡ true) xs
unfolding first_free
taken-busy [] h = tt
taken-busy (x ∷ xs) h = elim (Option-cases (first_free xs)) [
  | inl e ↦ (ground (arith, h), taken-busy xs e)
  | inr (j, e) ↦ absurd (ground (arith, h, e))
]

module _ {sort : List ThrottledIp → List ThrottledIp} (is_sort : IsSort sort) where
  none_free-Move :
      (v : String) (xs ys : List ThrottledIp)
      → view xs ≡ view ys
      → All (λ x. busy x ≡ true) ys
      → Move (next_call v) (view xs) (view ys)
  none_free-Move v xs ys same h =
      subst (λ u. Move (next_call v) u (view ys)) (sym same)
        (none_free (view ys) v λ a. busy-view ys a h)

  next_ip-Move :
      (v : String) (p : IpPool)
      → Distinct p.ips
      → Move (next_call v) (view p.ips) (view (next_ip sort v p).0.ips)
  unfolding next_ip
  next_ip-Move v p d =
      let same = view-perm (is_sort.rearranges p.ips) d in
      let ys = sort p.ips in
      elim (Bool-cases (all_throttled ys)) [
        | inl t ↦ rw (t, next_ip) (none_free-Move v p.ips ys same (all_throttled-busy ys t))
        | inr f ↦ elim (Bool-cases (all_in_use ys)) [
          | inl u ↦ rw (f, u, next_ip) (none_free-Move v p.ips ys same (all_in_use-busy ys u))
          | inr g ↦ elim (Option-cases (first_free ys)) [
            | inl e ↦ rw (f, g, e, next_ip) (none_free-Move v p.ips ys same (taken-busy ys e))
            | inr (j, e) ↦
                rw (f, g, e, next_ip)
                  (let (x, at, free) = free_slot ys j e in
                    subst (λ u. Move (next_call v) u (view (mark_used v j ys))) (sym same)
                      (mark_used-Move v v j x ys (Distinct-perm (is_sort.rearranges p.ips) d) at
                        free))
          ]
        ]
      ]

  step-Move :
      (p : IpPool) (c : Call) → Distinct p.ips → Move c (view p.ips) (view (step sort p c).ips)
  unfolding step release_ip release_all set_throttled unban
  step-Move p (next_call v) d = next_ip-Move v p d
  step-Move p (release_call a now) d =
      subst (Move (release_call a now) (view p.ips)) (sym (view-release_first a now p.ips))
        (gave (view p.ips) a now)
  step-Move p release_all_call d = released_all-Move p.ips
  step-Move p (throttle_call a) d =
      throttled-Move a p (find_slot a p.ips) d (find_slot-IsAt a p.ips)
  step-Move p (unban_call t) d = fired-Move t t.target p d
  step-Move p (update_call old r) d = updated-Move p old r

  -- If the pool starts with distinct addresses, and each UpdateIps that succeeds has read distinct
  -- addresses of the pool and has found distinct addresses on the machine, then each call of a
  -- history has on the map from addresses to flags the effect that a Move gives to that call: nextIP
  -- takes an address that is neither in use nor throttled, or leaves the map alone and there is none;
  -- the end of an unban timer clears the throttled flag of one address or changes nothing; the other
  -- calls have one effect each.
  pub run-Moves :
      (p : IpPool) (cs : List Call)
      → All Proper cs
      → Distinct p.ips
      → Moves cs (view p.ips) (view (run sort p cs).ips)
  unfolding run
  run-Moves p [] k d = end (view p.ips)
  run-Moves p (c ∷ cs) k d =
      then_ c cs _ (view (step sort p c).ips) _ (step-Move p c d)
        (run-Moves (step sort p c) cs k.1 (step-Distinct is_sort p c k.0 d))
