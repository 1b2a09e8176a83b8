-- ===== src/IpPool/Distinct.antt =====
-- The addresses of the pool over any history of calls.
use mathlib.Core.List.{Permᴰ}
use ytsync.Base.{
  ℕ, zero, suc, ◌≡◌, ◌≢◌, refl, sym, ◌∙◌, subst, inl, inr, String, Bool, true, false, not, Option,
  none, some, List, [], ◌∷◌, ◌++◌, All, All-mono, All-append, map, keep, Result, ok, err, arith,
  eq_iff, Bool-cases, ap, ◌==◌,
}
use ytsync.IpPool.{
  ThrottledIp, IpPool, has_ip, refreshed, update_ips, release_first, release_ip, release_one,
  release_all, find_slot, mark_throttled, set_throttled, unban, mark_used, Found, absent, already,
  at_slot, add_timer, fire,
}
use ytsync.IpPool.Sorting.{IsSort, All-perm}
use ytsync.IpPool.Selection.{next_ip_cases}
use ytsync.IpPool.Holding.{
  Call, next_call, release_call, release_all_call, throttle_call, unban_call, update_call, or_stay,
  step, run,
}

-- No two slots have the same address.
abbrev pub Distinct : List ThrottledIp → Type 0
Distinct [] = Unit
Distinct (x ∷ xs) = All (λ y. x.ip ≢ y.ip) xs × Distinct xs

pub Distinct-perm : {xs ys : List ThrottledIp} → Permᴰ xs ys → Distinct xs → Distinct ys
Distinct-perm Permᴰ.nil h = h
Distinct-perm (Permᴰ.cons {l₂ = ys} e d) h =
    (subst (λ z. All (λ y. z.ip ≢ y.ip) ys) e (All-perm _ d h.0), Distinct-perm d h.1)
Distinct-perm (Permᴰ.swap {l = l} e₁ e₂) h = (
  (
    (λ s. h.0.0 (ap (λ z. z.ip) e₁ ∙ sym s ∙ sym (ap (λ z. z.ip) e₂))),
    subst (λ z. All (λ y. z.ip ≢ y.ip) l) e₂ h.1.0,
  ),
  (subst (λ z. All (λ y. z.ip ≢ y.ip) l) e₁ h.0.1, h.1.1),
)
Distinct-perm (Permᴰ.trans d₁ d₂) h = Distinct-perm d₂ (Distinct-perm d₁ h)

-- Lists that show the same addresses.
abbrev ips_of : List ThrottledIp → List String
ips_of = map λ x. x.ip

abbrev Apart : String → List String → Type 0
Apart a = All λ b. a ≢ b

abbrev Nodups : List String → Type 0
Nodups [] = Unit
Nodups (a ∷ rest) = Apart a rest × Nodups rest

Apart-iff :
    (a : String) (xs : List ThrottledIp)
    → (All (λ y. a ≢ y.ip) xs → Apart a (ips_of xs))
      × (Apart a (ips_of xs) → All (λ y. a ≢ y.ip) xs)
Apart-iff a [] = ((λ h. h), λ h. h)
Apart-iff a (x ∷ xs) = ((λ h. (h.0, (Apart-iff a xs).0 h.1)), λ h. (h.0, (Apart-iff a xs).1 h.1))

Distinct-iff :
    (xs : List ThrottledIp)
    → (Distinct xs → Nodups (ips_of xs)) × (Nodups (ips_of xs) → Distinct xs)
Distinct-iff [] = ((λ h. h), λ h. h)
Distinct-iff (x ∷ xs) = (
  (λ h. ((Apart-iff x.ip xs).0 h.0, (Distinct-iff xs).0 h.1)),
  λ h. ((Apart-iff x.ip xs).1 h.0, (Distinct-iff xs).1 h.1),
)

Distinct-same : (xs ys : List ThrottledIp) → ips_of xs ≡ ips_of ys → Distinct xs → Distinct ys
Distinct-same xs ys e h = (Distinct-iff ys).1 (subst Nodups e ((Distinct-iff xs).0 h))

ips-mark_used : (v : String) (j : ℕ) (xs : List ThrottledIp) → ips_of xs ≡ ips_of (mark_used v j xs)
ips-mark_used v j [] = refl
ips-mark_used v zero (x ∷ xs) = refl
ips-mark_used v (suc j) (x ∷ xs) = ap (◌∷◌ x.ip) (ips-mark_used v j xs)

ips-mark_throttled :
    (b : Bool) (j : ℕ) (xs : List ThrottledIp) → ips_of xs ≡ ips_of (mark_throttled b j xs)
ips-mark_throttled b j [] = refl
ips-mark_throttled b zero (x ∷ xs) = refl
ips-mark_throttled b (suc j) (x ∷ xs) = ap (◌∷◌ x.ip) (ips-mark_throttled b j xs)

ips-release_first :
    (a : String) (now : ℕ) (xs : List ThrottledIp) → ips_of xs ≡ ips_of (release_first a now xs)
unfolding release_first
ips-release_first a now [] = refl
ips-release_first a now (x ∷ xs) = ground (arith, ips-release_first a now xs)

ips-release_all : (xs : List ThrottledIp) → ips_of xs ≡ ips_of (map release_one xs)
ips-release_all [] = refl
ips-release_all (x ∷ xs) = ground (arith, ips-release_all xs)

keep-All :
    (P : ThrottledIp → Type 0) (t : ThrottledIp → Bool) (xs : List ThrottledIp)
    → All P xs
    → All P (keep t xs)
keep-All P t [] h = tt
keep-All P t (x ∷ xs) h = ground (arith, keep-All P t xs h.1)

keep-Distinct :
    (t : ThrottledIp → Bool) (xs : List ThrottledIp) → Distinct xs → Distinct (keep t xs)
keep-Distinct t [] h = tt
keep-Distinct t (x ∷ xs) h =
    ground (arith, keep-All (λ y. x.ip ≢ y.ip) t xs h.0, keep-Distinct t xs h.1)

append-Distinct :
    (xs ys : List ThrottledIp)
    → Distinct xs
    → Distinct ys
    → All (λ y. All (λ x. x.ip ≢ y.ip) xs) ys
    → Distinct (xs ++ ys)
append-Distinct [] ys h k a = k
append-Distinct (x ∷ xs) ys h k a = (
  All-append (λ y. x.ip ≢ y.ip) xs ys h.0 (All-mono _ _ ys (λ y f. f.0) a),
  append-Distinct xs ys h.1 k (All-mono _ _ ys (λ y f. f.1) a),
)

absent-All : (a : String) (xs : List ThrottledIp) → has_ip a xs ≡ false → All (λ x. x.ip ≢ a) xs
absent-All a [] h = tt
absent-All a (x ∷ xs) h = (ground (arith, eq_iff x.ip a), absent-All a xs (ground arith))

new_apart :
    (old xs : List ThrottledIp)
    → All (λ y. All (λ x. x.ip ≢ y.ip) old) (keep (λ y. not (has_ip y.ip old)) xs)
new_apart old [] = tt
new_apart old (y ∷ ys) = elim (Bool-cases (has_ip y.ip old)) [
  | inl e ↦ rw e (new_apart old ys)
  | inr e ↦ rw e (absent-All y.ip old e, new_apart old ys)
]

refreshed-Distinct :
    (old current : List ThrottledIp)
    → Distinct old
    → Distinct current
    → Distinct (refreshed old current)
refreshed-Distinct old current h k =
    append-Distinct _ _ (keep-Distinct _ old h) (keep-Distinct _ current k)
      (All-mono _ _ _ (λ y a. keep-All _ _ old a) (new_apart old current))

-- The lists that an UpdateIps has read of the pool and has found on the machine are distinct.
abbrev pub Proper : Call → Type 0
Proper (update_call old (ok current)) = Distinct old × Distinct current
Proper c = Unit {0}

throttled-Distinct :
    (a : String) (p : IpPool) (f : Found) → Distinct p.ips → Distinct (add_timer a p f).ips
throttled-Distinct a p absent h = h
throttled-Distinct a p already h = h
throttled-Distinct a p (at_slot j) h = Distinct-same p.ips _ (ips-mark_throttled true j p.ips) h

unbanned-Distinct :
    (t : Option (ℕ × ℕ)) (p : IpPool) → Distinct p.ips → Distinct (or_stay p (fire t p)).ips
unfolding fire
unbanned-Distinct none p h = h
unbanned-Distinct (some (n, j)) p h = elim (Bool-cases (n == p.array)) [
  | inl e ↦ rw e (Distinct-same p.ips _ (ips-mark_throttled false j p.ips) h)
  | inr e ↦ rw e h
]

updated-Distinct :
    (p : IpPool) (old : List ThrottledIp) (r : Result String (List ThrottledIp))
    → Proper (update_call old r)
    → Distinct p.ips
    → Distinct (update_ips p old r).0.ips
unfolding update_ips
updated-Distinct p old (ok current) k h = refreshed-Distinct old current k.0 k.1
updated-Distinct p old (err e) k h = h

module _ {sort : List ThrottledIp → List ThrottledIp} (is_sort : IsSort sort) where
  pub step-Distinct :
      (p : IpPool) (c : Call) → Proper c → Distinct p.ips → Distinct (step sort p c).ips
  unfolding step release_ip release_all set_throttled unban
  step-Distinct p (next_call v) k h =
      let sorted = Distinct-perm (is_sort.rearranges p.ips) h in
      next_ip_cases sort (λ q. Distinct q.ips) v p sorted
        (λ j. Distinct-same _ _ (ips-mark_used v j (sort p.ips)) sorted)
  step-Distinct p (release_call b now) k h = Distinct-same p.ips _ (ips-release_first b now p.ips) h
  step-Distinct p release_all_call k h = Distinct-same p.ips _ (ips-release_all p.ips) h
  step-Distinct p (throttle_call b) k h = throttled-Distinct b p (find_slot b p.ips) h
  step-Distinct p (unban_call t) k h = unbanned-Distinct t.target p h
  step-Distinct p (update_call old r) k h = updated-Distinct p old r k h

  -- If the pool starts with distinct addresses, and each UpdateIps that succeeds has read distinct
  -- addresses of the pool and has found distinct addresses on the machine, then the addresses of the
  -- pool are distinct after any history of calls.
  pub run-Distinct :
      (p : IpPool) (cs : List Call) → All Proper cs → Distinct p.ips → Distinct (run sort p cs).ips
  unfolding run
  run-Distinct p [] k h = h
  run-Distinct p (c ∷ cs) k h = run-Distinct (step sort p c) cs k.1 (step-Distinct p c k.0 h)
