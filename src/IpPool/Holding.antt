-- ===== src/IpPool/Holding.antt =====
-- Who holds an address, over any history of calls of the pool.

use ytsync.Base.{
  ℕ, zero, suc, ◌≡◌, ◌≢◌, refl, sym, ◌∙◌, ap, inl, inr, String, Bool, true, false, not, Option,
  none, some, List, [], ◌∷◌, keep, All, All-append, Result, ok, err, str_eq, eq_iff, Bool-cases,
  ◌==◌, arith,
}
use ytsync.IpPool.{
  ThrottledIp, Timer, IpPool, has_ip, update_ips, release_first, release_ip, release_all, find_slot,
  mark_throttled, set_throttled, unban, mark_used, next_ip, Found, absent, add_timer, fire, already,
  at_slot,
}
use ytsync.IpPool.Sorting.{IsSort, All-perm}
use ytsync.IpPool.Selection.{next_ip_cases}

-- One call of a method under the lock, the end of an unban timer, or the assignment at the end of
-- UpdateIps, with what this has read of the pool and what it has found on the machine.
pub data Call : Type 0 where
  next_call : String → Call
  release_call : String → ℕ → Call
  release_all_call : Call
  throttle_call : String → Call
  unban_call : Timer → Call
  update_call : List ThrottledIp → Result String (List ThrottledIp) → Call

abbrev pub or_stay : IpPool → Option IpPool → IpPool
or_stay p none = p
or_stay p (some q) = q

-- Every slot with the address is in use.
abbrev pub Held : String → List ThrottledIp → Type 0
Held a = All (λ x. x.ip ≡ a → x.in_use ≡ true)

-- Calls that do not give the address back: an UpdateIps that found the addresses of the machine had
-- read the address in the pool, in use.
abbrev pub Keeps : String → Call → Type 0
Keeps a (release_call b now) = a ≢ b
Keeps a release_all_call = ⊥
Keeps a (update_call old (ok current)) = Held a old × (has_ip a old ≡ true)
Keeps a c = Unit {0}

module _ (sort : List ThrottledIp → List ThrottledIp) where
  unfoldable pub step : IpPool → Call → IpPool
  step p (next_call v) = (next_ip sort v p).0
  step p (release_call a now) = release_ip a now p
  step p release_all_call = release_all p
  step p (throttle_call a) = set_throttled a p
  step p (unban_call t) = or_stay p (unban t p)
  step p (update_call old r) = (update_ips p old r).0

  unfoldable pub run : IpPool → List Call → IpPool
  run p [] = p
  run p (c ∷ cs) = run (step p c) cs

mark_used-Held :
    (a v : String) (j : ℕ) (xs : List ThrottledIp) → Held a xs → Held a (mark_used v j xs)
mark_used-Held a v j [] h = tt
mark_used-Held a v zero (x ∷ xs) h = ((λ _. refl), h.1)
mark_used-Held a v (suc j) (x ∷ xs) h = (h.0, mark_used-Held a v j xs h.1)

mark_throttled-Held :
    (a : String) (b : Bool) (j : ℕ) (xs : List ThrottledIp)
    → Held a xs
    → Held a (mark_throttled b j xs)
mark_throttled-Held a b j [] h = tt
mark_throttled-Held a b zero (x ∷ xs) h = (h.0, h.1)
mark_throttled-Held a b (suc j) (x ∷ xs) h = (h.0, mark_throttled-Held a b j xs h.1)

release_first-Held :
    (a b : String) (now : ℕ) (xs : List ThrottledIp)
    → a ≢ b
    → Held a xs
    → Held a (release_first b now xs)
unfolding release_first
release_first-Held a b now [] ne h = tt
release_first-Held a b now (x ∷ xs) ne h = elim (Bool-cases (str_eq x.ip b)) [
  | inl e ↦ rw e ((λ same. absurd (ne (sym same ∙ (eq_iff x.ip b).0 e))), h.1)
  | inr e ↦ rw e (h.0, release_first-Held a b now xs ne h.1)
]

throttled-Held :
    (a b : String) (p : IpPool) (f : Found) → Held a p.ips → Held a (add_timer b p f).ips
throttled-Held a b p absent h = h
throttled-Held a b p already h = h
throttled-Held a b p (at_slot j) h = mark_throttled-Held a true j p.ips h

unbanned-Held :
    (a : String) (t : Option (ℕ × ℕ)) (p : IpPool)
    → Held a p.ips
    → Held a (or_stay p (fire t p)).ips
unfolding fire
unbanned-Held a none p h = h
unbanned-Held a (some (n, j)) p h = elim (Bool-cases (n == p.array)) [
  | inl e ↦ rw e (mark_throttled-Held a false j p.ips h)
  | inr e ↦ rw e h
]

keep-Held :
    (a : String) (t : ThrottledIp → Bool) (xs : List ThrottledIp) → Held a xs → Held a (keep t xs)
keep-Held a t [] h = tt
keep-Held a t (x ∷ xs) h = elim (Bool-cases (t x)) [
  | inl e ↦ rw e (h.0, keep-Held a t xs h.1)
  | inr e ↦ rw e (keep-Held a t xs h.1)
]

clash : (b : Bool) → b ≡ false → b ≡ true → ⊥
clash b e h = absurd (ground (arith, e, h))

added-Held :
    (a : String) (old xs : List ThrottledIp)
    → has_ip a old ≡ true
    → Held a (keep (λ x. not (has_ip x.ip old)) xs)
added-Held a old [] h = tt
added-Held a old (x ∷ xs) h = elim (Bool-cases (has_ip x.ip old)) [
  | inl e ↦ rw e (added-Held a old xs h)
  | inr e ↦ rw e (
    (λ same. absurd (clash (has_ip a old) (sym (ap (λ b. has_ip b old) same) ∙ e) h)),
    added-Held a old xs h,
  )
]

updated-Held :
    (a : String) (p : IpPool) (old : List ThrottledIp) (r : Result String (List ThrottledIp))
    → Keeps a (update_call old r)
    → Held a p.ips
    → Held a (update_ips p old r).0.ips
unfolding update_ips
updated-Held a p old (err e) k h = h
updated-Held a p old (ok current) k h =
    All-append (λ x. x.ip ≡ a → x.in_use ≡ true) (keep (λ x. has_ip x.ip current) old)
      (keep (λ x. not (has_ip x.ip old)) current) (keep-Held a _ old k.0)
      (added-Held a old current k.1)

module _ {sort : List ThrottledIp → List ThrottledIp} (is_sort : IsSort sort) where
  -- A held address stays held through any history of calls, by any number of goroutines, that
  -- keep it.
  step-Held :
      (a : String) (p : IpPool) (c : Call) → Keeps a c → Held a p.ips → Held a (step sort p c).ips
  unfolding step release_ip set_throttled unban
  step-Held a p (next_call v) k h =
      let sorted = All-perm (λ x. x.ip ≡ a → x.in_use ≡ true) (is_sort.rearranges p.ips) h in
      next_ip_cases sort (λ q. Held a q.ips) v p sorted
        (λ j. mark_used-Held a v j (sort p.ips) sorted)
  step-Held a p (release_call b now) k h = release_first-Held a b now p.ips k h
  step-Held a p release_all_call k h = absurd k
  step-Held a p (throttle_call b) k h = throttled-Held a b p (find_slot b p.ips) h
  step-Held a p (unban_call t) k h = unbanned-Held a t.target p h
  step-Held a p (update_call old r) k h = updated-Held a p old r k h

  pub run-Held :
      (a : String) (p : IpPool) (cs : List Call)
      → All (Keeps a) cs
      → Held a p.ips
      → Held a (run sort p cs).ips
  unfolding run
  run-Held a p [] k h = h
  run-Held a p (c ∷ cs) k h = run-Held a (step sort p c) cs k.1 (step-Held a p c k.0 h)
