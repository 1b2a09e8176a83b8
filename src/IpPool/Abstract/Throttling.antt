-- ===== src/IpPool/Abstract/Throttling.antt =====
-- What SetThrottled and the end of its timer do to the flags of the addresses.
use ytsync.Base.{
  ℕ, ◌≡◌, refl, sym, ◌∙◌, ap, subst, inl, inr, String, Bool, true, false, Option, none, some, List,
  [], ◌∷◌, get_elem?, arith, str_eq, eq_iff, Bool-cases, Option-cases, if◌then◌else◌, ◌==◌,
}
use ytsync.IpPool.{
  ThrottledIp, Timer, IpPool, Found, absent, already, at_slot, next_slot, find_slot, mark_throttled,
  add_timer, fire,
}
use ytsync.IpPool.Holding.{throttle_call, unban_call, or_stay}
use ytsync.IpPool.Distinct.{Distinct}
use ytsync.IpPool.Update.{find_ip}
use ytsync.IpPool.Abstract.{
  View, Flags, flags_of, view, change, adjust, set_to, Move, throttled, forgave, missed,
}
use ytsync.IpPool.Abstract.Views.{same_view, mark_throttled_beyond, view-mark_throttled}

-- An end of a timer that changes nothing.
unchanged : (t : Timer) (v w : View) → v ≡ w → Move (unban_call t) v w
unchanged t v w e = subst (Move (unban_call t) v) e (missed v t)

-- Where find_slot has found the address.
abbrev IsAt : String → List ThrottledIp → Found → Type 0
IsAt a xs (at_slot j) = (x : ThrottledIp) × (get_elem? xs j ≡ some x) × (x.ip ≡ a)
IsAt a xs absent = find_ip a xs ≡ none
IsAt a xs already = (x : ThrottledIp) × (find_ip a xs ≡ some x) × (x.throttled ≡ true)

next_slot-IsAt :
    (a : String) (x : ThrottledIp) (xs : List ThrottledIp) (f : Found)
    → str_eq x.ip a ≡ false
    → IsAt a xs f
    → IsAt a (x ∷ xs) (next_slot f)
next_slot-IsAt a x xs absent e h = rw e h
next_slot-IsAt a x xs already e h = (h.0, rw e h.1, h.2)
next_slot-IsAt a x xs (at_slot j) e h = h

slot-IsAt :
    (a : String) (x : ThrottledIp) (xs : List ThrottledIp) (t : Bool)
    → str_eq x.ip a ≡ true
    → x.throttled ≡ t
    → IsAt a (x ∷ xs) (if t then already else at_slot 0)
slot-IsAt a x xs true e h = (x, ground (arith, e), h)
slot-IsAt a x xs false e h = (x, refl, (eq_iff x.ip a).0 e)

pub find_slot-IsAt : (a : String) (xs : List ThrottledIp) → IsAt a xs (find_slot a xs)
unfolding find_slot
find_slot-IsAt a [] = refl
find_slot-IsAt a (x ∷ xs) = elim (Bool-cases (str_eq x.ip a)) [
  | inl e ↦ rw (e, find_slot) (slot-IsAt a x xs x.throttled e refl)
  | inr e ↦ rw (e, find_slot) (next_slot-IsAt a x xs (find_slot a xs) e (find_slot-IsAt a xs))
]

-- An address whose flags a change leaves alone.
adjust_same : (a : String) (g : Flags → Flags) (v : View) → change g (v a) ≡ v a → v ≡ adjust a g v
adjust_same a g v h = same_view _ _ λ b. elim (Bool-cases (str_eq a b)) [
  | inl e ↦ rw e (subst (λ c. v c ≡ change g (v c)) ((eq_iff a b).0 e) (sym h))
  | inr e ↦ rw e refl
]

throttled_already :
    (x : ThrottledIp)
    → x.throttled ≡ true
    → change (set_to true) (flags_of (some x)) ≡ flags_of (some x)
throttled_already x h = rw h refl

pub throttled-Move :
    (a : String) (p : IpPool) (f : Found)
    → Distinct p.ips
    → IsAt a p.ips f
    → Move (throttle_call a) (view p.ips) (view (add_timer a p f).ips)
unfolding view
throttled-Move a p absent d h =
    subst (Move (throttle_call a) (view p.ips))
      (sym (
        adjust_same a (set_to true) (view p.ips)
          (ap (λ o. change (set_to true) (flags_of o)) h ∙ sym (ap flags_of h))))
      (throttled (view p.ips) a)
throttled-Move a p already d h =
    subst (Move (throttle_call a) (view p.ips))
      (sym (
        adjust_same a (set_to true) (view p.ips) (
          ap (λ o. change (set_to true) (flags_of o)) h.1
          ∙ throttled_already h.0 h.2
          ∙ sym (ap flags_of h.1))))
      (throttled (view p.ips) a)
throttled-Move a p (at_slot j) d h =
    let (x, at, same) = h in
    subst (Move (throttle_call a) (view p.ips))
      (sym (
        view-mark_throttled true j x p.ips d at
        ∙ ap (λ b. adjust b (set_to true) (view p.ips)) same))
      (throttled (view p.ips) a)

mark_throttled-Move :
    (t : Timer) (j : ℕ) (xs : List ThrottledIp)
    → Distinct xs
    → Move (unban_call t) (view xs) (view (mark_throttled false j xs))
mark_throttled-Move t j xs d = elim (Option-cases (get_elem? xs j)) [
  | inl e ↦ unchanged t _ _ (ap view (sym (mark_throttled_beyond false j xs e)))
  | inr (x, e) ↦
      subst (Move (unban_call t) (view xs)) (sym (view-mark_throttled false j x xs d e))
        (forgave (view xs) t x.ip)
]

pub fired-Move :
    (t : Timer) (target : Option (ℕ × ℕ)) (p : IpPool)
    → Distinct p.ips
    → Move (unban_call t) (view p.ips) (view (or_stay p (fire target p)).ips)
unfolding fire
fired-Move t none p d = missed (view p.ips) t
fired-Move t (some (n, j)) p d = elim (Bool-cases (n == p.array)) [
  | inl e ↦ rw e (mark_throttled-Move t j p.ips d)
  | inr e ↦ rw e (missed (view p.ips) t)
]
