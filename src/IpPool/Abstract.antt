-- ===== src/IpPool/Abstract.antt =====
-- The pool as its callers see it: for each address, whether it is in use and whether it is throttled.
-- The order of the slots, their times and their videos are forgotten.
pub mod Views
pub mod Throttling
pub mod Refines
use mathlib.Core.List.{Permᴰ}
use ytsync.Base.{
  ℕ, zero, suc, ◌≡◌, ◌≢◌, refl, sym, ◌∙◌, ap, subst, inl, inr, String, Bool, true, false, not,
  Option, none, some, List, [], ◌∷◌, All, map, get_elem?, Result, ok, err, arith, str_eq, eq_iff,
  Bool-cases, Option-cases, if◌then◌else◌, ◌==◌,
}
use ytsync.IpPool.{
  ThrottledIp, Timer, IpPool, has_ip, update_ips, release_first, release_ip, release_one,
  release_all, Found, absent, already, at_slot, find_slot, mark_throttled, add_timer, set_throttled,
  fire, unban, first_free, all_in_use, all_throttled, mark_used, next_ip,
}
use ytsync.IpPool.Sorting.{IsSort}
use ytsync.IpPool.Selection.{busy, next_ip_least}
use ytsync.IpPool.Holding.{
  Call, next_call, release_call, release_all_call, throttle_call, unban_call, update_call, or_stay,
  step, run,
}
use ytsync.IpPool.Distinct.{Distinct, Distinct-perm, Proper, step-Distinct}
use ytsync.IpPool.Update.{find_ip, or_else, update_ips_find}

-- In use, and throttled.
abbrev pub Flags : Type 0
Flags = Bool × Bool

abbrev pub View : Type 0
View = String → Option Flags

abbrev pub flags_of : Option ThrottledIp → Option Flags
flags_of none = none
flags_of (some x) = some (x.in_use, x.throttled)

unfoldable pub view : List ThrottledIp → View
view xs a = flags_of (find_ip a xs)

abbrev pub change : (Flags → Flags) → Option Flags → Option Flags
change g none = none
change g (some f) = some (g f)

abbrev pub adjust : String → (Flags → Flags) → View → View
adjust a g v b = if str_eq a b then change g (v b) else v b

abbrev pub used : Flags → Flags
used (u, t) = (true, t)

abbrev pub given_back : Flags → Flags
given_back (u, t) = (false, t)

abbrev pub set_to : Bool → Flags → Flags
set_to b (u, t) = (u, b)

abbrev pub unless_throttled : Flags → Flags
unless_throttled (u, t) = if t then (u, t) else (false, t)

-- The addresses that are found, with the flags that they have already, or those that they come with.
abbrev pub replaced : View → View → View
replaced found v a = elim (found a) [
  | none ↦ none
  | some f ↦ elim (v a) [ none ↦ some f | some g ↦ some g ]
]

-- What each call may do to the flags of the addresses. A call of nextIP takes an address that is
-- neither in use nor throttled, unless there is none; the end of a timer clears the flag of an
-- address or does nothing; UpdateIps makes the pool of what it has found and what it had read.
pub data Move : Call → View → View → Type 0 where
  taken :
      (v : View) (video a : String)
      → v a ≡ some (false, false)
      → Move (next_call video) v (adjust a used v)
  none_free :
      (v : View) (video : String)
      → ((a : String) → v a ≢ some (false, false))
      → Move (next_call video) v v
  gave : (v : View) (a : String) (now : ℕ) → Move (release_call a now) v (adjust a given_back v)
  gave_all : (v : View) → Move release_all_call v (λ a. change unless_throttled (v a))
  throttled : (v : View) (a : String) → Move (throttle_call a) v (adjust a (set_to true) v)
  forgave : (v : View) (t : Timer) (a : String) → Move (unban_call t) v (adjust a (set_to false) v)
  missed : (v : View) (t : Timer) → Move (unban_call t) v v
  updated :
      (v : View) (old current : List ThrottledIp)
      → Move (update_call old (ok current)) v (replaced (view current) (view old))
  not_updated :
      (v : View) (old : List ThrottledIp) (e : String) → Move (update_call old (err e)) v v

pub data Moves : List Call → View → View → Type 0 where
  end : (v : View) → Moves [] v v
  then_ :
      (c : Call) (cs : List Call) (u v w : View) → Move c u v → Moves cs v w → Moves (c ∷ cs) u w
