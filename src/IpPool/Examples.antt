-- ===== src/IpPool/Examples.antt =====
-- Runs of the pool, with an insertion sort for `sort.Slice`.
use mathlib.Core.List.{Permᴰ}
use mathlib.Core.List.Permᴰ
use ytsync.Base.{
  ℕ, ◌≤◌, ◌≡◌, ◌≢◌, refl, sym, inl, inr, String, true, false, some, List, [], ◌∷◌, All, All-mono,
  get_elem?, ok, arith, leb, if◌then◌else◌, Bool-cases, eq_iff, leb→le,
}
use ytsync.IpPool.{ThrottledIp, Timer, IpPool, next_ip, mark_used, unban, update_ips}
use ytsync.IpPool.Sorting.{Sorted, IsSort}
use ytsync.IpPool.Selection.{busy, next_ip_least}
use ytsync.IpPool.Holding.{
  Call, Held, step, run, run-Held, throttle_call, release_call, update_call,
}
use ytsync.IpPool.Distinct.{Distinct, run-Distinct}
use ytsync.IpPool.Exclusive.{next_ip_exclusive}
use ytsync.IpPool.Timers.{AreThrottled, unban_other}
use ytsync.IpPool.Abstract.{Moves, view}
use ytsync.IpPool.Abstract.Refines.{run-Moves}

abbrev place : ThrottledIp → List ThrottledIp → List ThrottledIp
place x [] = x ∷ []
place x (y ∷ ys) = if leb x.last_use y.last_use then x ∷ y ∷ ys else y ∷ place x ys

abbrev by_last_use : List ThrottledIp → List ThrottledIp
by_last_use [] = []
by_last_use (x ∷ xs) = place x (by_last_use xs)

place-perm : (x : ThrottledIp) (xs : List ThrottledIp) → Permᴰ (x ∷ xs) (place x xs)
place-perm x [] = Permᴰ.refl (x ∷ [])
place-perm x (y ∷ ys) = elim (Bool-cases (leb x.last_use y.last_use)) [
  | inl e ↦ rw e (Permᴰ.refl (x ∷ y ∷ ys))
  | inr e ↦ rw e (Permᴰ.trans (Permᴰ.swap refl refl) (Permᴰ.cons refl (place-perm x ys)))
]

by_last_use-perm : (xs : List ThrottledIp) → Permᴰ xs (by_last_use xs)
by_last_use-perm [] = Permᴰ.nil
by_last_use-perm (x ∷ xs) =
    Permᴰ.trans (Permᴰ.cons refl (by_last_use-perm xs)) (place-perm x (by_last_use xs))

place-All :
    (n : ℕ) (x : ThrottledIp) (xs : List ThrottledIp)
    → n ≤ x.last_use
    → All (λ y. n ≤ y.last_use) xs
    → All (λ y. n ≤ y.last_use) (place x xs)
place-All n x [] h k = (h, tt)
place-All n x (y ∷ ys) h k = ground (arith, place-All n x ys h k.1)

place-Sorted : (x : ThrottledIp) (xs : List ThrottledIp) → Sorted xs → Sorted (place x xs)
place-Sorted x [] s = (tt, tt)
place-Sorted x (y ∷ ys) s = elim (Bool-cases (leb x.last_use y.last_use)) [
  | inl e ↦
      let least = leb→le x.last_use y.last_use e in
      rw e (
        (
          least,
          All-mono (λ z. y.last_use ≤ z.last_use) (λ z. x.last_use ≤ z.last_use) ys
              (λ z l. omega arith) s.0,
        ),
        s,
      )
  | inr e ↦ rw e (place-All y.last_use x ys (ground arith) s.0, place-Sorted x ys s.1)
]

by_last_use-Sorted : (xs : List ThrottledIp) → Sorted (by_last_use xs)
by_last_use-Sorted [] = tt
by_last_use-Sorted (x ∷ xs) = place-Sorted x (by_last_use xs) (by_last_use-Sorted xs)

by_last_use-IsSort : IsSort by_last_use
by_last_use-IsSort = record { rearranges = by_last_use-perm; sorts = by_last_use-Sorted }

abbrev entry : String → ℕ → ThrottledIp
entry a n = record { ip = a; used_for_video = ""; last_use = n; throttled = false; in_use = false }

-- Two free addresses; the second was used less recently.
abbrev two : IpPool
two = record { ips = entry "a" 9 ∷ entry "b" 5 ∷ []; array = 0; timers = [] }

abbrev after_one : IpPool
after_one = record two { ips = mark_used "v" 0 (entry "b" 5 ∷ entry "a" 9 ∷ []) }

abbrev none_left : IpPool
none_left = record two { ips = record (entry "a" 9) { throttled = true } ∷ [] }

a≢b : ◌≢◌ {A = String} "a" "b"
a≢b = ground (arith, eq_iff "a" "b")

two-Distinct : Distinct two.ips
two-Distinct = ((a≢b, tt), (tt, tt))

first_call : next_ip by_last_use "v" two ≡ (after_one, ok 0)
unfolding next_ip
first_call = refl

next_ip_least_example :
    (x : ThrottledIp) × (get_elem? (by_last_use two.ips) 0 ≡ some x)
    × (busy x ≡ false)
    × All (λ y. busy y ≡ false → x.last_use ≤ y.last_use) (by_last_use two.ips)
    × (after_one ≡ record two { ips = mark_used "v" 0 (by_last_use two.ips) })
next_ip_least_example = next_ip_least by_last_use-IsSort "v" two after_one 0 first_call

abbrev busy_day : List Call
busy_day = throttle_call "a" ∷ release_call "a" 20 ∷ []

abbrev three : IpPool
three = record { ips = entry "c" 3 ∷ entry "a" 9 ∷ entry "b" 5 ∷ []; array = 0; timers = [] }

run-Distinct_example :
    Distinct (run by_last_use two (update_call two.ips (ok (entry "a" 1 ∷ [])) ∷ busy_day)).ips
run-Distinct_example =
    run-Distinct by_last_use-IsSort two (update_call two.ips (ok (entry "a" 1 ∷ [])) ∷ busy_day)
      ((two-Distinct, (tt, tt)), (tt, (tt, tt))) two-Distinct

abbrev next_pool : IpPool
next_pool = record two { ips = mark_used "w" 1 (entry "b" 5 ∷ entry "a" 9 ∷ []) }

-- UpdateIps reads the pool and finds the same addresses.
abbrev found_again : List Call
found_again = update_call after_one.ips (ok (entry "a" 30 ∷ entry "b" 30 ∷ [])) ∷ []

after_one-Held : Held "b" after_one.ips
after_one-Held = ((λ _. refl), ((λ e. absurd (a≢b e)), tt))

second_call :
    next_ip by_last_use "w" (run by_last_use after_one found_again)
    ≡ (record two { ips = mark_used "w" 1 after_one.ips; array = 1 }, ok 1)
unfolding next_ip run step update_ips
second_call = refl

next_ip_exclusive_example : ◌≢◌ {A = String} "a" "b"
unfolding run step update_ips
next_ip_exclusive_example =
    next_ip_exclusive by_last_use-IsSort "v" "w" two after_one
      (record two { ips = mark_used "w" 1 after_one.ips; array = 1 }) 0 1 (entry "b" 5)
      (entry "a" 9) found_again two-Distinct first_call refl ((after_one-Held, refl), tt)
      second_call refl

abbrev swapped : IpPool
swapped = record {
  ips = entry "b" 5 ∷ record (entry "a" 9) { throttled = true } ∷ [];
  array = 0;
  timers = [];
}

abbrev timer_a : Timer
timer_a = record { ip = "a"; target = some (0, 0) }

unban_other_example :
    (q : IpPool) × (unban timer_a swapped ≡ some q)
    × AreThrottled "a" q.ips
    × (get_elem? q.ips 0 ≡ some (record (entry "b" 5) { throttled = false }))
unban_other_example =
    unban_other timer_a swapped 0 (entry "b" 5) refl refl (λ e. a≢b (sym e))
      ((λ e. absurd (a≢b (sym e))), ((λ _. refl), tt))

run-Held_example : Held "b" (run by_last_use after_one (throttle_call "a" ∷ [])).ips
run-Held_example =
    run-Held by_last_use-IsSort "b" after_one (throttle_call "a" ∷ []) (tt, tt)
      ((λ _. refl), ((λ e. absurd (a≢b e)), tt))

run-Moves_example :
    Moves
      (update_call two.ips (ok (entry "a" 1 ∷ [])) ∷ busy_day)
      (view two.ips)
      (view (run by_last_use two (update_call two.ips (ok (entry "a" 1 ∷ [])) ∷ busy_day)).ips)
run-Moves_example =
    run-Moves by_last_use-IsSort two (update_call two.ips (ok (entry "a" 1 ∷ [])) ∷ busy_day)
      ((two-Distinct, (tt, tt)), (tt, (tt, tt))) two-Distinct
