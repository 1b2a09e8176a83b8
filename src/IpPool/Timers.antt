-- ===== src/IpPool/Timers.antt =====
-- The timers that SetThrottled starts, and where they point after other calls.
use ytsync.Base.{
  ℕ, zero, suc, ◌≡◌, ◌≢◌, refl, sym, ◌∙◌, String, true, false, none, some, List, [], ◌∷◌, ◌++◌, All,
  get_elem?, arith, ap,
}
use ytsync.IpPool.{
  ThrottledIp, Timer, IpPool, has_ip, find_slot, mark_throttled, set_throttled, unban, absent,
  at_slot,
}

abbrev unthrottle : ThrottledIp → ThrottledIp
unthrottle x = record x { throttled = false }

-- Every slot with the address has its throttled flag set.
abbrev pub AreThrottled : String → List ThrottledIp → Type 0
AreThrottled a = All (λ y. y.ip ≡ a → y.throttled ≡ true)

mark_throttled_other :
    (a : String) (j : ℕ) (x : ThrottledIp) (xs : List ThrottledIp)
    → get_elem? xs j ≡ some x
    → x.ip ≢ a
    → AreThrottled a xs
    → AreThrottled a (mark_throttled false j xs)
      × (get_elem? (mark_throttled false j xs) j ≡ some (record x { throttled = false }))
mark_throttled_other a j x [] at ne h = cc
mark_throttled_other a zero x (y ∷ ys) at ne h =
    let same : y ≡ x = ground arith in
    (
      ((λ e. absurd (ne (ap (λ z. z.ip) (sym same) ∙ e))), h.1),
      ap (λ (z : ThrottledIp). some (unthrottle z)) same,
    )
mark_throttled_other a (suc j) x (y ∷ ys) at ne h =
    let (rest, cleared) = mark_throttled_other a j x ys at ne h.1 in ((h.0, rest), cleared)

-- The timer of a throttled address points to a slot, not to the address. If the slot holds another
-- address by the time the timer runs out, because nextIP has sorted the slice, then the other
-- address loses its flag, and the throttled address stays throttled.
pub unban_other :
    (t : Timer) (p : IpPool) (j : ℕ) (x : ThrottledIp)
    → t.target ≡ some (p.array, j)
    → get_elem? p.ips j ≡ some x
    → x.ip ≢ t.ip
    → AreThrottled t.ip p.ips
    → (q : IpPool) × (unban t p ≡ some q)
      × AreThrottled t.ip q.ips
      × (get_elem? q.ips j ≡ some (record x { throttled = false }))
unfolding unban
unban_other t p j x target at ne h =
    let (rest, cleared) = mark_throttled_other t.ip j x p.ips at ne h in
    (record p { ips = mark_throttled false j p.ips }, ground arith, rest, cleared)

find_slot-absent :
    (a : String) (xs : List ThrottledIp) → has_ip a xs ≡ false → find_slot a xs ≡ absent
unfolding find_slot
find_slot-absent a [] h = refl
find_slot-absent a (x ∷ xs) h = ground (arith, find_slot-absent a xs)

-- If the address is not in the pool, SetThrottled changes no slot, but starts a timer whose end is
-- a panic.
set_throttled_absent :
    (a : String) (p : IpPool)
    → has_ip a p.ips ≡ false
    → (t : Timer) × ((set_throttled a p).ips ≡ p.ips)
      × ((set_throttled a p).timers ≡ p.timers ++ t ∷ [])
      × ((q : IpPool) → unban t q ≡ none)
unfolding set_throttled unban
set_throttled_absent a p h = (
  record { ip = a; target = none },
  ground (arith, find_slot-absent a p.ips),
  ground (arith, find_slot-absent a p.ips),
  λ q. refl,
)

at_slot_get :
    (a : String) (xs : List ThrottledIp) (j : ℕ)
    → find_slot a xs ≡ at_slot j
    → mark_throttled false j (mark_throttled true j xs) ≡ xs
unfolding find_slot
at_slot_get a [] j h = cc
at_slot_get a (x ∷ xs) zero h = ground arith
at_slot_get a (x ∷ xs) (suc j) h = ground (arith, at_slot_get a xs j)

-- If nothing moves the slots in between, the timer that SetThrottled starts restores the slots.
unban-set_throttled :
    (a : String) (p : IpPool) (j : ℕ)
    → find_slot a p.ips ≡ at_slot j
    → (t : Timer) × ((set_throttled a p).timers ≡ p.timers ++ t ∷ [])
      × (unban t (set_throttled a p) ≡ some (record (set_throttled a p) { ips = p.ips }))
unfolding set_throttled unban
unban-set_throttled a p j h = (
  record { ip = a; target = some (p.array, j) },
  ground arith,
  ground (arith, at_slot_get a p.ips j h),
)
