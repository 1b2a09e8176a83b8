-- ===== src/IpPool.antt =====
-- ip_manager/throttle.go: the pool of source addresses, its flags and its unban timers.
-- A method that holds the pool's lock is one function of the pool. UpdateIps takes no lock: the list
-- that it has read is an argument, since it may be older than the pool that it replaces. A pointer
-- into the slice is the number of its backing array and a slot; UpdateIps makes a new array. The
-- addresses of the machine, the validators of govalidator and `sort.Slice` are arguments.
pub mod Sorting
pub mod Selection
pub mod Holding
pub mod Distinct
pub mod Exclusive
pub mod Timers
pub mod Update
pub mod Abstract
mod Examples
use ytsync.Base.{
  ℕ, zero, suc, ◌-◌, ◌*◌, String, Bool, true, false, not, ◌&&◌, ◌||◌, Option, none, some, List, [],
  ◌∷◌, ◌++◌, map, get_elem?, keep, any, ◌==◌, str_eq, if◌then◌else◌, Result, ok, err,
}

pub record ThrottledIp : Type 0 where
  pub ip : String
  pub used_for_video : String
  pub last_use : ℕ
  pub throttled : Bool
  pub in_use : Bool

-- The goroutine that SetThrottled starts: it holds a pointer to a slot, or nil.
pub record Timer : Type 0 where
  pub ip : String
  pub target : Option (ℕ × ℕ)

pub record IpPool : Type 0 where
  pub ips : List ThrottledIp
  pub array : ℕ
  pub timers : List Timer

-- Times are in nanoseconds.
abbrev pub second : ℕ
second = 1000000000

abbrev pub ip_cooldown_period : ℕ
ip_cooldown_period = 20 * second

-- One address of net.InterfaceAddrs, with what the net package says of it.
pub record InterfaceAddr : Type 0 where
  pub is_ip_net : Bool
  pub is_global_unicast : Bool
  pub has_16 : Bool
  pub has_4 : Bool
  pub text : String

abbrev pub fresh_ip : String → ℕ → ThrottledIp
fresh_ip ip now = record {
  ip = ip;
  used_for_video = "";
  last_use = now - 300 * second;
  throttled = false;
  in_use = false;
}

module _ (is_ipv6 is_ipv4 : String → Bool) where
  is_usable : InterfaceAddr → Bool
  is_usable a =
      a.is_ip_net
      && a.is_global_unicast
      && ((a.has_16 && is_ipv6 a.text) || (a.has_4 && is_ipv4 a.text))

  unfoldable pub get_ips : ℕ → Result String (List InterfaceAddr) → Result String (List ThrottledIp)
  unfolding is_usable
  get_ips now (err e) = err e
  get_ips now (ok addrs) = ok (map (λ a. fresh_ip a.text now) (keep is_usable addrs))

-- GetIPPool: the pool is made once.
unfoldable pub get_ip_pool :
    Option IpPool → Result String (List ThrottledIp) → Result String IpPool × Option IpPool
get_ip_pool (some p) found = (ok p, some p)
get_ip_pool none (err e) = (err e, none)
get_ip_pool none (ok pool) =
    let p : IpPool = record { ips = pool; array = 0; timers = [] } in (ok p, some p)

abbrev pub has_ip : String → List ThrottledIp → Bool
has_ip a = any (λ x. str_eq x.ip a)

abbrev pub refreshed : List ThrottledIp → List ThrottledIp → List ThrottledIp
refreshed old current =
    keep (λ x. has_ip x.ip current) old ++ keep (λ x. not (has_ip x.ip old)) current

-- UpdateIps; `old` is what its loop has read of the slice, `p` the pool that its last assignment
-- meets. What other goroutines did to the pool in between is lost.
unfoldable pub update_ips :
    IpPool → List ThrottledIp → Result String (List ThrottledIp) → IpPool × Option String
update_ips p old (err e) = (p, some e)
update_ips p old (ok current) =
    (record p { ips = refreshed old current; array = suc p.array }, none)

unfoldable pub all_throttled : List ThrottledIp → Bool
all_throttled [] = true
all_throttled (x ∷ xs) = if not x.throttled then false else all_throttled xs

unfoldable pub all_in_use : List ThrottledIp → Bool
all_in_use [] = true
all_in_use (x ∷ xs) = if not x.in_use && not x.throttled then false else all_in_use xs

-- The loop of ReleaseIP: the first slot that has the address.
unfoldable pub release_first : String → ℕ → List ThrottledIp → List ThrottledIp
release_first a now [] = []
release_first a now (x ∷ xs) =
    if str_eq x.ip a
    then record x { in_use = false; last_use = now } ∷ xs
    else x ∷ release_first a now xs

unfoldable pub release_ip : String → ℕ → IpPool → IpPool
unfolding release_first
release_ip a now p = record p { ips = release_first a now p.ips }

abbrev pub release_one : ThrottledIp → ThrottledIp
release_one x = if x.throttled then x else record x { in_use = false }

unfoldable pub release_all : IpPool → IpPool
release_all p = record p { ips = map release_one p.ips }

-- What the loop of SetThrottled finds: no slot, a slot that is throttled already, or a slot.
pub data Found : Type 0 where
  absent already : Found
  at_slot : ℕ → Found

abbrev pub next_slot : Found → Found
next_slot (at_slot j) = at_slot (suc j)
next_slot f = f

unfoldable pub find_slot : String → List ThrottledIp → Found
find_slot a [] = absent
find_slot a (x ∷ xs) =
    if str_eq x.ip a then if x.throttled then already else at_slot 0 else next_slot (find_slot a xs)

abbrev pub mark_throttled : Bool → ℕ → List ThrottledIp → List ThrottledIp
mark_throttled b j [] = []
mark_throttled b zero (x ∷ xs) = record x { throttled = b } ∷ xs
mark_throttled b (suc j) (x ∷ xs) = x ∷ mark_throttled b j xs

abbrev pub add_timer : String → IpPool → Found → IpPool
add_timer a p absent = record p { timers = p.timers ++ record { ip = a; target = none } ∷ [] }
add_timer a p already = p
add_timer a p (at_slot j) = record p {
  ips = mark_throttled true j p.ips;
  timers = p.timers ++ record { ip = a; target = some (p.array, j) } ∷ [];
}

unfoldable pub set_throttled : String → IpPool → IpPool
unfolding find_slot
set_throttled a p = add_timer a p (find_slot a p.ips)

-- The timer of a goroutine runs out: it clears the flag of the slot that it points to. A nil
-- pointer is a panic, `none`; a slot of an array that was replaced is not seen by the pool.
unfoldable pub fire : Option (ℕ × ℕ) → IpPool → Option IpPool
fire none p = none
fire (some (a, j)) p =
    some (if a == p.array then record p { ips = mark_throttled false j p.ips } else p)

unfoldable pub unban : Timer → IpPool → Option IpPool
unfolding fire
unban t p = fire t.target p

pub data PoolError : Type 0 where
  all_ips_in_use all_ips_throttled resource_lock interrupted_by_user : PoolError

unfoldable pub first_free : List ThrottledIp → Option ℕ
first_free [] = none
first_free (x ∷ xs) =
    if x.in_use || x.throttled
    then elim (first_free xs) [ none ↦ none | some j ↦ some (suc j) ]
    else some 0

abbrev pub mark_used : String → ℕ → List ThrottledIp → List ThrottledIp
mark_used v j [] = []
mark_used v zero (x ∷ xs) = record x { in_use = true; used_for_video = v } ∷ xs
mark_used v (suc j) (x ∷ xs) = x ∷ mark_used v j xs

module _ (sort : List ThrottledIp → List ThrottledIp) where
  claim_first : String → IpPool → Option ℕ → IpPool × Result PoolError ℕ
  claim_first v p none = (p, err resource_lock)
  claim_first v p (some j) = (record p { ips = mark_used v j p.ips }, ok j)

  -- nextIP; the pointer that it returns is a slot of the present array.
  unfoldable pub next_ip : String → IpPool → IpPool × Result PoolError ℕ
  unfolding all_throttled all_in_use first_free claim_first
  next_ip v p =
      let q = record p { ips = sort p.ips } in
      if not (all_throttled q.ips)
      then if all_in_use q.ips then (q, err all_ips_in_use) else claim_first v q (first_free q.ips)
      else (q, err all_ips_throttled)

  -- What the pointer of nextIP shows later: other goroutines may have sorted the slice.
  abbrev pub read_slot : IpPool → IpPool → ℕ → Option ThrottledIp
  read_slot then_ now j =
      if then_.array == now.array then get_elem? now.ips j else get_elem? then_.ips j

  abbrev pub address : Option ThrottledIp → Result PoolError String
  address none = err resource_lock
  address (some x) = ok x.ip

  -- The rest of one round of GetIP's loop, `again` being the next rounds.
  got :
      Bool
      → (IpPool → IpPool)
      → (IpPool → Option (IpPool × Result PoolError String))
      → IpPool × Result PoolError ℕ
      → Option (IpPool × Result PoolError String)
  got stopped others again (q, ok j) = let r = others q in some (r, address (read_slot q r j))
  got stopped others again (q, err all_ips_in_use) =
      if stopped then some (q, err interrupted_by_user) else again (others q)
  got stopped others again (q, err e) = some (q, err e)

  -- GetIP, with what the other goroutines do during each wait: the sleeps between attempts, and
  -- the time (a sleep, if the address is too hot) until the address is read through the pointer.
  -- `stopped` says whether the stop channel is closed at each attempt. `none`: still waiting.
  unfoldable pub get_ip :
      String → List (Bool × (IpPool → IpPool)) → IpPool → Option (IpPool × Result PoolError String)
  unfolding got
  get_ip v [] p = none
  get_ip v ((stopped, others) ∷ waits) p = got stopped others (get_ip v waits) (next_ip v p)
