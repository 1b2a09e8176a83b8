-- ===== src/IpPool/Exclusive.antt =====
-- The exclusive use of an address that nextIP handed out.
use ytsync.Base.{
  ℕ, zero, suc, ◌≡◌, ◌≢◌, refl, sym, subst, String, false, some, List, [], ◌∷◌, All, get_elem?, ok,
  arith,
}
use ytsync.IpPool.{ThrottledIp, IpPool, mark_used, next_ip}
use ytsync.IpPool.Sorting.{IsSort, All-perm}
use ytsync.IpPool.Selection.{busy, next_ip_least}
use ytsync.IpPool.Holding.{Call, Held, Keeps, run, run-Held}
use ytsync.IpPool.Distinct.{Distinct, Distinct-perm}

apart-Held : (a : String) (xs : List ThrottledIp) → All (λ y. a ≢ y.ip) xs → Held a xs
apart-Held a [] h = tt
apart-Held a (x ∷ xs) h = ((λ e. absurd (h.0 (sym e))), apart-Held a xs h.1)

mark_used-Held_self :
    (v : String) (j : ℕ) (x : ThrottledIp) (xs : List ThrottledIp)
    → Distinct xs
    → get_elem? xs j ≡ some x
    → Held x.ip (mark_used v j xs)
mark_used-Held_self v j x [] d at = cc
mark_used-Held_self v zero x (y ∷ ys) d at =
    ((λ _. refl), apart-Held x.ip ys (subst (λ a. All (λ z. a ≢ z.ip) ys) (ground arith) d.0))
mark_used-Held_self v (suc j) x (y ∷ ys) d at =
    ((λ e. absurd (other j ys d.0 at e)), mark_used-Held_self v j x ys d.1 at)
  where
    other :
        (i : ℕ) (zs : List ThrottledIp)
        → All (λ z. y.ip ≢ z.ip) zs
        → get_elem? zs i ≡ some x
        → y.ip ≢ x.ip
    other i [] h k = cc
    other zero (z ∷ zs) h k = λ e. h.0 (ground arith)
    other (suc i) (z ∷ zs) h k = other i zs h.1 k

get_elem?-Held :
    (a : String) (xs : List ThrottledIp) (k : ℕ) (y : ThrottledIp)
    → Held a xs
    → get_elem? xs k ≡ some y
    → busy y ≡ false
    → y.ip ≢ a
get_elem?-Held a [] k y h at free = cc
get_elem?-Held a (x ∷ xs) zero y h at free = λ e. ground (arith, h.0)
get_elem?-Held a (x ∷ xs) (suc k) y h at free = get_elem?-Held a xs k y h.1 at free

module _ {sort : List ThrottledIp → List ThrottledIp} (is_sort : IsSort sort) where
  -- After nextIP has handed out a slot with address `x.ip` of a pool with distinct addresses, and
  -- after any calls that neither release that address nor all addresses, and of which each UpdateIps
  -- that succeeds had read that address in the pool, in use, a success of nextIP picks a slot with
  -- another address.
  pub next_ip_exclusive :
      (v w : String) (p q r : IpPool) (j k : ℕ) (x y : ThrottledIp) (cs : List Call)
      → Distinct p.ips
      → next_ip sort v p ≡ (q, ok j)
      → get_elem? (sort p.ips) j ≡ some x
      → All (Keeps x.ip) cs
      → next_ip sort w (run sort q cs) ≡ (r, ok k)
      → get_elem? (sort (run sort q cs).ips) k ≡ some y
      → y.ip ≢ x.ip
  next_ip_exclusive v w p q r j k x y cs d first at kept second at' =
      let (_, _, _, _, q_eq) = next_ip_least is_sort v p q j first in
      let (y', y'_at, free, _, _) = next_ip_least is_sort w (run sort q cs) r k second in
      let held : Held x.ip q.ips =
        subst (λ (s : IpPool). Held x.ip s.ips) (sym q_eq)
          (mark_used-Held_self v j x (sort p.ips) (Distinct-perm (is_sort.rearranges p.ips) d)
            at) in
      let later =
        All-perm _ (is_sort.rearranges (run sort q cs).ips)
          (run-Held is_sort x.ip q cs kept held) in
      get_elem?-Held x.ip (sort (run sort q cs).ips) k y later at' (ground arith)
