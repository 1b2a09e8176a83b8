-- ===== src/IpPool/Update.antt =====
-- What UpdateIps makes of the pool, seen as a map from addresses to entries.
use ytsync.Base.{
  ◌≢◌, ◌≡◌, refl, inl, inr, String, Bool, true, false, not, ap, Option, none, some, List, [], ◌∷◌,
  ◌++◌, keep, arith, str_eq, eq_iff, Bool-cases, if◌then◌else◌, ok,
}
use ytsync.IpPool.{ThrottledIp, IpPool, has_ip, update_ips}

-- The first entry with the address.
abbrev pub find_ip : String → List ThrottledIp → Option ThrottledIp
find_ip a [] = none
find_ip a (x ∷ xs) = if str_eq x.ip a then some x else find_ip a xs

abbrev pub or_else : Option ThrottledIp → Option ThrottledIp → Option ThrottledIp
or_else none o = o
or_else (some x) o = some x

find_ip-append :
    (a : String) (xs ys : List ThrottledIp)
    → find_ip a (xs ++ ys) ≡ or_else (find_ip a xs) (find_ip a ys)
find_ip-append a [] ys = refl
find_ip-append a (x ∷ xs) ys = ground (arith, find_ip-append a xs ys)

find_ip-keep :
    (t : String → Bool) (a : String) (xs : List ThrottledIp)
    → find_ip a (keep (λ x. t x.ip) xs) ≡ (if t a then find_ip a xs else none)
find_ip-keep t a [] = ground arith
find_ip-keep t a (x ∷ xs) = elim (Bool-cases (str_eq x.ip a)) [
  | inl e ↦
      let same = (eq_iff x.ip a).0 e in let at_a = ap t same in ground (arith, find_ip-keep t a xs)
  | inr e ↦ ground (arith, find_ip-keep t a xs)
]

has_ip-find_ip : (a : String) (xs : List ThrottledIp) → has_ip a xs ≡ false → find_ip a xs ≡ none
has_ip-find_ip a [] h = refl
has_ip-find_ip a (x ∷ xs) h = ground (arith, has_ip-find_ip a xs)

find_ip-has_ip : (a : String) (xs : List ThrottledIp) → has_ip a xs ≡ true → find_ip a xs ≢ none
find_ip-has_ip a [] h = cc
find_ip-has_ip a (x ∷ xs) h = ground (arith, find_ip-has_ip a xs)

-- After UpdateIps has found the addresses of the machine, an address is in the pool exactly if it
-- was found; it has its old entry, with the flags, if UpdateIps had read it in the pool, and the found
-- one otherwise.
pub update_ips_find :
    (p : IpPool) (old current : List ThrottledIp) (a : String)
    → find_ip a (update_ips p old (ok current)).0.ips
      ≡ (if has_ip a current then or_else (find_ip a old) (find_ip a current) else none)
unfolding update_ips
update_ips_find p old current a =
    rw
      (
        find_ip-append a,
        find_ip-keep (λ b. has_ip b current) a old,
        find_ip-keep (λ b. not (has_ip b old)) a current,
      )
      (ground (arith, has_ip-find_ip a old, find_ip-has_ip a old, has_ip-find_ip a current))
