-- ===== src/IpPool/Abstract/Views.antt =====
-- What the view shows of slots that are moved or changed.
use mathlib.Core.List.{Permᴰ}
use ytsync.Base.{
  ℕ, zero, suc, ◌≡◌, ◌≢◌, refl, sym, ◌∙◌, ap, subst, inl, inr, String, Bool, true, none, some, List,
  [], ◌∷◌, All, map, get_elem?, arith, str_eq, eq_iff, Bool-cases, if◌then◌else◌,
}
use ytsync.IpPool.{ThrottledIp, release_first, release_one, mark_throttled, mark_used}
use ytsync.IpPool.Distinct.{Distinct, Distinct-perm}
use ytsync.IpPool.Update.{find_ip}
use ytsync.IpPool.Abstract.{
  Flags, View, flags_of, view, change, adjust, given_back, set_to, unless_throttled,
}

pub same_view : (v w : View) → ((a : String) → v a ≡ w a) → v ≡ w
same_view v w h = λ i a. h a i

find_ip-perm :
    {xs ys : List ThrottledIp}
    → Permᴰ xs ys
    → Distinct xs
    → (a : String) → find_ip a xs ≡ find_ip a ys
find_ip-perm Permᴰ.nil d a = refl
find_ip-perm (Permᴰ.cons {a = x} {l₁ = xs} {l₂ = ys} e p) d a =
    subst (λ z. find_ip a (x ∷ xs) ≡ find_ip a (z ∷ ys)) e
      (ap (λ o. if str_eq x.ip a then some x else o) (find_ip-perm p d.1 a))
find_ip-perm (Permᴰ.swap {a = x} {b = y} {b' = z} {l = l} e₁ e₂) d a =
    subst (λ u. find_ip a (x ∷ y ∷ l) ≡ find_ip a (u ∷ z ∷ l)) e₂
      (subst (λ u. find_ip a (x ∷ y ∷ l) ≡ find_ip a (y ∷ u ∷ l)) e₁
        (ground (arith, d.0.0, eq_iff x.ip a, eq_iff y.ip a)))
find_ip-perm (Permᴰ.trans p q) d a = find_ip-perm p d a ∙ find_ip-perm q (Distinct-perm p d) a

-- A slot that is changed, its address kept.
abbrev pub change_slot : (ThrottledIp → ThrottledIp) → ℕ → List ThrottledIp → List ThrottledIp
change_slot f j [] = []
change_slot f zero (x ∷ xs) = f x ∷ xs
change_slot f (suc j) (x ∷ xs) = x ∷ change_slot f j xs

get_elem?-apart :
    (a : String) (i : ℕ) (x : ThrottledIp) (zs : List ThrottledIp)
    → All (λ z. a ≢ z.ip) zs
    → get_elem? zs i ≡ some x
    → a ≢ x.ip
get_elem?-apart a i x [] h at = cc
get_elem?-apart a zero x (z ∷ zs) h at = λ e. h.0 (ground arith)
get_elem?-apart a (suc i) x (z ∷ zs) h at = get_elem?-apart a i x zs h.1 at

find_ip-change_slot :
    (f : ThrottledIp → ThrottledIp) (j : ℕ) (x : ThrottledIp) (xs : List ThrottledIp) (b : String)
    → ((y : ThrottledIp) → (f y).ip ≡ y.ip)
    → Distinct xs
    → get_elem? xs j ≡ some x
    → find_ip b (change_slot f j xs) ≡ (if str_eq x.ip b then some (f x) else find_ip b xs)
find_ip-change_slot f j x [] b same d at = cc
find_ip-change_slot f zero x (y ∷ ys) b same d at =
    let e : y ≡ x = ground arith in
    let ip : (f y).ip ≡ x.ip = same y ∙ ap (λ z. z.ip) e in
    subst
      (λ z.
        (if str_eq z b then some (f y) else find_ip b ys)
        ≡ (if str_eq x.ip b then some (f x) else find_ip b (y ∷ ys)))
      (sym ip)
      (subst
        (λ z.
          (if str_eq x.ip b then some (f y) else find_ip b ys)
          ≡ (if str_eq x.ip b then some (f z) else find_ip b (y ∷ ys)))
        e
        (subst
          (λ a.
            (if str_eq a b then some (f y) else find_ip b ys)
            ≡ (if str_eq a b then some (f y) else find_ip b (y ∷ ys)))
          (ap (λ z. z.ip) e) (ground arith)))
find_ip-change_slot f (suc j) x (y ∷ ys) b same d at =
    let ih = find_ip-change_slot f j x ys b same d.1 at in
    let ne = get_elem?-apart y.ip j x ys d.0 at in
    ground (arith, ih, ne, eq_iff x.ip b, eq_iff y.ip b)

pub view-perm : {xs ys : List ThrottledIp} → Permᴰ xs ys → Distinct xs → view xs ≡ view ys
unfolding view
view-perm p d = same_view _ _ λ a. ap flags_of (find_ip-perm p d a)

pub find_ip-at :
    (j : ℕ) (x : ThrottledIp) (xs : List ThrottledIp)
    → Distinct xs
    → get_elem? xs j ≡ some x
    → find_ip x.ip xs ≡ some x
find_ip-at j x [] d at = cc
find_ip-at zero x (y ∷ ys) d at = ground (arith, eq_iff y.ip x.ip)
find_ip-at (suc j) x (y ∷ ys) d at =
    ground (arith, get_elem?-apart y.ip j x ys d.0 at, eq_iff y.ip x.ip, find_ip-at j x ys d.1 at)

-- A slot that is changed, in the view.
pub view-change_slot :
    (g : Flags → Flags) (f : ThrottledIp → ThrottledIp) (j : ℕ) (x : ThrottledIp)
    (xs : List ThrottledIp)
    → ((y : ThrottledIp) → (f y).ip ≡ y.ip)
    → flags_of (some (f x)) ≡ some (g (x.in_use, x.throttled))
    → Distinct xs
    → get_elem? xs j ≡ some x
    → view (change_slot f j xs) ≡ adjust x.ip g (view xs)
unfolding view
view-change_slot g f j x xs same flags d at = same_view _ _ λ b. elim (Bool-cases (str_eq x.ip b)) [
  | inl e ↦
      let here : find_ip b xs ≡ some x =
        subst (λ c. find_ip c xs ≡ some x) ((eq_iff x.ip b).0 e) (find_ip-at j x xs d at) in
      rw (find_ip-change_slot f j x xs b same d at, e, here) flags
  | inr e ↦ rw (find_ip-change_slot f j x xs b same d at, e) refl
]

pub mark_used-change_slot :
    (v : String) (j : ℕ) (xs : List ThrottledIp)
    → mark_used v j xs ≡ change_slot (λ x. record x { in_use = true; used_for_video = v }) j xs
mark_used-change_slot v j [] = refl
mark_used-change_slot v zero (x ∷ xs) = refl
mark_used-change_slot v (suc j) (x ∷ xs) = ap (◌∷◌ x) (mark_used-change_slot v j xs)

mark_throttled-change_slot :
    (b : Bool) (j : ℕ) (xs : List ThrottledIp)
    → mark_throttled b j xs ≡ change_slot (λ x. record x { throttled = b }) j xs
mark_throttled-change_slot b j [] = refl
mark_throttled-change_slot b zero (x ∷ xs) = refl
mark_throttled-change_slot b (suc j) (x ∷ xs) = ap (◌∷◌ x) (mark_throttled-change_slot b j xs)

-- A slot that there is not.
pub mark_throttled_beyond :
    (b : Bool) (j : ℕ) (xs : List ThrottledIp) → get_elem? xs j ≡ none → mark_throttled b j xs ≡ xs
mark_throttled_beyond b j [] h = refl
mark_throttled_beyond b zero (x ∷ xs) h = cc
mark_throttled_beyond b (suc j) (x ∷ xs) h = ap (◌∷◌ x) (mark_throttled_beyond b j xs h)

pub view-mark_throttled :
    (b : Bool) (j : ℕ) (x : ThrottledIp) (xs : List ThrottledIp)
    → Distinct xs
    → get_elem? xs j ≡ some x
    → view (mark_throttled b j xs) ≡ adjust x.ip (set_to b) (view xs)
view-mark_throttled b j x xs d at =
    ap view (mark_throttled-change_slot b j xs)
    ∙ view-change_slot (set_to b) (λ y. record y { throttled = b }) j x xs (λ y. refl) refl d at

released :
    (b a : String) (now : ℕ) (xs : List ThrottledIp)
    → flags_of (find_ip b (release_first a now xs)) ≡ (
        if str_eq a b then change given_back (flags_of (find_ip b xs)) else flags_of (find_ip b xs))
unfolding release_first
released b a now [] = ground arith
released b a now (x ∷ xs) =
    ground (arith, released b a now xs, eq_iff x.ip a, eq_iff x.ip b, eq_iff a b)

pub view-release_first :
    (a : String) (now : ℕ) (xs : List ThrottledIp)
    → view (release_first a now xs) ≡ adjust a given_back (view xs)
unfolding view
view-release_first a now xs = same_view _ _ λ b. released b a now xs

pub released_all :
    (b : String) (xs : List ThrottledIp)
    → flags_of (find_ip b (map release_one xs)) ≡ change unless_throttled (flags_of (find_ip b xs))
released_all b [] = refl
released_all b (x ∷ xs) = ground (arith, released_all b xs)
