-- ===== src/Manager/Setup/Blocks/Ends.antt =====
-- How waitForNewBlock ends.
use ytsync.Base.{
  ℕ, zero, suc, ◌<◌, ◌≤◌, ◌⊎◌, leb→le, ◌≡◌, ◌+◌, ◌∙◌, ap, refl, String, true, false, Option, some,
  Result, ok, err, inl, inr, Bool-cases, leb, ◌==◌, arith,
}
use ytsync.Manager.Setup.Blocks.{
  WalletStatus, BlockEnv, is_synced, then_status, until_synced, generate, generate_then,
  until_higher, wait_for_new_block,
}

-- A wallet that has blocks and is not behind, and one that is behind or has no blocks.
abbrev pub InSync : WalletStatus → Type 0
InSync st = (0 < st.blocks) × (st.blocks_behind ≡ 0)

abbrev pub IsBehind : WalletStatus → Type 0
IsBehind st = (st.blocks ≡ 0) ⊎ (0 < st.blocks_behind)

synced-InSync : (st : WalletStatus) → is_synced st ≡ true → InSync st
synced-InSync st h = (ground (arith, h), ground (arith, h))

not_synced-IsBehind : (st : WalletStatus) → is_synced st ≡ false → IsBehind st
not_synced-IsBehind st h = elim (Bool-cases (st.blocks == 0)) [
  | inl e ↦ inl (ground (arith, e))
  | inr e ↦ inr (ground (arith, h, e))
]

leb_refl : (n : ℕ) → leb n n ≡ true
leb_refl n = ground arith

ok-same : (a b : WalletStatus) → ◌≡◌ {A = Result String WalletStatus} (ok a) (ok b) → a ≡ b
ok-same a b e = cc

module _ {W : Type 0} (env : BlockEnv W) where
  then_status-ok :
      (next : WalletStatus → W → Option (Result String WalletStatus × W)) (st : WalletStatus)
      (r : Result String WalletStatus × W)
      → r.0 ≡ ok st
      → then_status env next r ≡ next st r.1
  then_status-ok next st (ok a, w) h = ap (λ (b : WalletStatus). next b w) (ok-same a st h)
  then_status-ok next st (err e, w) h = absurd (ground arith)

  -- The first answer of the daemon, from `w` on, of a wallet that is in sync, and the world after it.
  pub data FirstSynced : W → WalletStatus → W → Type 0 where
    this :
        (w : W) (st : WalletStatus)
        → (env.status w).0 ≡ ok st
        → InSync st
        → FirstSynced w st (env.status w).1
    later :
        (w : W) (st low : WalletStatus) (u : W)
        → (env.status w).0 ≡ ok st
        → IsBehind st
        → FirstSynced (env.status w).1 low u
        → FirstSynced w low u

  -- The world before the call of Status in a round of the second loop.
  abbrev pub mined : W → W
  mined w = (generate env w).1

  -- The first answer above the height, from `w` on, with a block generated before each call of Status
  -- where blocks are generated.
  pub data FirstAbove (h : ℕ) : W → WalletStatus → W → Type 0 where
    this_one :
        (w : W) (st : WalletStatus)
        → (env.status (mined w)).0 ≡ ok st
        → h < st.blocks
        → FirstAbove h w st (env.status (mined w)).1
    a_later :
        (w : W) (st high : WalletStatus) (v : W)
        → (env.status (mined w)).0 ≡ ok st
        → st.blocks ≤ h
        → FirstAbove h (env.status (mined w)).1 high v
        → FirstAbove h w high v

  until_synced-ends :
      (left : W → ℕ) (f : ℕ) (st : WalletStatus) (w : W)
      → ((u : W)
          → (x : WalletStatus) × ((env.status u).0 ≡ ok x)
            × (IsBehind x → left (env.status u).1 < left u))
      → (env.status w).0 ≡ ok st
      → 0 < f
      → (IsBehind st → left (env.status w).1 + 1 < f)
      → (low : WalletStatus) × (u : W) × (until_synced env f st (env.status w).1 ≡ some (ok low, u))
        × FirstSynced w low u
  unfolding until_synced
  until_synced-ends left zero st w answers here some_fuel enough = absurd (omega arith)
  until_synced-ends left (suc f) st w answers here some_fuel enough =
      elim (Bool-cases (is_synced st)) [
        | inl e1 ↦ (st, (env.status w).1, rw e1 refl, this w st here (synced-InSync st e1))
        | inr e2 ↦
            (let (x, answer, less) = answers (env.status w).1 in
              let more = enough (not_synced-IsBehind st e2) in
              let (low, u, end, first) =
                until_synced-ends left f x (env.status w).1 answers answer (omega arith)
                  (λ e. omega (arith, less e, more)) in
              (
                low,
                u,
                rw e2 (
                    then_status-ok (until_synced env f) x (env.status (env.status w).1) answer
                    ∙ end),
                later w st low u here (not_synced-IsBehind st e2) first,
              ))
      ]

  generate_then-ok :
      (next : WalletStatus → W → Option (Result String WalletStatus × W))
      (r : Result String (Unit {0}) × W)
      → r.0 ≡ ok tt
      → generate_then env next r ≡ then_status env next (env.status r.1)
  generate_then-ok next (ok a, w) h = refl
  generate_then-ok next (err e, w) h = absurd (ground arith)

  round-ok :
      (g current : ℕ) (x : WalletStatus) (w : W)
      → (generate env w).0 ≡ ok tt
      → (env.status (mined w)).0 ≡ ok x
      → generate_then env (until_higher env g current) (generate env w)
        ≡ until_higher env g current x (env.status (mined w)).1
  round-ok g current x w made answer =
      generate_then-ok (until_higher env g current) (generate env w) made
      ∙ then_status-ok (until_higher env g current) x (env.status (mined w)) answer

  until_higher-ends :
      (current : ℕ) (left : W → ℕ) (g : ℕ) (st : WalletStatus) (w : W)
      → ((u : W) → (generate env u).0 ≡ ok tt)
      → ((u : W)
          → (x : WalletStatus) × ((env.status (mined u)).0 ≡ ok x)
            × (x.blocks ≤ current → left (env.status (mined u)).1 < left u))
      → (env.status (mined w)).0 ≡ ok st
      → 0 < g
      → (st.blocks ≤ current → left (env.status (mined w)).1 + 1 < g)
      → (high : WalletStatus) × (v : W) × (until_higher env g current st (env.status (mined w)).1
          ≡ some (ok high, v))
        × FirstAbove current w high v
  unfolding until_higher
  until_higher-ends current left zero st w made answers here some_fuel enough = absurd (omega arith)
  until_higher-ends current left (suc g) st w made answers here some_fuel enough =
      let w' = (env.status (mined w)).1 in
      elim (Bool-cases (leb st.blocks current)) [
        | inl e1 ↦
            (let (x, answer, less) = answers w' in
              let low = leb→le st.blocks current e1 in
              let more = enough low in
              let (high, v, end, first) =
                until_higher-ends current left g x w' made answers answer (omega arith)
                  (λ e. omega (arith, less e, more)) in
              (
                high,
                v,
                rw e1 (round-ok g current x w' (made w') answer ∙ end),
                a_later w st high v here low first,
              ))
        | inr e2 ↦ (st, w', rw e2 refl, this_one w st here (ground (arith, e2)))
      ]

  -- The second loop from the answer whose height it has noted: it always makes a round.
  from_low-ends :
      (left : W → ℕ) (g : ℕ) (low : WalletStatus) (u : W)
      → ((x : W) → (generate env x).0 ≡ ok tt)
      → ((y : W)
          → (x : WalletStatus) × ((env.status (mined y)).0 ≡ ok x)
            × (x.blocks ≤ low.blocks → left (env.status (mined y)).1 < left y))
      → left u + 1 < g
      → (high : WalletStatus) × (v : W) × (until_higher env g low.blocks low u ≡ some (ok high, v))
        × FirstAbove low.blocks u high v
  unfolding until_higher
  from_low-ends left zero low u made answers enough = absurd (omega arith)
  from_low-ends left (suc g) low u made answers enough =
      let (x, answer, less) = answers u in
      let (high, v, end, first) =
        until_higher-ends low.blocks left g x u made answers answer (omega arith)
          (λ e. omega (arith, less e, enough)) in
      (high, v, rw (leb_refl low.blocks) (round-ok g low.blocks x u (made u) answer ∙ end), first)

  -- If the daemon answers, catches up (`behind` falls with each answer of a wallet that is behind) and
  -- finds blocks (`until_block h` falls with each answer that is not above the height `h`), then
  -- waitForNewBlock returns without an error, however much fuel is given from some amount on: its
  -- height to beat is that of the first answer of a wallet that has blocks and is not behind, and it
  -- ends with the first answer after that whose height is above it.
  pub wait_for_new_block-ends :
      (behind : W → ℕ) (until_block : ℕ → W → ℕ) (w : W)
      → ((u : W)
          → (x : WalletStatus) × ((env.status u).0 ≡ ok x)
            × (IsBehind x → behind (env.status u).1 < behind u))
      → ((u : W) → (generate env u).0 ≡ ok tt)
      → ((h : ℕ) (u : W)
          → (x : WalletStatus) × ((env.status (mined u)).0 ≡ ok x)
            × (x.blocks ≤ h → until_block h (env.status (mined u)).1 < until_block h u))
      → (f : ℕ) → behind (env.status w).1 + 1 < f
      → (low : WalletStatus) × (u : W) × FirstSynced w low u
        × (g₀ : ℕ) × ((g : ℕ)
            → g₀ < g
            → (high : WalletStatus) × (v : W) × (wait_for_new_block env f g w ≡ some (ok high, v))
              × FirstAbove low.blocks u high v)
  unfolding wait_for_new_block
  wait_for_new_block-ends behind until_block w answers made rises f enough =
      let (x, answer, less) = answers w in
      let (low, u, end, first) =
        until_synced-ends behind f x w answers answer (omega arith) (λ e. enough) in
      let reached = then_status-ok (until_synced env f) x (env.status w) answer ∙ end in
      (
        low,
        u,
        first,
        until_block low.blocks u + 1,
        λ g more.
            let (high, v, last, above) =
              from_low-ends (until_block low.blocks) g low u made (rises low.blocks) more in
            (high, v, rw reached last, above),
      )
