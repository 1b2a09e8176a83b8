-- ===== src/Manager/Setup/Chosen.antt =====
-- Which channel of the wallet ensureChannelOwnership takes, and when it creates one.
use ytsync.Base.{
  ◌≡◌, refl, String, true, false, Option, none, some, List, [], ◌∷◌, In, Result, ok, err, inl, inr,
  Bool-cases, str_eq, eq_iff, ◌==◌, arith,
}
use ytsync.Shared.Status
use ytsync.Manager.State.{Sync}
use ytsync.Manager.Setup.{ListedChannel}
use ytsync.Manager.Setup.Ownership.{channel_to_use, find_channel, must_find}

-- What the answers of the loop say.
abbrev pub Fits :
    String → String → List ListedChannel → Result String (Option ListedChannel) → Type 0
Fits id name cs (err _) = Unit {0}
Fits id name cs (ok none) = Unit {0}
Fits id name cs (ok (some c)) = In c cs × (c.claim_id ≡ id) × (c.name ≡ name)

Fits-later :
    (id name : String) (c : ListedChannel) (cs : List ListedChannel)
    (r : Result String (Option ListedChannel))
    → Fits id name cs r
    → Fits id name (c ∷ cs) r
Fits-later id name c cs (err _) h = tt
Fits-later id name c cs (ok none) h = tt
Fits-later id name c cs (ok (some d)) h = (inr h.0, h.1, h.2)

find_channel-Fits :
    (id name : String) (cs : List ListedChannel) → Fits id name cs (find_channel id name cs)
find_channel-Fits id name [] = tt
find_channel-Fits id name (c ∷ cs) = elim (Bool-cases (str_eq c.claim_id id)) [
  | inl e1 ↦ elim (Bool-cases (str_eq c.name name)) [
    | inl e2 ↦
        rw (e1, e2)
          (inl refl, ground (arith, eq_iff c.claim_id id), ground (arith, eq_iff c.name name))
    | inr e3 ↦ rw (e1, e3) tt
  ]
  | inr e4 ↦
      rw e4 (Fits-later id name c cs (find_channel id name cs) (find_channel-Fits id name cs))
]

-- What ensureChannelOwnership goes on with.
abbrev pub Chosen :
    {W : Type 0} → List ListedChannel → Sync W → Result String (Option ListedChannel) → Type 0
Chosen cs s (err _) = Unit {0}
Chosen cs s (ok (some c)) =
    In c cs
    × (c.claim_id ≡ s.db_channel_data.channel_claim_id)
    × (c.name ≡ s.db_channel_data.desired_channel_name)
Chosen cs s (ok none) =
    (cs ≡ [])
    × (str_eq s.db_channel_data.channel_claim_id "" ≡ true)
    × (s.db_channel_data.transfer_state == Status.transfer_complete ≡ false)

must_find-Chosen :
    {W : Type 0} (cs : List ListedChannel) (s : Sync W) (r : Result String (Option ListedChannel))
    → Fits s.db_channel_data.channel_claim_id s.db_channel_data.desired_channel_name cs r
    → Chosen cs s
        (must_find s.db_channel_data.channel_claim_id s.db_channel_data.desired_channel_name r)
must_find-Chosen cs s (err e) h = tt
must_find-Chosen cs s (ok none) h = tt
must_find-Chosen cs s (ok (some c)) h = h

-- The channel that is used is one of the wallet, with the claim and the name of the database. There
-- is none, so that one is created, only if the wallet has no channel, no claim is recorded, and the
-- channel was not transferred.
pub channel_to_use-Chosen :
    {W : Type 0} (cs : List ListedChannel) (s : Sync W) → Chosen cs s (channel_to_use cs s)
unfolding channel_to_use
channel_to_use-Chosen [] s =
    elim (Bool-cases (s.db_channel_data.transfer_state == Status.transfer_complete)) [
      | inl e1 ↦ rw e1 tt
      | inr e2 ↦ elim (Bool-cases (str_eq s.db_channel_data.channel_claim_id "")) [
        | inl e3 ↦ rw (e2, e3) (refl, e3, e2)
        | inr e4 ↦ rw (e2, e4) tt
      ]
    ]
channel_to_use-Chosen (c ∷ cs) s =
    let id = s.db_channel_data.channel_claim_id in
    let name = s.db_channel_data.desired_channel_name in
    elim (Bool-cases (str_eq id "")) [
      | inl e1 ↦ rw e1 tt
      | inr e2 ↦ rw e2 (
          must_find-Chosen (c ∷ cs) s (find_channel id name (c ∷ cs))
            (find_channel-Fits id name (c ∷ cs)))
    ]
