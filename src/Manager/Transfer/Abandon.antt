-- ===== src/Manager/Transfer/Abandon.antt =====
-- abandonSupports of manager/transfer.go. Its workers are modelled as one, which takes the claims in
-- their order, if there is any; amounts are in units of 0.000001 LBC. The pages are listed on fuel, as
-- each answer may name more pages; `none` is a listing that goes on.
pub mod Distinct
pub mod Pages
use ytsync.Base.{
  ℕ, zero, suc, ◌+◌, String, Bool, true, false, Option, none, some, List, [], ◌∷◌, ◌++◌, str_eq,
  contains, any, ltb, leb, if◌then◌else◌, Result, ok, err, Method, resume, return, ◌>>=◌,
}
use ytsync.Manager.State.{Sync, on_world}
use ytsync.Manager.Accounts.{AccountEnv, get_default_account}

-- The claims of the supports of a page, and the number of pages.
pub record SupportPage : Type 0 where
  pub claim_ids : List String
  pub total_pages : ℕ

pub record AbandonEnv (W : Type 0) : Type 0 where
  pub accounts : AccountEnv W
  pub concurrent_jobs : ℕ
  pub prefix_error : String → String → String
  -- Of an account, the page with this number.
  pub support_list : String → ℕ → W → Result String SupportPage × W
  -- The amounts of the first outputs of the transactions that spend the supports of a claim.
  pub txo_spend : String → String → W → Result String (List String) × W
  -- strconv.ParseFloat
  pub parse_amount : String → Option ℕ

-- The claims that the producer sends: each at its first place.
unfoldable pub distinct_after : List String → List String → List String
distinct_after seen [] = []
distinct_after seen (id ∷ ids) =
    if any (str_eq id) seen then distinct_after seen ids else id ∷ distinct_after (id ∷ seen) ids

abbrev pub distinct : List String → List String
distinct = distinct_after []

module _ {W : Type 0} (env : AbandonEnv W) where
  abbrev pub or_cannot_list : Result String SupportPage × W → Result String SupportPage × W
  or_cannot_list (ok page, w) = (ok page, w)
  or_cannot_list (err e, w) = (err (env.prefix_error "cannot list supports" e), w)

  -- A page is asked for a second time if the first answer is an error.
  abbrev pub list_again : String → ℕ → Result String SupportPage × W → Result String SupportPage × W
  list_again account page (ok p, w) = (ok p, w)
  list_again account page (err e, w) = or_cannot_list (env.support_list account page w)

  abbrev pub list_page : String → ℕ → Method W SupportPage
  list_page account page w = list_again account page (env.support_list account page w)

  abbrev pub with_page :
      (List String → ℕ → W → Option (Result String (List String) × W))
      → List String
      → Result String SupportPage × W
      → Option (Result String (List String) × W)
  with_page more claims (ok p, w) = more (claims ++ p.claim_ids) p.total_pages w
  with_page more claims (err e, w) = some (err e, w)

  -- The loop over the pages, with the number of the next page and of all of them.
  unfoldable pub list_pages :
      ℕ → String → ℕ → List String → ℕ → W → Option (Result String (List String) × W)
  list_pages zero account page claims total w = none
  list_pages (suc fuel) account page claims total w =
      let more = list_pages fuel account (suc page) in
      if leb page total
      then with_page more claims (list_page account page w)
      else some (ok claims, w)

  abbrev pub sum_amounts : List String → Option ℕ
  sum_amounts [] = some 0
  sum_amounts (text ∷ texts) = elim (env.parse_amount text) [
    | none ↦ none
    | some n ↦ elim (sum_amounts texts) [ none ↦ none | some m ↦ some (n + m) ]
  ]

  -- What was abandoned, or none where there is an error in the response.
  abbrev pub amount_of : Result String (List String) → Option ℕ
  amount_of (err e) = none
  amount_of (ok []) = none
  amount_of (ok (text ∷ texts)) = sum_amounts (text ∷ texts)

  -- A call that timed out is made once more.
  abbrev pub spend_again :
      String → String → Result String (List String) × W → Result String (List String) × W
  spend_again account id (ok texts, w) = (ok texts, w)
  spend_again account id (err e, w) =
      if contains e "Client.Timeout exceeded while awaiting headers"
      then env.txo_spend id account w
      else (err e, w)

  abbrev pub abandon_claim : String → String → W → Option ℕ × W
  abandon_claim account id w =
      let (r, u) = spend_again account id (env.txo_spend id account w) in (amount_of r, u)

  abbrev pub or_nothing : Option ℕ → ℕ
  or_nothing none = 0
  or_nothing (some n) = n

  unfoldable pub abandon_claims : String → List String → W → ℕ × W
  abandon_claims account [] w = (0, w)
  abandon_claims account (id ∷ ids) w =
      let (amount, u) = abandon_claim account id w in
      let (total, v) = abandon_claims account ids u in (or_nothing amount + total, v)

  abbrev pub abandon_listed : String → List String → W → ℕ × W
  abandon_listed account claims w =
      if ltb 0 env.concurrent_jobs then abandon_claims account (distinct claims) w else (0, w)

  abbrev pub after_listing :
      String
      → Sync W
      → Option (Result String (List String) × W)
      → Option ((ℕ × Option String) × Sync W)
  after_listing account s none = none
  after_listing account s (some (err e, w)) = some ((0, some e), record s { world = w })
  after_listing account s (some (ok claims, w)) =
      let (total, u) = abandon_listed account claims w in
      some ((total, none), record s { world = u })

  abbrev pub with_account :
      ℕ → Result String String × Sync W → Option ((ℕ × Option String) × Sync W)
  with_account fuel (ok account, s) =
      after_listing account s (list_pages fuel account 1 [] 1 s.world)
  with_account fuel (err e, s) = some ((0, some e), s)

  unfoldable pub abandon_supports : ℕ → Sync W → Option ((ℕ × Option String) × Sync W)
  abandon_supports fuel s = with_account fuel (get_default_account env.accounts s)
