-- ===== src/Manager/Unchanged.antt =====
-- Methods of Sync that leave the record of the channel as it is.
use ytsync.Base.{
  ◌≡◌, refl, ◌∙◌, String, Bool, true, false, List, Result, ok, err, Method, resume, ◌>>=◌,
  if◌then◌else◌, arith, str_eq, inl, inr, Bool-cases,
}
use ytsync.Manager.State.{Sync, on_world}
use ytsync.Manager.Accounts.{
  AccountEnv, get_default_account, choose_account, first_default, Account,
}

module _ {W : Type 0} where
  abbrev pub Unchanged : {A : Type 0} → Method (Sync W) A → Type 0
  Unchanged m = (s : Sync W) → (m s).1.db_channel_data ≡ s.db_channel_data

  pub on_world-Unchanged : {A : Type 0} (call : W → Result String A × W) → Unchanged (on_world call)
  on_world-Unchanged call s = refl

  resumed :
      {A B : Type 0} (k : A → Method (Sync W) B) (r : Result String A × Sync W) (s : Sync W)
      → ((a : A) → Unchanged (k a))
      → r.1.db_channel_data ≡ s.db_channel_data
      → (resume k r).1.db_channel_data ≡ s.db_channel_data
  resumed k (ok a, t) s h e = h a t ∙ e
  resumed k (err m, t) s h e = e

  pub bind-Unchanged :
      {A B : Type 0} (m : Method (Sync W) A) (k : A → Method (Sync W) B)
      → Unchanged m
      → ((a : A) → Unchanged (k a))
      → Unchanged (m >>= k)
  bind-Unchanged m k h g s = resumed k (m s) s g (h s)

  pub if-Unchanged :
      {A : Type 0} (b : Bool) (m n : Method (Sync W) A)
      → Unchanged m
      → Unchanged n
      → Unchanged (if b then m else n)
  if-Unchanged true m n h g = h
  if-Unchanged false m n h g = g

  choose_account-Unchanged : (env : AccountEnv W) (id : String) → Unchanged (choose_account env id)
  choose_account-Unchanged env id s = ground arith

  pub get_default_account-Unchanged : (env : AccountEnv W) → Unchanged (get_default_account env)
  unfolding get_default_account
  get_default_account-Unchanged env s = elim (Bool-cases (str_eq s.default_account_id "")) [
    | inl e1 ↦ rw e1 (
        bind-Unchanged (on_world env.account_list)
          (λ (l : List Account). choose_account env (first_default env l))
          (on_world-Unchanged env.account_list)
          (λ l. choose_account-Unchanged env (first_default env l)) s)
    | inr e2 ↦ rw e2 refl
  ]
