-- ===== src/Manager/Start/Repeats.antt =====
-- Which channels Start syncs one after the other. The syncs are a history in the world, the latest
-- first, to which FullCycle adds its channel and no other call adds anything.
use ytsync.Base.{
  ℕ, zero, suc, String, Bool, true, false, not, ◌&&◌, ◌||◌, Option, none, some, List, [], ◌∷◌,
  str_eq, ◌≡◌, refl, sym, subst, Result, ok, err, Method, Bool-cases, inl, inr, ◌>>=◌, contains,
  resume, if◌then◌else◌, arith, ◌∙◌,
}
use ytsync.Shared.{YoutubeChannel, is_single_channel_sync}
use ytsync.Manager.State.{Sync}
use ytsync.Manager.Termination.{full_cycle, set_channel_termination_status, is_interrupted}
use ytsync.Manager.Start.{
  StartEnv, StartState, with_world, on_start, new_sync, is_looping, noted, fatal_errors,
  check_used_space, enqueue_from, drain_queues, only_one, channels_to_sync, stop_loop, after_error,
  reflect, prefixed_reflect, count_channel, has_reached_limit, next_or_leave, sync_channel,
  process_channels, pause_if_none, sync_channels, start_round, after_round, rounds, first_state,
  after_cleanup, start, queues_to_sync,
}

-- No channel three times in a row.
pub NoThree : List String → Type 0
NoThree [] = Unit {0}
NoThree (a ∷ []) = Unit {0}
NoThree (a ∷ b ∷ []) = Unit {0}
NoThree (a ∷ b ∷ c ∷ rest) = ((str_eq b a && str_eq c b) ≡ false) × NoThree (b ∷ c ∷ rest)

-- The last two channels of a history.
Recent : String → String → List String → Type 0
Recent l s [] = Unit {0}
Recent l s (a ∷ []) = l ≡ a
Recent l s (a ∷ b ∷ _) = (l ≡ a) × (s ≡ b)

Recent-cons : (id l s : String) (h : List String) → Recent l s h → Recent id l (id ∷ h)
unfolding Recent
Recent-cons id l s [] r = refl
Recent-cons id l s (a ∷ []) r = (refl, r)
Recent-cons id l s (a ∷ b ∷ h) (r, _) = (refl, r)

NoThree-cons :
    (id l s : String) (h : List String)
    → Recent l s h
    → (str_eq l id && str_eq s l) ≡ false
    → NoThree h
    → NoThree (id ∷ h)
unfolding Recent NoThree
NoThree-cons id l s [] r e n = tt
NoThree-cons id l s (a ∷ []) r e n = tt
NoThree-cons id l s (a ∷ b ∷ h) (r, q) e n = (
  subst (λ y. (str_eq a id && str_eq y a) ≡ false) q
      (subst (λ x. (str_eq x id && str_eq s x) ≡ false) r e),
  n,
)

module _ {W : Type 0} (history : W → List String) where
  Good : StartState W → Type 0
  Good t = Recent t.last_channel t.second_last_channel (history t.world) × NoThree (history t.world)

  -- A service that syncs nothing.
  abbrev pub Quiet : {A : Type 0} → (W → A × W) → Type 0
  Quiet call = (w : W) → history (call w).1 ≡ history w

  abbrev Saves : {A : Type 0} → Method (StartState W) A → Type 0
  Saves m = (t : StartState W) → Good t → Good (m t).1

  moved : (t : StartState W) (w : W) → history w ≡ history t.world → Good t → Good (with_world w t)
  unfolding Good
  moved t w e g = subst (λ h. Recent t.last_channel t.second_last_channel h × NoThree h) (sym e) g

  on_start-Saves :
      {A : Type 0} (call : W → Result String A × W) → Quiet call → Saves (on_start call)
  on_start-Saves call q t g = moved t (call t.world).1 (q t.world) g

  resume-Saves :
      {A B : Type 0} (next : A → Method (StartState W) B) (r : Result String A × StartState W)
      → ((a : A) → Saves (next a))
      → Good r.1
      → Good (resume next r).1
  resume-Saves next (ok a, t) h g = h a t g
  resume-Saves next (err e, t) h g = g

  bind-Saves :
      {A B : Type 0} (m : Method (StartState W) A) (next : A → Method (StartState W) B)
      → Saves m
      → ((a : A) → Saves (next a))
      → Saves (m >>= next)
  bind-Saves m next h k t g = resume-Saves next (m t) k (h t g)

  if-Saves :
      {A : Type 0} (b : Bool) (m n : Method (StartState W) A)
      → Saves m
      → Saves n
      → Saves (if b then m else n)
  if-Saves true m n h k = h
  if-Saves false m n h k = k

module _ {W : Type 0} (env : StartEnv W) (history : W → List String)
    (quiet_exists : (f : String) → Quiet history (env.file_exists f))
    (quiet_remove : (w : W) → history (env.remove_update w) ≡ history w)
    (quiet_sleep : (w : W) → history (env.sleep w) ≡ history w)
    (quiet_disk : Quiet history env.is_disk_full)
    (quiet_fetch : (q : String) → Quiet history (env.fetch_channels q))
    (quiet_quota : (w : W) → history (env.sleep_until_quota_reset w) ≡ history w)
    (quiet_cleanup : (w : W) → history (env.cleanup_metadata w) ≡ history w)
    (quiet_reflect : Quiet history env.reflect_and_clean)
    (quiet_status : (e : String) (s : Sync W)
      → history (set_channel_termination_status env.cycle (some e) s).1.world ≡ history s.world)
    (cycles : (s : Sync W)
      → history (full_cycle env.cycle s).1.world
        ≡ s.db_channel_data.channel_id ∷ history s.world) where
  check_used_space-Saves : Saves history (check_used_space env)
  unfolding check_used_space
  check_used_space-Saves =
      bind-Saves history (on_start env.is_disk_full) _
        (on_start-Saves history env.is_disk_full quiet_disk)
        λ full.
          if-Saves history (full && not env.cycle.flags.skip_space_check) _ _ (λ t g. g) (λ t g. g)

  enqueue_from-Saves :
      (rest : Method (StartState W) (List YoutubeChannel)) (all : Bool) (cs : List YoutubeChannel)
      → Saves history rest
      → Saves history (enqueue_from env rest all cs)
  enqueue_from-Saves rest all [] h = h
  enqueue_from-Saves rest true (c ∷ cs) h = bind-Saves history rest _ h (λ ds t g. g)
  enqueue_from-Saves rest false (c ∷ cs) h = λ t g. g

  drain_queues-Saves : (qs : List String) → Saves history (drain_queues env qs)
  unfolding drain_queues
  drain_queues-Saves [] = λ t g. g
  drain_queues-Saves (q ∷ qs) =
      bind-Saves history (on_start (env.fetch_channels q)) _
        (on_start-Saves history (env.fetch_channels q) (quiet_fetch q))
        λ cs. enqueue_from-Saves (drain_queues env qs) _ cs (drain_queues-Saves qs)

  only_one-Saves : (cs : List YoutubeChannel) → Saves history (only_one env cs)
  only_one-Saves cs t g = ground arith

  channels_to_sync-Saves : Saves history (channels_to_sync env)
  unfolding channels_to_sync
  channels_to_sync-Saves =
      if-Saves history (is_single_channel_sync env.cycle.flags) _ _
        (bind-Saves history (on_start (env.fetch_channels "")) _
          (on_start-Saves history (env.fetch_channels "") (quiet_fetch "")) only_one-Saves)
        (drain_queues-Saves (queues_to_sync env))

  after_error-Saves : (e : Option String) → Saves history (after_error env e)
  unfolding after_error
  after_error-Saves none t g = g
  after_error-Saves (some e) t g = elim (Bool-cases (contains e "quotaExceeded")) [
    | inl e1 ↦ elim (Bool-cases (env.cycle.substring_in_slice e fatal_errors)) [
      | inl e2 ↦ rw (e1, e2) (moved history t _ (quiet_quota t.world) g)
      | inr e3 ↦ rw (e1, e3) (moved history t _ (quiet_quota t.world) g)
    ]
    | inr e4 ↦ elim (Bool-cases (env.cycle.substring_in_slice e fatal_errors)) [
      | inl e5 ↦ rw (e4, e5) g
      | inr e6 ↦ rw (e4, e6) g
    ]
  ]

  prefixed_reflect-Good :
      (r : Result String (Unit {0}) × StartState W)
      → Good history r.1
      → Good history (prefixed_reflect env r).1
  prefixed_reflect-Good (ok _, t) g = g
  prefixed_reflect-Good (err e, t) g = g

  reflect-Saves : Saves history (λ t. prefixed_reflect env (reflect env t))
  reflect-Saves t g =
      prefixed_reflect-Good (reflect env t)
        (moved history t _ (quiet_reflect (env.cleanup_metadata t.world) ∙ quiet_cleanup t.world) g)

  count_channel-Good :
      (b : Bool) (t : StartState W) → Good history t → Good history (count_channel env b t)
  unfolding Good
  count_channel-Good true t g = g
  count_channel-Good false t g = g

  next_or_leave-Saves :
      (next : Method (StartState W) Bool) (s : Sync W)
      → Saves history next
      → Saves history (next_or_leave env next s)
  unfolding next_or_leave
  next_or_leave-Saves next s h t g =
      let f = env.file_exists ".freeze" t.world in
      let u = with_world f.1 t in
      let safe = moved history t f.1 (quiet_exists ".freeze" t.world) g in
      elim (Bool-cases f.0) [
        | inl e1 ↦ rw e1 safe
        | inr e2 ↦
            elim (Bool-cases
              (is_interrupted env.cycle (record s { world = f.1 }) || has_reached_limit env u)) [
                | inl e3 ↦ rw (e2, e3) safe
                | inr e4 ↦ rw (e2, e4) (h u safe)
              ]
      ]

  sync_channel-Good :
      (c : YoutubeChannel) (next : Method (StartState W) Bool) (t : StartState W)
      → is_looping c t ≡ false
      → Saves history next
      → Good history t
      → Good history (sync_channel env c next t).1
  unfolding sync_channel Good
  sync_channel-Good c next t e h g =
      let u = noted c t in
      let (o, s) = full_cycle env.cycle (new_sync c u) in
      let fresh =
        subst (λ l. Recent c.channel_id t.last_channel l × NoThree l) (sym (cycles (new_sync c u)))
          (
            Recent-cons c.channel_id t.last_channel t.second_last_channel (history t.world) g.0,
            NoThree-cons c.channel_id t.last_channel t.second_last_channel (history t.world) g.0 e
                g.1,
          ) in
      bind-Saves history (after_error env o) _ (after_error-Saves o)
        (λ b.
          bind-Saves history (λ t. prefixed_reflect env (reflect env t)) _ reflect-Saves
            λ _ v k.
              next_or_leave-Saves next s h (count_channel env b v) (count_channel-Good b v k))
        (record u { stopped = s.stopped; world = s.world }) fresh

  process_channels-Saves : (cs : List YoutubeChannel) → Saves history (process_channels env cs)
  unfolding process_channels
  process_channels-Saves [] t g = g
  process_channels-Saves (c ∷ cs) t g =
      let f = env.file_exists ".update" t.world in
      let u = with_world f.1 t in
      let safe = moved history t f.1 (quiet_exists ".update" t.world) g in
      elim (Bool-cases f.0) [
        | inl e1 ↦ rw e1 (moved history u _ (quiet_remove f.1) safe)
        | inr e2 ↦ elim (Bool-cases (is_looping c u)) [
          | inl e3 ↦
              rw (e2, e3)
                (process_channels-Saves cs (stop_loop env c u)
                  (moved history u _ (quiet_status _ (new_sync c u)) safe))
          | inr e4 ↦
              rw (e2, e4)
                (sync_channel-Good c (process_channels env cs) u e4 (process_channels-Saves cs)
                  safe)
        ]
      ]

  pause_if_none-Saves : (cs : List YoutubeChannel) → Saves history (pause_if_none env cs)
  pause_if_none-Saves [] t g = moved history t _ (quiet_sleep t.world) g
  pause_if_none-Saves (c ∷ cs) t g = g

  sync_channels-Saves : Saves history (sync_channels env)
  unfolding sync_channels
  sync_channels-Saves = bind-Saves history (check_used_space env) _ check_used_space-Saves λ _.
      bind-Saves history (channels_to_sync env) _ channels_to_sync-Saves λ cs.
        bind-Saves history (pause_if_none env cs) _ (pause_if_none-Saves cs) λ _.
          bind-Saves history (process_channels env cs) _ (process_channels-Saves cs) (λ b t g. g)

  start_round-Saves : Saves history (start_round env)
  unfolding start_round
  start_round-Saves t g =
      let f = env.file_exists ".freeze" t.world in
      let u = with_world f.1 t in
      let safe = moved history t f.1 (quiet_exists ".freeze" t.world) g in
      elim (Bool-cases f.0) [
        | inl e1 ↦ rw e1 (moved history u _ (quiet_sleep f.1) safe)
        | inr e2 ↦ rw e2 (sync_channels-Saves u safe)
      ]

  after_round-Good :
      (next : StartState W → Option (Result String (Unit {0})) × StartState W)
      (r : Result String Bool × StartState W)
      → ((t : StartState W) → Good history t → Good history (next t).1)
      → Good history r.1
      → Good history (after_round env next r).1
  after_round-Good next (err e, t) h g = g
  after_round-Good next (ok true, t) h g = g
  after_round-Good next (ok false, t) h g = h t g

  rounds-Good : (n : ℕ) (t : StartState W) → Good history t → Good history (rounds env n t).1
  unfolding rounds
  rounds-Good zero t g = g
  rounds-Good (suc n) t g =
      after_round-Good (rounds env n) (start_round env t) (rounds-Good n) (start_round-Saves t g)

  first_state-Good : (w : W) → history w ≡ [] → Good history (first_state env w)
  unfolding Good Recent NoThree
  first_state-Good w e = subst (λ h. Recent "" "" h × NoThree h) (sym e) (tt, tt)

  after_cleanup-Good :
      (n : ℕ) (r : Result String (Unit {0}) × W)
      → history r.1 ≡ []
      → Good history (after_cleanup env n r).1
  after_cleanup-Good n (err e, w) h = first_state-Good w h
  after_cleanup-Good n (ok _, w) h = rounds-Good n (first_state env w) (first_state-Good w h)

  chosen-Good :
      (b : Bool) (x y : Option (Result String (Unit {0})) × StartState W)
      → Good history x.1
      → Good history y.1
      → Good history (if b then x else y).1
  chosen-Good true x y g h = g
  chosen-Good false x y g h = h

  -- Where FullCycle adds its channel to a history and no other call of the manager adds anything,
  -- Start, after any number of rounds, has synced no channel three times in a row.
  pub start-NoThree :
      (n : ℕ) (w : W)
      → Quiet history env.clean_for_startup
      → history w ≡ []
      → NoThree (history (start env n w).1.world)
  unfolding start Good
  start-NoThree n w q h =
      (chosen-Good env.should_clean_on_startup _ _
        (after_cleanup-Good n (env.clean_for_startup w) (q w ∙ h))
        (rounds-Good n (first_state env w) (first_state-Good w h))).1
