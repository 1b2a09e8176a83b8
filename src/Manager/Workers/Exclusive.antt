-- ===== src/Manager/Workers/Exclusive.antt =====
-- No two workers work on one video.
use ytsync.Base.{
  ℕ, zero, suc, ◌≡◌, ◌≢◌, refl, sym, ap, subst, ◌∙◌, String, List, [], ◌∷◌, ◌++◌, All, append_assoc,
}
use ytsync.Manager.State.{Sync}
use ytsync.Manager.Worker.{Video, WorkerEnv}
use ytsync.Manager.Workers.{
  Pc, holding, failing, Shared, System, Turn, leave, receive, drained, give_up, succeed, fail,
  retry, finish, Step, turn, close, interrupt, Run, here, moved, idle_workers, begin,
}

-- The videos that are held or still to be sent.
abbrev held : Pc → List String
held (holding v n) = v.id ∷ []
held (failing v n msg) = v.id ∷ []
held p = []

pub in_hand : List Pc → List String
in_hand [] = []
in_hand (p ∷ ps) = held p ++ in_hand ps

unfoldable pub ids_of : List Video → List String
ids_of [] = []
ids_of (v ∷ vs) = v.id ∷ ids_of vs

unfoldable pub Different : List String → Type 0
Different [] = Unit {0}
Different (a ∷ rest) = All (λ b. a ≢ b) rest × Different rest

All-drop :
    (P : String → Type 0) (bs rest : List String) (x : String)
    → All P (bs ++ x ∷ rest)
    → All P (bs ++ rest)
All-drop P [] rest x h = h.1
All-drop P (b ∷ bs) rest x h = (h.0, All-drop P bs rest x h.1)

drop-Different :
    (bs rest : List String) (x : String) → Different (bs ++ x ∷ rest) → Different (bs ++ rest)
unfolding Different
drop-Different [] rest x h = h.1
drop-Different (b ∷ bs) rest x h =
    (All-drop (λ c. b ≢ c) bs rest x h.0, drop-Different bs rest x h.1)

-- An element of a list comes first.
All-pull :
    (P : String → Type 0) (bs rest : List String) (x : String)
    → All P (bs ++ x ∷ rest)
    → P x × All P (bs ++ rest)
All-pull P [] rest x h = h
All-pull P (b ∷ bs) rest x h =
    let (first, others) = All-pull P bs rest x h.1 in (first, (h.0, others))

pull-Different :
    (bs rest : List String) (x : String) → Different (bs ++ x ∷ rest) → Different (x ∷ (bs ++ rest))
unfolding Different
pull-Different [] rest x h = h
pull-Different (b ∷ bs) rest x h =
    let (first, others) = All-pull (λ c. b ≢ c) bs rest x h.0 in
    let later = pull-Different bs rest x h.1 in (((λ e. first (sym e)), later.0), (others, later.1))

All-push :
    (P : String → Type 0) (bs as_ rest : List String) (x : String)
    → All P (bs ++ (as_ ++ x ∷ rest))
    → All P (bs ++ x ∷ (as_ ++ rest))
All-push P [] as_ rest x h = All-pull P as_ rest x h
All-push P (b ∷ bs) as_ rest x h = (h.0, All-push P bs as_ rest x h.1)

push-Different :
    (bs as_ rest : List String) (x : String)
    → Different (bs ++ (as_ ++ x ∷ rest))
    → Different (bs ++ x ∷ (as_ ++ rest))
unfolding Different
push-Different [] as_ rest x h = pull-Different as_ rest x h
push-Different (b ∷ bs) as_ rest x h =
    (All-push (λ c. b ≢ c) bs as_ rest x h.0, push-Different bs as_ rest x h.1)

in_hand-append : (ps qs : List Pc) → in_hand (ps ++ qs) ≡ in_hand ps ++ in_hand qs
unfolding in_hand
in_hand-append [] qs = refl
in_hand-append (p ∷ ps) qs =
    ap (λ l. held p ++ l) (in_hand-append ps qs)
    ∙ sym (append_assoc (held p) (in_hand ps) (in_hand qs))

in_hand-at :
    (before after : List Pc) (p : Pc) (rest : List String)
    → in_hand (before ++ p ∷ after) ++ rest ≡ in_hand before ++ (held p ++ (in_hand after ++ rest))
unfolding in_hand
in_hand-at before after p rest =
    ap (λ l. l ++ rest) (in_hand-append before (p ∷ after))
    ∙ append_assoc (in_hand before) (held p ++ in_hand after) rest
    ∙ ap (λ l. in_hand before ++ l) (append_assoc (held p) (in_hand after) rest)

in_hand-idle_workers : (n : ℕ) → in_hand (idle_workers n) ≡ []
unfolding in_hand
in_hand-idle_workers zero = refl
in_hand-idle_workers (suc n) = in_hand-idle_workers n

All-less : (P : String → Type 0) (as_ bs : List String) → All P (as_ ++ bs) → All P (as_ ++ [])
All-less P [] bs h = tt
All-less P (a ∷ as_) bs h = (h.0, All-less P as_ bs h.1)

queue-Different : (as_ bs : List String) → Different (as_ ++ bs) → Different (as_ ++ [])
unfolding Different
queue-Different [] bs h = tt
queue-Different (a ∷ as_) bs h = (All-less (λ b. a ≢ b) as_ bs h.0, queue-Different as_ bs h.1)

module _ {W : Type 0} (env : WorkerEnv W) where
  -- What a turn does to the ids around those of the worker.
  Turn-Different :
      {m u : Shared W} {p q : Pc} (bs as_ : List String)
      → Turn env m p u q
      → Different (bs ++ (held p ++ (as_ ++ ids_of m.queue)))
      → Different (bs ++ (held q ++ (as_ ++ ids_of u.queue)))
  unfolding ids_of
  Turn-Different bs as_ (leave s) h = h
  Turn-Different {m} bs as_ (receive v vs u e g) h =
      subst (λ (x : Shared W). Different (bs ++ v.id ∷ (as_ ++ ids_of x.queue))) (sym g)
        (push-Different bs as_ (ids_of vs) v.id
          (subst (λ l. Different (bs ++ (as_ ++ ids_of l))) e h))
  Turn-Different bs as_ (drained e c) h = h
  Turn-Different bs as_ (give_up v n s) h = drop-Different bs _ v.id h
  Turn-Different bs as_ (succeed v n s r e) h = drop-Different bs _ v.id h
  Turn-Different bs as_ (fail v n s msg r e) h = h
  Turn-Different bs as_ (retry v n s msg e) h = h
  Turn-Different bs as_ (finish v n s msg e) h = drop-Different bs _ v.id h

  -- The ids that workers hold, and those that are not sent yet.
  abbrev pub all_ids : System W → List String
  all_ids s = in_hand s.workers ++ ids_of s.shared.queue

  Step-Different : {s t : System W} → Step env s t → Different (all_ids s) → Different (all_ids t)
  unfolding ids_of
  Step-Different {s} (turn before after p q u at e m) h =
      let placed = subst (λ ws. Different (in_hand ws ++ ids_of s.shared.queue)) at h in
      subst (λ x. Different (all_ids x)) (sym e)
        (subst Different (sym (in_hand-at before after q (ids_of u.queue))) (
          Turn-Different (in_hand before) (in_hand after) m
            (subst Different (in_hand-at before after p (ids_of s.shared.queue)) placed)))
  Step-Different {s} (close c e) h =
      subst (λ x. Different (all_ids x)) (sym e)
        (queue-Different (in_hand s.workers) (ids_of s.shared.queue) h)
  Step-Different {s} (interrupt e) h = subst (λ x. Different (all_ids x)) (sym e) h

  Run-Different :
      {s t : System W} {n : ℕ} → Run env s n t → Different (all_ids s) → Different (all_ids t)
  Run-Different here h = h
  Run-Different (moved n k t u st r e) h = Step-Different st (Run-Different r h)

  -- If the videos of a sync have different ids, then however its workers are interleaved, at no time do
  -- two of them work on one video, nor is a video that one works on still to be sent.
  pub Run_exclusive :
      (jobs n : ℕ) (videos : List Video) (s : Sync W) (t : System W)
      → Different (ids_of videos)
      → Run env (begin jobs videos s) n t
      → Different (all_ids t)
  Run_exclusive jobs n videos s t d r =
      Run-Different r
        (subst (λ l. Different (l ++ ids_of videos)) (sym (in_hand-idle_workers jobs)) d)
