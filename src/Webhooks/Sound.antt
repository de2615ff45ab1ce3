-- ===== src/Webhooks/Sound.antt =====
-- What the webhook service keeps of its deliveries, however its runs overlap.
use dukapay.Base.{
  ℕ, zero, suc, ◌≤◌, ◌<◌, ◌≡◌, refl, Bool, true, false, not, ◌&&◌, Option, none, some, List, [],
  ◌∷◌, ◌++◌, ◌==◌, any, All, arith, inl, inr, Bool-cases, if◌then◌else◌,
}
use dukapay.Webhooks.{Delivery, World, Env, ErrorKind, max_retry_attempts, Sent}
use dukapay.Webhooks.Retry.{
  ask_selected, RetryRow, update_delivery, mark_delivered, mark_refused, mark_error,
  next_retry_time, next_retry_time_after, is_disallowed, is_null,
}
use dukapay.Webhooks.Dispatch.{first_delivery}
use dukapay.Webhooks.Steps.{
  Log, IsChecked, Step, sends, delivers, refuses, errs, inserts_delivered, inserts_scheduled, stay,
  Steps-append, Steps-invariant, StepsTo, ask_selected-StepsTo, retry_row-StepsTo,
}
use dukapay.Webhooks.Dispatched.{dispatch-StepsTo}
use dukapay.Webhooks.Interleaved.{
  Service, ServiceEvent, starts, advances, dispatches, waits, start, advance_at, happen, happen_all,
}

-- Only a delivery with fewer than four attempts is scheduled.
abbrev pub IsScheduledBelow : Option ℕ → ℕ → Type 0
IsScheduledBelow none attempts = Unit {0}
IsScheduledBelow (some t) attempts = attempts < max_retry_attempts

abbrev pub IsSound : Delivery → Type 0
IsSound d =
    ((1 ≤ d.attempt_count) × (d.attempt_count ≤ max_retry_attempts))
    × IsScheduledBelow d.next_retry_at d.attempt_count

-- Some delivery of the id is delivered.
unfoldable pub is_delivered : ℕ → List Delivery → Bool
is_delivered id = any (λ d. (d.id == id) && not (is_null d.delivered_at))

All-update_delivery :
    (P : Delivery → Type 0) (id : ℕ) (f : Delivery → Delivery) (ds : List Delivery)
    → ((d : Delivery) → P d → P (f d))
    → All P ds
    → All P (update_delivery id f ds)
unfolding update_delivery
All-update_delivery P id f [] h a = tt
All-update_delivery P id f (d ∷ ds) h (p, a) = elim (Bool-cases (d.id == id)) [
  | inl e ↦ rw e (h d p, All-update_delivery P id f ds h a)
  | inr e ↦ rw e (p, All-update_delivery P id f ds h a)
]

All-append :
    (P : Delivery → Type 0) (ds : List Delivery) (d : Delivery)
    → All P ds
    → P d
    → All P (ds ++ (d ∷ []))
All-append P [] d a p = (p, tt)
All-append P (e ∷ ds) d (q, a) p = (q, All-append P ds d a p)

next_retry_time-IsScheduledBelow :
    (attempts now : ℕ) → IsScheduledBelow (next_retry_time attempts now) attempts
unfolding next_retry_time
next_retry_time-IsScheduledBelow attempts now = ground arith

next_retry_time_after-IsScheduledBelow :
    (error : ErrorKind) (attempts now : ℕ)
    → IsScheduledBelow (next_retry_time_after error attempts now) attempts
unfolding next_retry_time_after
next_retry_time_after-IsScheduledBelow error attempts now = go (is_disallowed error)
  where
    go : (b : Bool) → IsScheduledBelow (if b then none else next_retry_time attempts now) attempts
    go true = tt
    go false = next_retry_time-IsScheduledBelow attempts now

Step-IsSound : {Q : Sent → Type 0} (a b : Log) → Step Q a b → All IsSound a.0 → All IsSound b.0
unfolding mark_delivered mark_refused mark_error first_delivery
Step-IsSound _ _ (sends s q) a = a
Step-IsSound _ _ (delivers id attempts status now l h) a =
    All-update_delivery IsSound id _ _ (λ d p. ((l, h), tt)) a
Step-IsSound _ _ (refuses id attempts status now l h) a =
    All-update_delivery IsSound id _ _
      (λ d p. ((l, h), next_retry_time-IsScheduledBelow attempts now)) a
Step-IsSound _ _ (errs id attempts error now l h) a =
    All-update_delivery IsSound id _ _
      (λ d p. ((l, h), next_retry_time_after-IsScheduledBelow error attempts now)) a
Step-IsSound _ _ (inserts_delivered id sub body status now) a =
    All-append IsSound _ _ a ((omega arith, omega arith), tt)
Step-IsSound _ _ (inserts_scheduled id sub body status error now) a =
    All-append IsSound _ _ a ((omega arith, omega arith), omega arith)

module _ (id : ℕ) where
  is_delivered-update_delivery :
      (target : ℕ) (f : Delivery → Delivery) (ds : List Delivery)
      → ((d : Delivery) → (f d).id ≡ d.id)
      → ((d : Delivery) → is_null d.delivered_at ≡ false → is_null (f d).delivered_at ≡ false)
      → is_delivered id ds ≡ true
      → is_delivered id (update_delivery target f ds) ≡ true
  unfolding is_delivered update_delivery
  is_delivered-update_delivery target f [] h k e = e
  is_delivered-update_delivery target f (d ∷ ds) h k e =
      ground (arith, h d, k d, is_delivered-update_delivery target f ds h k)

  is_delivered-append :
      (ds : List Delivery) (d : Delivery)
      → is_delivered id ds ≡ true
      → is_delivered id (ds ++ (d ∷ [])) ≡ true
  unfolding is_delivered
  is_delivered-append (c ∷ ds) d e = ground (arith, is_delivered-append ds d)
  is_delivered-append [] d e = ground arith

  Step-is_delivered :
      {Q : Sent → Type 0} (a b : Log)
      → Step Q a b
      → is_delivered id a.0 ≡ true
      → is_delivered id b.0 ≡ true
  unfolding mark_delivered mark_refused mark_error
  Step-is_delivered _ _ (sends s q) e = e
  Step-is_delivered _ _ (delivers target attempts status now l h) e =
      is_delivered-update_delivery target _ _ (λ d. refl) (λ d k. refl) e
  Step-is_delivered _ _ (refuses target attempts status now l h) e =
      is_delivered-update_delivery target _ _ (λ d. refl) (λ d k. k) e
  Step-is_delivered _ _ (errs target attempts error now l h) e =
      is_delivered-update_delivery target _ _ (λ d. refl) (λ d k. k) e
  Step-is_delivered _ _ (inserts_delivered new sub body status now) e = is_delivered-append _ _ e
  Step-is_delivered _ _ (inserts_scheduled new sub body status error now) e =
      is_delivered-append _ _ e

abbrev Anything : Sent → Type 0
Anything s = Unit {0}

module _ (env : Env) where
  module _ (Q : Sent → Type 0) (q : (s : Sent) → IsChecked env s → Q s) where
    advance_at-StepsTo :
        (i : ℕ) (runs : List (List RetryRow)) (w : World) → StepsTo Q w (advance_at env i runs w).1
    unfolding advance_at
    advance_at-StepsTo i [] w = stay
    advance_at-StepsTo zero ([] ∷ runs) w = stay
    advance_at-StepsTo zero ((row ∷ rows) ∷ runs) w = retry_row-StepsTo Q env row w (λ s _. q s)
    advance_at-StepsTo (suc i) (rows ∷ runs) w = advance_at-StepsTo i runs w

    happen-StepsTo : (e : ServiceEvent) (s : Service) → StepsTo Q s.world (happen env e s).world
    unfolding happen
    happen-StepsTo starts s = go (ask_selected env s.world) (ask_selected-StepsTo Q env s.world)
      where
        go : (r : Bool × World) → StepsTo Q s.world r.1 → StepsTo Q s.world (start s.runs r).world
        go (true, v) h = h
        go (false, v) h = h
    happen-StepsTo (advances i) s = advance_at-StepsTo i s.runs s.world
    happen-StepsTo (dispatches event) s = dispatch-StepsTo Q env q event s.world
    happen-StepsTo (waits d) s = stay

    pub happen_all-StepsTo :
        (es : List ServiceEvent) (s : Service) → StepsTo Q s.world (happen_all env es s).world
    unfolding happen_all
    happen_all-StepsTo [] s = stay
    happen_all-StepsTo (e ∷ es) s =
        Steps-append (happen-StepsTo e s) (happen_all-StepsTo es (happen env e s))

  -- However the runs of `processRetries` overlap with each other and with dispatches, whichever queries
  -- fail and however the requests end: the deliveries stay at one to four attempts, and one that is
  -- scheduled for a retry has fewer than four.
  pub happen_all-IsSound :
      (es : List ServiceEvent) (s : Service)
      → All IsSound s.world.deliveries
      → All IsSound (happen_all env es s).world.deliveries
  happen_all-IsSound es s =
      Steps-invariant (λ log. All IsSound log.0) Step-IsSound
        (happen_all-StepsTo Anything (λ s c. tt) es s)

  -- A delivery that is marked as delivered stays so, however the runs of `processRetries` overlap with
  -- each other and with dispatches, whichever queries fail and however the requests end.
  pub is_delivered-happen_all :
      (id : ℕ) (es : List ServiceEvent) (s : Service)
      → is_delivered id s.world.deliveries ≡ true
      → is_delivered id (happen_all env es s).world.deliveries ≡ true
  is_delivered-happen_all id es s =
      Steps-invariant (λ log. is_delivered id log.0 ≡ true) (Step-is_delivered id)
        (happen_all-StepsTo Anything (λ s c. tt) es s)
