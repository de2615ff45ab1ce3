-- ===== src/Webhooks/Due.antt =====
-- Which deliveries a run of `processRetries` sends again.
use dukapay.Base.{
  ℕ, zero, suc, ◌≡◌, sym, Bool, true, false, ◌&&◌, Option, none, some, List, [], ◌∷◌, ◌==◌, any,
  take, All, arith, inl, inr, Bool-cases, Option-cases, ltb,
}
use dukapay.Webhooks.{max_retry_attempts, Env, World, Delivery, Sent, Subscription}
use dukapay.Webhooks.Retry.{
  RetryRow, is_null, is_at_most, is_due, due, insert_by_time, order_by_time, is_before, joined,
  find_subscription, selected, process_retries,
}
use dukapay.Webhooks.Steps.{
  Log, IsSendable, Step, sends, delivers, refuses, errs, inserts_delivered, inserts_scheduled,
  Steps-invariant, process_retries-StepsTo,
}

-- Not delivered, scheduled for now or before, and below the limit of attempts.
abbrev pub may_retry : ℕ → Delivery → Bool
may_retry now d =
    is_null d.delivered_at
    && (is_at_most d.next_retry_at now && ltb d.attempt_count max_retry_attempts)

-- Some delivery of the id is neither delivered nor at its last attempt, and scheduled for now or before.
unfoldable pub has_due : ℕ → ℕ → List Delivery → Bool
has_due id now = any (λ d. (d.id == id) && may_retry now d)

-- The request is a retry of such a delivery.
abbrev pub is_for_due : ℕ → List Delivery → Option ℕ → Bool
is_for_due now ds none = false
is_for_due now ds (some id) = has_due id now ds

module _ (now : ℕ) where
  All-due :
      (all ds : List Delivery)
      → ((id : ℕ) → has_due id now ds ≡ true → has_due id now all ≡ true)
      → All (λ d. has_due d.id now all ≡ true) (due now ds)
  unfolding has_due due is_due
  All-due all [] h = tt
  All-due all (d ∷ ds) h = elim (Bool-cases (is_due now d)) [
    | inl e ↦ rw e (h d.id (ground arith), All-due all ds (λ id k. h id (ground arith)))
    | inr e ↦ rw e (All-due all ds (λ id k. h id (ground arith)))
  ]

module _ (P : Delivery → Type 0) where
  pub All-insert_by_time :
      (d : Delivery) (ds : List Delivery) → P d → All P ds → All P (insert_by_time d ds)
  unfolding insert_by_time
  All-insert_by_time d [] p a = (p, tt)
  All-insert_by_time d (e ∷ es) p (q, a) =
      elim (Bool-cases (is_before e.next_retry_at d.next_retry_at)) [
        | inl b ↦ rw b (q, All-insert_by_time d es p a)
        | inr b ↦ rw b (p, (q, a))
      ]

  pub All-order_by_time : (ds : List Delivery) → All P ds → All P (order_by_time ds)
  unfolding order_by_time
  All-order_by_time [] a = tt
  All-order_by_time (d ∷ ds) (p, a) =
      All-insert_by_time d (order_by_time ds) p (All-order_by_time ds a)

pub All-joined :
    (P : ℕ → Type 0) (subscriptions : List Subscription) (ds : List Delivery)
    → All (λ d. P d.id) ds
    → All (λ row. P row.id) (joined subscriptions ds)
unfolding joined
All-joined P subscriptions [] a = tt
All-joined P subscriptions (d ∷ ds) (p, a) =
    elim (Option-cases (find_subscription d.subscription_id subscriptions)) [
      | inl e ↦ rw e (All-joined P subscriptions ds a)
      | inr (s, e) ↦ rw e (p, All-joined P subscriptions ds a)
    ]

pub All-take :
    (P : RetryRow → Type 0) (n : ℕ) (rows : List RetryRow) → All P rows → All P (take n rows)
All-take P zero rows a = tt
All-take P (suc n) [] a = tt
All-take P (suc n) (row ∷ rows) (p, a) = (p, All-take P n rows a)

pub All-selected : (w : World) → All (λ row. has_due row.id w.now w.deliveries ≡ true) (selected w)
unfolding selected
All-selected w = All-take _ 100 _ (
    All-joined (λ id. has_due id w.now w.deliveries ≡ true) w.subscriptions _
      (All-order_by_time _ (due w.now w.deliveries)
        (All-due w.now w.deliveries w.deliveries (λ id h. h))))

pub All-weaken :
    (P R : RetryRow → Type 0) (rows : List RetryRow)
    → ((row : RetryRow) → P row → R row)
    → All P rows
    → All R rows
All-weaken P R [] h a = tt
All-weaken P R (row ∷ rows) h (p, a) = (h row p, All-weaken P R rows h a)

module _ (env : Env) (w : World) where
  abbrev IsForDue : Sent → Type 0
  IsForDue s = is_for_due w.now w.deliveries s.delivery_id ≡ true

  Step-IsForDue : (a b : Log) → Step IsForDue a b → All IsForDue a.1 → All IsForDue b.1
  Step-IsForDue _ _ (sends s q) a = (q, a)
  Step-IsForDue _ _ (delivers id attempts status now l h) a = a
  Step-IsForDue _ _ (refuses id attempts status now l h) a = a
  Step-IsForDue _ _ (errs id attempts error now l h) a = a
  Step-IsForDue _ _ (inserts_delivered id sub body status now) a = a
  Step-IsForDue _ _ (inserts_scheduled id sub body status error now) a = a

  sendable :
      (v : World)
      → v.deliveries ≡ w.deliveries
      → v.now ≡ w.now
      → All (IsSendable IsForDue env) (selected v)
  sendable v same time =
      All-weaken (λ row. has_due row.id v.now v.deliveries ≡ true) (IsSendable IsForDue env) _
        (λ row h s e _. rw e (rw (sym same) (rw (sym time) h))) (All-selected v)

-- A run of `processRetries` sends requests only for deliveries that, when it starts, are neither
-- delivered nor at their last attempt and are scheduled for that time or before, whichever of its queries
-- fail and however its requests end.
pub process_retries-IsForDue :
    (env : Env) (w : World)
    → All
        (λ s. is_for_due w.now w.deliveries s.delivery_id ≡ true)
        (process_retries env (record w { sent = [] })).sent
process_retries-IsForDue env w =
    Steps-invariant (λ log. All (IsForDue env w) log.1) (Step-IsForDue env w)
      (process_retries-StepsTo (IsForDue env w) env (record w { sent = [] })
        (λ v same _ time. sendable env w v same time))
      tt
