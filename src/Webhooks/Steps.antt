-- ===== src/Webhooks/Steps.antt =====
-- The changes of `webhook_deliveries` and the requests sent as a step relation, and that the retries of
-- backend/src/services/webhookService.ts only make such steps, whatever queries fail and however the
-- requests end.
use dukapay.Base.{
  ℕ, ◌+◌, ◌≤◌, ◌<◌, ◌≡◌, refl, ap, ◌∙◌, Bool, true, false, Option, none, some, List, [], ◌∷◌, ◌++◌,
  ◌==◌, leb, arith, inl, inr, Bool-cases, Option-cases, All, if◌then◌else◌,
}
use dukapay.Webhooks.{
  Body, Delivery, World, Env, ErrorKind, ErrorText, query_failed, ask, execute_update, execute_on,
  is_answered, max_retry_attempts, get_retry_delay_ms, Sent, Exchange, responds, fails,
}
use dukapay.Webhooks.Prepare.{prepare_webhook_payload}
use dukapay.Webhooks.Post.{
  PostOutcome, responded, thrown, is_ok, post_webhook, assert_callback_url_safe, fetch,
}
use dukapay.Webhooks.Retry.{
  RetryRow, update_delivery, mark_delivered, mark_refused, mark_error, next_retry_time,
  next_retry_time_after, on_error, on_outcome, caught_query, retry_prepared, retry_webhook_delivery,
  retry_with, retry_decrypted, retry_row, retry_rows, go_on, process_selected, process_retries,
  ask_selected, unless_refused, selected,
}
use dukapay.Webhooks.Dispatch.{first_delivery}

-- The deliveries and the requests sent.
abbrev pub Log : Type 0
Log = List Delivery × List Sent

-- The requests sent have `Q`.
pub data Step (Q : Sent → Type 0) : Log → Log → Type 0 where
  sends : {ds : List Delivery} {ss : List Sent} (s : Sent) → Q s → Step Q (ds, ss) (ds, s ∷ ss)
  delivers :
      {ds : List Delivery} {ss : List Sent} (id attempts status now : ℕ)
      → 1 ≤ attempts
      → attempts ≤ max_retry_attempts
      → Step Q (ds, ss) (update_delivery id (mark_delivered attempts status now) ds, ss)
  refuses :
      {ds : List Delivery} {ss : List Sent} (id attempts status now : ℕ)
      → 1 ≤ attempts
      → attempts ≤ max_retry_attempts
      → Step Q
          (ds, ss)
          (update_delivery id (mark_refused attempts status (next_retry_time attempts now)) ds, ss)
  errs :
      {ds : List Delivery} {ss : List Sent} (id attempts : ℕ) (error : ErrorKind) (now : ℕ)
      → 1 ≤ attempts
      → attempts ≤ max_retry_attempts
      → Step Q
          (ds, ss)
          (
            update_delivery id
                (mark_error attempts error (next_retry_time_after error attempts now))
                ds,
            ss,
          )
  inserts_delivered :
      {ds : List Delivery} {ss : List Sent} (id subscription_id : ℕ) (body : Body) (status now : ℕ)
      → Step Q
          (ds, ss)
          (
            ds
                ++ (record (first_delivery subscription_id body
                      (some status)
                      none
                      (some now)
                      none) { id = id }
                    ∷ []),
            ss,
          )
  inserts_scheduled :
      {ds : List Delivery} {ss : List Sent} (id subscription_id : ℕ) (body : Body)
      (status : Option ℕ) (error : ErrorText) (now : ℕ)
      → Step Q
          (ds, ss)
          (
            ds
                ++ (record (first_delivery subscription_id body status
                      (some error)
                      none
                      (some (now + get_retry_delay_ms 1))) { id = id }
                    ∷ []),
            ss,
          )

pub data Steps (Q : Sent → Type 0) : Log → Log → Type 0 where
  stay : {a : Log} → Steps Q a a
  more : {a b c : Log} → Step Q a b → Steps Q b c → Steps Q a c

pub Steps-append : {Q : Sent → Type 0} {a b c : Log} → Steps Q a b → Steps Q b c → Steps Q a c
Steps-append stay t = t
Steps-append (more s r) t = more s (Steps-append r t)

-- An invariant of the steps is one of their sequences.
pub Steps-invariant :
    {Q : Sent → Type 0} (P : Log → Type 0)
    → ((a b : Log) → Step Q a b → P a → P b)
    → {a b : Log} → Steps Q a b
    → P a
    → P b
Steps-invariant P h stay p = p
Steps-invariant P h (more s r) p = Steps-invariant P h r (h _ _ s p)

-- The URL of a request passed the check when it was sent.
abbrev pub IsChecked : Env → Sent → Type 0
IsChecked env s = assert_callback_url_safe env s.url s.sent_at ≡ none

abbrev pub StepsTo : (Sent → Type 0) → World → World → Type 0
StepsTo Q v w = Steps Q (v.deliveries, v.sent) (w.deliveries, w.sent)

module _ (Q : Sent → Type 0) where
  execute_update-StepsTo :
      (f : List Delivery → List Delivery) (w : World)
      → ((ds : List Delivery) (ss : List Sent) → Step Q (ds, ss) (f ds, ss))
      → StepsTo Q w (execute_update f w).1
  unfolding execute_update ask
  execute_update-StepsTo f w h = go w.failing
    where
      go : (bs : List Bool) → StepsTo Q w (execute_on f (is_answered bs w)).1
      go [] = more (h w.deliveries w.sent) stay
      go (true ∷ bs) = stay
      go (false ∷ bs) = more (h w.deliveries w.sent) stay

  pub ask-StepsTo : (w : World) → StepsTo Q w (ask w).1
  unfolding ask
  ask-StepsTo w = go w.failing
    where
      go : (bs : List Bool) → StepsTo Q w (is_answered bs w).1
      go [] = stay
      go (true ∷ bs) = stay
      go (false ∷ bs) = stay

  pub post_webhook-StepsTo :
      (env : Env) (s : Sent) (w : World)
      → s.sent_at ≡ w.now
      → (IsChecked env s → Q s)
      → StepsTo Q w (post_webhook env s w).1
  unfolding post_webhook
  post_webhook-StepsTo env s w at q =
      elim (Option-cases (assert_callback_url_safe env s.url w.now)) [
        | inl e ↦ rw e (
            more (sends s (q (ap (assert_callback_url_safe env s.url) at ∙ e)))
              (fetched w.exchanges (record w { sent = s ∷ w.sent })))
        | inr (k, e) ↦ rw e stay
      ]
    where
      fetched : (es : List Exchange) (v : World) → StepsTo Q v (fetch env es v).1
      fetched [] v = stay
      fetched (responds status took ∷ es) v = stay
      fetched (fails took ∷ es) v = stay

  module _ (row : RetryRow) (h : row.attempt_count < max_retry_attempts) where
    on_error-StepsTo : (error : ErrorKind) (w : World) → StepsTo Q w (on_error row error w).1
    unfolding on_error
    on_error-StepsTo error w =
        execute_update-StepsTo _ w
          (λ ds ss. errs row.id (row.attempt_count + 1) error w.now (omega arith) (omega arith))

    caught_query-StepsTo :
        (v : World) (r : Bool × World) → StepsTo Q v r.1 → StepsTo Q v (caught_query row r).1
    caught_query-StepsTo v (true, w) s = s
    caught_query-StepsTo v (false, w) s = Steps-append s (on_error-StepsTo query_failed w)

    on_outcome-StepsTo :
        (v : World) (r : PostOutcome × World) → StepsTo Q v r.1 → StepsTo Q v (on_outcome row r).1
    on_outcome-StepsTo v (responded status, w) s =
        Steps-append s
          (caught_query-StepsTo w _ (execute_update-StepsTo _ w (written (is_ok status))))
      where
        written :
            (b : Bool) (ds : List Delivery) (ss : List Sent)
            → Step Q
                (ds, ss)
                (
                  update_delivery row.id
                      (if b
                        then mark_delivered (row.attempt_count + 1) status w.now
                        else mark_refused
                            (row.attempt_count + 1)
                            status
                            (next_retry_time (row.attempt_count + 1) w.now))
                      ds,
                  ss,
                )
        written true ds ss = delivers row.id _ status w.now (omega arith) (omega arith)
        written false ds ss = refuses row.id _ status w.now (omega arith) (omega arith)
    on_outcome-StepsTo v (thrown error, w) s = Steps-append s (on_error-StepsTo error w)

    module _ (env : Env)
        (q : (s : Sent) → s.delivery_id ≡ some row.id → IsChecked env s → Q s) where
      retry_webhook_delivery-StepsTo :
          (secret : Option ℕ) (w : World) → StepsTo Q w (retry_webhook_delivery env row secret w).1
      unfolding retry_webhook_delivery
      retry_webhook_delivery-StepsTo secret w = go (prepare_webhook_payload env row.payload)
        where
          go : (b : Option Body) → StepsTo Q w (retry_prepared env row secret b w).1
          go none = stay
          go (some body) = on_outcome-StepsTo w _ (post_webhook-StepsTo env _ w refl (q _ refl))

      retry_with-StepsTo :
          (secret : Option ℕ) (w : World) → StepsTo Q w (retry_with env row secret w).1
      retry_with-StepsTo none w = retry_webhook_delivery-StepsTo none w
      retry_with-StepsTo (some token) w = elim (Bool-cases (token == 0)) [
        | inl e ↦ rw e (retry_webhook_delivery-StepsTo none w)
        | inr e ↦ rw e (decrypted (env.decrypt_webhook_secret token row.subscription_id))
      ]
        where
          decrypted : (s : Option ℕ) → StepsTo Q w (retry_decrypted env row s w).1
          decrypted none = stay
          decrypted (some s) = retry_webhook_delivery-StepsTo (some s) w

  go_on-StepsTo :
      (k : World → World) (v : World) (r : Bool × World)
      → StepsTo Q v r.1
      → ((w : World) → StepsTo Q w (k w))
      → StepsTo Q v (go_on k r)
  go_on-StepsTo k v (true, w) s h = Steps-append s (h w)
  go_on-StepsTo k v (false, w) s h = s

  pub ask_selected-StepsTo : (env : Env) (w : World) → StepsTo Q w (ask_selected env w).1
  unfolding ask_selected
  ask_selected-StepsTo env w = go env.resolves_id (ask w) (ask-StepsTo w)
    where
      go : (b : Bool) (r : Bool × World) → StepsTo Q w r.1 → StepsTo Q w (unless_refused b r).1
      go true r h = h
      go false (answered, v) h = h

  module _ (env : Env) where
    -- The requests that a row may send.
    abbrev pub IsSendable : RetryRow → Type 0
    IsSendable row = (s : Sent) → s.delivery_id ≡ some row.id → IsChecked env s → Q s

    pub retry_row-StepsTo :
        (row : RetryRow) (w : World) → IsSendable row → StepsTo Q w (retry_row env row w).1
    unfolding retry_row
    retry_row-StepsTo row w q = elim (Bool-cases (leb max_retry_attempts row.attempt_count)) [
      | inl e ↦ rw e stay
      | inr e ↦ rw e (retry_with-StepsTo row (ground arith) env q row.secret w)
    ]

    pub retry_rows-StepsTo :
        (rows : List RetryRow) (w : World)
        → All IsSendable rows
        → StepsTo Q w (retry_rows env rows w)
    unfolding retry_rows
    retry_rows-StepsTo [] w q = stay
    retry_rows-StepsTo (row ∷ rows) w (q, qs) =
        go_on-StepsTo (retry_rows env rows) w (retry_row env row w) (retry_row-StepsTo row w q)
          (λ v. retry_rows-StepsTo rows v qs)

    -- `processRetries` makes steps that send only what its rows may send.
    pub process_retries-StepsTo :
        (w : World)
        → ((v : World)
            → v.deliveries ≡ w.deliveries
            → v.subscriptions ≡ w.subscriptions
            → v.now ≡ w.now
            → All IsSendable (selected v))
        → StepsTo Q w (process_retries env w)
    unfolding process_retries ask_selected ask
    process_retries-StepsTo w h = go env.resolves_id w.failing
      where
        go :
            (resolved : Bool) (bs : List Bool)
            → StepsTo Q w (process_selected env (unless_refused resolved (is_answered bs w)))
        go true [] = retry_rows-StepsTo (selected w) w (h w refl refl refl)
        go false [] = stay
        go resolved (true ∷ bs) = refused resolved
          where
            refused :
                (b : Bool)
                → StepsTo Q w (process_selected env (unless_refused b (is_answered (true ∷ bs) w)))
            refused true = stay
            refused false = stay
        go false (false ∷ bs) = stay
        go true (false ∷ bs) =
            retry_rows-StepsTo _ (record w { failing = bs })
              (h (record w { failing = bs }) refl refl refl)
