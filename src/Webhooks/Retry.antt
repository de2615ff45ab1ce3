-- ===== src/Webhooks/Retry.antt =====
-- The retries of webhooks: `processRetries` and `retryWebhookDelivery` of
-- backend/src/services/webhookService.ts. The SELECT is taken to give the ids of the deliveries.
use dukapay.Base.{
  ℕ, ◌+◌, Bool, true, false, ◌&&◌, Option, none, some, List, [], ◌∷◌, ltb, leb, ◌==◌, take,
  if◌then◌else◌,
}
use dukapay.Webhooks.{
  Body, ErrorKind, disallowed_callback_url, query_failed, returned_status, message, Subscription,
  Delivery, World, Env, max_retry_attempts, get_retry_delay_ms, ask, execute_update,
  non_empty_secret,
}
use dukapay.Webhooks.Prepare.{prepare_webhook_payload}
use dukapay.Webhooks.Post.{PostOutcome, responded, thrown, is_ok, post_webhook}

-- A row of the SELECT.
pub record RetryRow : Type 0 where
  pub id : ℕ
  pub subscription_id : ℕ
  pub callback_url : ℕ
  pub secret : Option ℕ
  pub payload : Body
  pub attempt_count : ℕ

-- `UPDATE … WHERE id = $n`.
unfoldable pub update_delivery : ℕ → (Delivery → Delivery) → List Delivery → List Delivery
update_delivery id f [] = []
update_delivery id f (d ∷ ds) = (if d.id == id then f d else d) ∷ update_delivery id f ds

unfoldable pub find_subscription : ℕ → List Subscription → Option Subscription
find_subscription id [] = none
find_subscription id (s ∷ ss) = if s.id == id then some s else find_subscription id ss

-- `next_retry_at <= $1` of a column that is not NULL.
abbrev pub is_at_most : Option ℕ → ℕ → Bool
is_at_most none now = false
is_at_most (some t) now = leb t now

abbrev pub is_null : Option ℕ → Bool
is_null none = true
is_null (some t) = false

-- The WHERE clause.
unfoldable pub is_due : ℕ → Delivery → Bool
is_due now d =
    is_null d.delivered_at
    && is_at_most d.next_retry_at now
    && ltb d.attempt_count max_retry_attempts

unfoldable pub due : ℕ → List Delivery → List Delivery
due now [] = []
due now (d ∷ ds) = let rest = due now ds in if is_due now d then d ∷ rest else rest

abbrev pub is_before : Option ℕ → Option ℕ → Bool
is_before none b = false
is_before (some a) none = true
is_before (some a) (some b) = ltb a b

-- `ORDER BY next_retry_at ASC`; among equal times, in the order of the table.
unfoldable pub insert_by_time : Delivery → List Delivery → List Delivery
insert_by_time d [] = d ∷ []
insert_by_time d (e ∷ es) =
    let rest = insert_by_time d es in
    if is_before e.next_retry_at d.next_retry_at then e ∷ rest else d ∷ e ∷ es

unfoldable pub order_by_time : List Delivery → List Delivery
order_by_time [] = []
order_by_time (d ∷ ds) = insert_by_time d (order_by_time ds)

-- The JOIN: a delivery without its subscription has no row.
abbrev pub join_row : Delivery → Option Subscription → List RetryRow → List RetryRow
join_row d none rest = rest
join_row d (some s) rest =
    record {
      id = d.id;
      subscription_id = d.subscription_id;
      callback_url = s.callback_url;
      secret = s.secret;
      payload = d.payload;
      attempt_count = d.attempt_count;
    }
    ∷ rest

unfoldable pub joined : List Subscription → List Delivery → List RetryRow
joined subscriptions [] = []
joined subscriptions (d ∷ ds) =
    join_row d (find_subscription d.subscription_id subscriptions) (joined subscriptions ds)

-- The rows of the answer.
unfoldable pub selected : World → List RetryRow
unfolding due order_by_time joined
selected w = take 100 (joined w.subscriptions (order_by_time (due w.now w.deliveries)))

unfoldable pub mark_delivered : ℕ → ℕ → ℕ → Delivery → Delivery
mark_delivered attempts status now d = record d {
  attempt_count = attempts;
  last_status_code = some status;
  delivered_at = some now;
  last_error = none;
  next_retry_at = none;
}

unfoldable pub mark_refused : ℕ → ℕ → Option ℕ → Delivery → Delivery
mark_refused attempts status next_retry d = record d {
  attempt_count = attempts;
  last_status_code = some status;
  last_error = some (returned_status status);
  next_retry_at = next_retry;
}

unfoldable pub mark_error : ℕ → ErrorKind → Option ℕ → Delivery → Delivery
mark_error attempts error next_retry d = record d {
  attempt_count = attempts;
  last_error = some (message error);
  next_retry_at = next_retry;
}

-- `nextRetryTime` after a response.
unfoldable pub next_retry_time : ℕ → ℕ → Option ℕ
next_retry_time attempts now =
    if ltb attempts max_retry_attempts then some (now + get_retry_delay_ms attempts) else none

abbrev pub is_disallowed : ErrorKind → Bool
is_disallowed disallowed_callback_url = true
is_disallowed _ = false

-- `nextRetryTime` in the catch block.
unfoldable pub next_retry_time_after : ErrorKind → ℕ → ℕ → Option ℕ
unfolding next_retry_time
next_retry_time_after error attempts now =
    if is_disallowed error then none else next_retry_time attempts now

-- The catch block: false when its own query throws.
unfoldable pub on_error : RetryRow → ErrorKind → World → Bool × World
on_error row error w =
    let attempts = row.attempt_count + 1 in
    execute_update
      (update_delivery row.id
        (mark_error attempts error (next_retry_time_after error attempts w.now)))
      w

-- A query in the try block: the catch block takes its error.
abbrev pub caught_query : RetryRow → Bool × World → Bool × World
caught_query row (true, w) = (true, w)
caught_query row (false, w) = on_error row query_failed w

abbrev pub on_outcome : RetryRow → PostOutcome × World → Bool × World
on_outcome row (responded status, w) =
    let attempts = row.attempt_count + 1 in
    caught_query row (
      execute_update
        (update_delivery row.id (
          if is_ok status
          then mark_delivered attempts status w.now
          else mark_refused attempts status (next_retry_time attempts w.now)))
        w)
on_outcome row (thrown error, w) = on_error row error w

-- An error ends the loop over the rows.
abbrev pub go_on : (World → World) → Bool × World → World
go_on k (true, w) = k w
go_on k (false, w) = w

abbrev pub unless_refused : Bool → Bool × World → Bool × World
unless_refused true r = r
unless_refused false (answered, w) = (false, w)

module _ (env : Env) where
  abbrev pub retry_prepared : RetryRow → Option ℕ → Option Body → World → Bool × World
  retry_prepared row secret none w = (false, w)
  retry_prepared row secret (some body) w = on_outcome row (
      post_webhook env
        (record {
          delivery_id = some row.id;
          subscription_id = row.subscription_id;
          url = row.callback_url;
          body = body;
          secret = non_empty_secret secret;
          sent_at = w.now;
        })
        w)

  -- `retryWebhookDelivery`: whether it returned. The body is prepared before the try block.
  unfoldable pub retry_webhook_delivery : RetryRow → Option ℕ → World → Bool × World
  retry_webhook_delivery row secret w =
      retry_prepared row secret (prepare_webhook_payload env row.payload) w

  -- An empty or missing secret signs nothing; one that cannot be decrypted throws.
  abbrev pub retry_decrypted : RetryRow → Option ℕ → World → Bool × World
  retry_decrypted row none w = (false, w)
  retry_decrypted row (some secret) w = retry_webhook_delivery row (some secret) w

  abbrev pub retry_with : RetryRow → Option ℕ → World → Bool × World
  retry_with row none w = retry_webhook_delivery row none w
  retry_with row (some token) w =
      if token == 0
      then retry_webhook_delivery row none w
      else retry_decrypted row (env.decrypt_webhook_secret token row.subscription_id) w

  -- One round of the loop of `processRetries`, with the guard on the attempts.
  unfoldable pub retry_row : RetryRow → World → Bool × World
  retry_row row w =
      if leb max_retry_attempts row.attempt_count then (true, w) else retry_with row row.secret w

  unfoldable pub retry_rows : List RetryRow → World → World
  retry_rows [] w = w
  retry_rows (row ∷ rows) w = go_on (retry_rows rows) (retry_row row w)

  -- The SELECT: whether it is answered. It names a column `id` without a table.
  unfoldable pub ask_selected : World → Bool × World
  ask_selected w = unless_refused env.resolves_id (ask w)

  abbrev pub process_selected : Bool × World → World
  process_selected (true, w) = retry_rows (selected w) w
  process_selected (false, w) = w

  -- `processRetries`, which throws nothing.
  unfoldable pub process_retries : World → World
  process_retries w = process_selected (ask_selected w)
