-- ===== src/Webhooks/Dispatch.antt =====
-- The first delivery of an event: `dispatch` and `sendToWebhook` of
-- backend/src/services/webhookService.ts. The requests of one event, which the code makes at the same
-- time, are made one after the other.
use dukapay.Base.{
  ℕ, ◌+◌, Bool, true, false, ◌&&◌, Option, none, some, List, [], ◌∷◌, ◌++◌, ◌==◌, any,
  if◌then◌else◌,
}
use dukapay.Webhooks.{
  Value, text, other, Body, whole_payload, ErrorKind, query_failed, ErrorText, returned_status,
  message, Payload, Subscription, Delivery, World, Env, get_retry_delay_ms, ask, non_empty_secret,
}
use dukapay.Webhooks.Prepare.{prepare_webhook_payload}
use dukapay.Webhooks.Post.{PostOutcome, responded, thrown, is_ok, post_webhook}

abbrev pub equal_value : Value → Value → Bool
equal_value (text a) (text b) = a == b
equal_value (other a) (other b) = a == b
equal_value _ _ = false

abbrev pub has_type : Option Value → List Value → Bool
has_type none types = false
has_type (some t) types = any (equal_value t) types

-- `is_active = true AND event_types @> $1`.
unfoldable pub subscribed : Option Value → List Subscription → List Subscription
subscribed event_type [] = []
subscribed event_type (s ∷ ss) =
    let rest = subscribed event_type ss in
    if s.is_active && has_type event_type s.event_types then s ∷ rest else rest

abbrev pub insert_on : Delivery → Bool × World → Bool × World
insert_on d (true, w) = (
  true,
  record w {
    deliveries = w.deliveries ++ (record d { id = w.next_id } ∷ []);
    next_id = w.next_id + 1;
  },
)
insert_on d (false, w) = (false, w)

-- INSERT INTO webhook_deliveries; the id is the table's next.
unfoldable pub insert_delivery : Delivery → World → Bool × World
insert_delivery d w = insert_on d (ask w)

unfoldable pub first_delivery :
    ℕ → Body → Option ℕ → Option ErrorText → Option ℕ → Option ℕ → Delivery
first_delivery subscription_id body status error delivered next_retry = record {
  id = 0;
  subscription_id = subscription_id;
  payload = body;
  attempt_count = 1;
  last_status_code = status;
  last_error = error;
  delivered_at = delivered;
  next_retry_at = next_retry;
}

-- The catch block of `sendToWebhook`.
unfoldable pub insert_error : ℕ → Body → ErrorKind → World → Bool × World
insert_error subscription_id body error w =
    insert_delivery
      (first_delivery subscription_id body none (some (message error)) none
        (some (w.now + get_retry_delay_ms 1)))
      w

abbrev pub insert_caught : ℕ → Body → Bool × World → Bool × World
insert_caught subscription_id body (true, w) = (true, w)
insert_caught subscription_id body (false, w) = insert_error subscription_id body query_failed w

abbrev pub insert_outcome : ℕ → Body → PostOutcome × World → Bool × World
insert_outcome subscription_id body (responded status, w) = insert_caught subscription_id body (
    insert_delivery
      (if is_ok status
        then first_delivery subscription_id body (some status) none (some w.now) none
        else first_delivery subscription_id body (some status) (some (returned_status status)) none
            (some (w.now + get_retry_delay_ms 1)))
      w)
insert_outcome subscription_id body (thrown error, w) = insert_error subscription_id body error w

module _ (env : Env) where
  -- `sendToWebhook`: whether it returned.
  unfoldable pub send_to_webhook : Subscription → Option ℕ → Body → World → Bool × World
  send_to_webhook hook secret body w = insert_outcome hook.id body (
      post_webhook env
        (record {
          delivery_id = none;
          subscription_id = hook.id;
          url = hook.callback_url;
          body = body;
          secret = non_empty_secret secret;
          sent_at = w.now;
        })
        w)

  abbrev pub send_decrypted : Subscription → Body → Option ℕ → World → World
  send_decrypted hook body none w = w
  send_decrypted hook body (some secret) w = (send_to_webhook hook (some secret) body w).1

  abbrev pub send_hook : Subscription → Body → Option ℕ → World → World
  send_hook hook body none w = (send_to_webhook hook none body w).1
  send_hook hook body (some token) w =
      if token == 0
      then (send_to_webhook hook none body w).1
      else send_decrypted hook body (env.decrypt_webhook_secret token hook.id) w

  -- `Promise.all`: an error of one subscription stops no other.
  unfoldable pub send_to_all : List Subscription → Body → World → World
  send_to_all [] body w = w
  send_to_all (hook ∷ hooks) body w = send_to_all hooks body (send_hook hook body hook.secret w)

  abbrev pub dispatch_on : Option Value → Body → Bool × World → World
  dispatch_on event_type body (true, w) = send_to_all (subscribed event_type w.subscriptions) body w
  dispatch_on event_type body (false, w) = w

  abbrev pub dispatch_prepared : Option Value → Option Body → World → World
  dispatch_prepared event_type none w = w
  dispatch_prepared event_type (some body) w = dispatch_on event_type body (ask w)

  -- `dispatch`, which throws nothing.
  unfoldable pub dispatch : Payload → World → World
  dispatch event w =
      dispatch_prepared event.event_type (prepare_webhook_payload env (whole_payload event)) w
