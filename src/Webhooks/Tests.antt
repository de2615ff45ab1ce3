-- ===== src/Webhooks/Tests.antt =====
-- A subscription whose endpoint fails once and then answers, and a database that resolves the `id` of the
-- SELECT.
use dukapay.Base.{◌≡◌, refl, true, false, none, some, List, [], ◌∷◌, length, All, arith}
use dukapay.Webhooks.{
  text, whole_payload, Payload, Subscription, Delivery, World, Env, responds, get_retry_delay_ms,
  ask, execute_update, non_empty_secret,
}
use dukapay.Webhooks.Prepare.{prepare_webhook_payload}
use dukapay.Webhooks.Post.{is_private_ip, post_webhook, is_ok, assert_callback_url_safe}
use dukapay.Webhooks.Retry.{
  process_retries, ask_selected, selected, due, is_due, order_by_time, insert_by_time, joined,
  find_subscription, retry_rows, retry_row, retry_webhook_delivery, update_delivery, mark_delivered,
  mark_error, next_retry_time, next_retry_time_after, on_error,
}
use dukapay.Webhooks.Interleaved.{
  Service, ServiceEvent, starts, advances, dispatches, happen, happen_all, advance_at,
}
use dukapay.Webhooks.Sound.{is_delivered, IsSound, happen_all-IsSound}
use dukapay.Webhooks.Guard.{IsSafe, happen_all-IsSafe}
use dukapay.Webhooks.Due.{is_for_due, process_retries-IsForDue}

abbrev node : Env
node = record {
  hostname = λ url. some url;
  bare = λ host. host;
  is_ip = λ host. true;
  is_blocked = λ ip. false;
  resolve4 = λ host t. none;
  resolve6 = λ host t. none;
  byte_length = λ body. 100;
  decrypt_webhook_secret = λ token id. some token;
  max_payload_bytes = 65536;
  resolves_id = true;
}

abbrev event : Payload
event = record {
  event_id = some (text 5);
  event_type = some (text 6);
  loan_id = none;
  address = none;
  ledger = none;
  topics_count = none;
  rest = 1;
}

abbrev hook : Subscription
hook = record {
  id = 1;
  callback_url = 7;
  event_types = text 6 ∷ [];
  secret = some 9;
  is_active = true;
}

abbrev failed : Delivery
failed = record {
  id = 1;
  subscription_id = 1;
  payload = whole_payload event;
  attempt_count = 1;
  last_status_code = some 500;
  last_error = none;
  delivered_at = none;
  next_retry_at = some 300000;
}

abbrev delivered : Delivery
delivered = record failed { id = 2; delivered_at = some 10; next_retry_at = none }

abbrev world : World
world = record {
  subscriptions = hook ∷ [];
  deliveries = failed ∷ delivered ∷ [];
  next_id = 3;
  failing = [];
  exchanges = responds 503 20 ∷ responds 200 20 ∷ [];
  now = 300000;
  sent = [];
}

abbrev service : Service
service = record { world = world; runs = [] }

abbrev overlapping : List ServiceEvent
overlapping = starts ∷ starts ∷ advances 0 ∷ advances 1 ∷ dispatches event ∷ []

happen_all-IsSound_example : All IsSound (happen_all node overlapping service).world.deliveries
happen_all-IsSound_example =
    happen_all-IsSound node overlapping service
      (((omega arith, omega arith), omega arith), (((omega arith, omega arith), tt), tt))

happen_all-IsSafe_example : All (IsSafe node) (happen_all node overlapping service).world.sent
happen_all-IsSafe_example = happen_all-IsSafe node overlapping service tt

process_retries-IsForDue_example :
    All
      (λ s. is_for_due 300000 (failed ∷ delivered ∷ []) s.delivery_id ≡ true)
      (process_retries node (record world { sent = [] })).sent
process_retries-IsForDue_example = process_retries-IsForDue node world

-- Two runs that overlap send one delivery twice, although the first request delivers it.
sent_twice :
    length
      (happen_all node (starts ∷ starts ∷ advances 0 ∷ advances 1 ∷ []) (record service {
        world = record world { exchanges = responds 200 20 ∷ responds 200 20 ∷ [] };
      })).world.sent
    ≡ 2
unfolding happen_all happen selected due is_due order_by_time insert_by_time joined
    find_subscription ask_selected ask advance_at retry_row retry_webhook_delivery
    prepare_webhook_payload post_webhook assert_callback_url_safe is_private_ip is_ok execute_update
    update_delivery mark_delivered non_empty_secret
sent_twice = refl

-- A retry that is answered but whose UPDATE fails is scheduled to be sent again.
sent_again :
    is_delivered 1
      (process_retries node
        (record world { failing = false ∷ true ∷ []; exchanges = responds 200 20 ∷ [] })).deliveries
    ≡ false
unfolding is_delivered process_retries selected due is_due order_by_time insert_by_time joined
    find_subscription ask_selected ask retry_rows retry_row retry_webhook_delivery
    prepare_webhook_payload post_webhook assert_callback_url_safe is_private_ip is_ok execute_update
    update_delivery mark_delivered non_empty_secret on_error mark_error next_retry_time_after
    next_retry_time get_retry_delay_ms
sent_again = refl
