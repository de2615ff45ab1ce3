-- ===== src/Webhooks/Dispatched.antt =====
-- `dispatch` of backend/src/services/webhookService.ts only makes steps of the deliveries, whatever queries
-- fail and however the requests end.
use dukapay.Base.{
  ℕ, ◌+◌, refl, Bool, true, false, Option, none, some, List, [], ◌∷◌, ◌++◌, ◌==◌, inl, inr,
  Bool-cases, if◌then◌else◌,
}
use dukapay.Webhooks.{
  Body, Delivery, World, Env, ErrorKind, query_failed, returned_status, message, ask, is_answered,
  get_retry_delay_ms, Sent, Payload, Subscription, whole_payload,
}
use dukapay.Webhooks.Prepare.{prepare_webhook_payload}
use dukapay.Webhooks.Post.{PostOutcome, responded, thrown, is_ok}
use dukapay.Webhooks.Dispatch.{
  insert_delivery, insert_on, first_delivery, insert_error, insert_caught, insert_outcome,
  send_to_webhook, send_decrypted, send_hook, send_to_all, dispatch_on, dispatch_prepared, dispatch,
  subscribed,
}
use dukapay.Webhooks.Steps.{
  Step, inserts_delivered, inserts_scheduled, stay, more, Steps-append, StepsTo, IsChecked,
  ask-StepsTo, post_webhook-StepsTo,
}

module _ (Q : Sent → Type 0) where
  insert_delivery-StepsTo :
      (d : Delivery) (w : World)
      → ((id : ℕ) (ds : List Delivery) (ss : List Sent)
          → Step Q (ds, ss) (ds ++ (record d { id = id } ∷ []), ss))
      → StepsTo Q w (insert_delivery d w).1
  unfolding insert_delivery ask
  insert_delivery-StepsTo d w h = go w.failing
    where
      go : (bs : List Bool) → StepsTo Q w (insert_on d (is_answered bs w)).1
      go [] = more (h w.next_id w.deliveries w.sent) stay
      go (true ∷ bs) = stay
      go (false ∷ bs) = more (h w.next_id w.deliveries w.sent) stay

  module _ (subscription_id : ℕ) (body : Body) where
    insert_error-StepsTo :
        (error : ErrorKind) (w : World) → StepsTo Q w (insert_error subscription_id body error w).1
    unfolding insert_error
    insert_error-StepsTo error w =
        insert_delivery-StepsTo _ w
          (λ id ds ss. inserts_scheduled id subscription_id body none (message error) w.now)

    insert_caught-StepsTo :
        (v : World) (r : Bool × World)
        → StepsTo Q v r.1
        → StepsTo Q v (insert_caught subscription_id body r).1
    insert_caught-StepsTo v (true, w) s = s
    insert_caught-StepsTo v (false, w) s = Steps-append s (insert_error-StepsTo query_failed w)

    insert_outcome-StepsTo :
        (v : World) (r : PostOutcome × World)
        → StepsTo Q v r.1
        → StepsTo Q v (insert_outcome subscription_id body r).1
    insert_outcome-StepsTo v (responded status, w) s =
        Steps-append s
          (insert_caught-StepsTo w _ (insert_delivery-StepsTo _ w (written (is_ok status))))
      where
        written :
            (b : Bool) (id : ℕ) (ds : List Delivery) (ss : List Sent)
            → Step Q
                (ds, ss)
                (
                  ds
                      ++ (record (if b
                            then first_delivery subscription_id body
                                (some status)
                                none
                                (some w.now)
                                none
                            else first_delivery subscription_id body
                                (some status)
                                (some (returned_status status))
                                none
                                (some (w.now + get_retry_delay_ms 1))) { id = id }
                          ∷ []),
                  ss,
                )
        written true id ds ss = inserts_delivered id subscription_id body status w.now
        written false id ds ss =
            inserts_scheduled id subscription_id body (some status) (returned_status status) w.now
    insert_outcome-StepsTo v (thrown error, w) s = Steps-append s (insert_error-StepsTo error w)

  module _ (env : Env) (q : (s : Sent) → IsChecked env s → Q s) where
    send_to_webhook-StepsTo :
        (hook : Subscription) (secret : Option ℕ) (body : Body) (w : World)
        → StepsTo Q w (send_to_webhook env hook secret body w).1
    unfolding send_to_webhook
    send_to_webhook-StepsTo hook secret body w =
        insert_outcome-StepsTo hook.id body w _ (post_webhook-StepsTo Q env _ w refl (q _))

    send_hook-StepsTo :
        (hook : Subscription) (body : Body) (secret : Option ℕ) (w : World)
        → StepsTo Q w (send_hook env hook body secret w)
    send_hook-StepsTo hook body none w = send_to_webhook-StepsTo hook none body w
    send_hook-StepsTo hook body (some token) w = elim (Bool-cases (token == 0)) [
      | inl e ↦ rw e (send_to_webhook-StepsTo hook none body w)
      | inr e ↦ rw e (decrypted (env.decrypt_webhook_secret token hook.id))
    ]
      where
        decrypted : (s : Option ℕ) → StepsTo Q w (send_decrypted env hook body s w)
        decrypted none = stay
        decrypted (some s) = send_to_webhook-StepsTo hook (some s) body w

    send_to_all-StepsTo :
        (hooks : List Subscription) (body : Body) (w : World)
        → StepsTo Q w (send_to_all env hooks body w)
    unfolding send_to_all
    send_to_all-StepsTo [] body w = stay
    send_to_all-StepsTo (hook ∷ hooks) body w =
        Steps-append (send_hook-StepsTo hook body hook.secret w) (send_to_all-StepsTo hooks body _)

    pub dispatch-StepsTo : (event : Payload) (w : World) → StepsTo Q w (dispatch env event w)
    unfolding dispatch
    dispatch-StepsTo event w = prepared (prepare_webhook_payload env (whole_payload event))
      where
        asked :
            (body : Body) (r : Bool × World)
            → StepsTo Q w r.1
            → StepsTo Q w (dispatch_on env event.event_type body r)
        asked body (true, v) s =
            Steps-append s
              (send_to_all-StepsTo (subscribed event.event_type v.subscriptions) body v)
        asked body (false, v) s = s

        prepared : (b : Option Body) → StepsTo Q w (dispatch_prepared env event.event_type b w)
        prepared none = stay
        prepared (some body) = asked body (ask w) (ask-StepsTo Q w)
