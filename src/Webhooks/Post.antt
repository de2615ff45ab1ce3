-- ===== src/Webhooks/Post.antt =====
-- The request of a webhook: `assertCallbackUrlSafe` and `postWebhook` of
-- backend/src/services/webhookService.ts.
use dukapay.Base.{
  ℕ, ◌+◌, Bool, ◌&&◌, Option, none, some, List, [], ◌∷◌, ◌++◌, leb, any, if◌then◌else◌,
}
use dukapay.Webhooks.{
  Env, World, Sent, Exchange, responds, fails, ErrorKind, disallowed_callback_url,
  invalid_callback_url, request_failed,
}

-- How `postWebhook` ends: with the status of a response, or by throwing.
pub data PostOutcome : Type 0 where
  responded : ℕ → PostOutcome
  thrown : ErrorKind → PostOutcome

-- `response.ok`.
unfoldable pub is_ok : ℕ → Bool
is_ok status = leb 200 status && leb status 299

-- `.catch(() => [])`.
abbrev pub or_none : Option (List ℕ) → List ℕ
or_none none = []
or_none (some addresses) = addresses

module _ (env : Env) where
  open env use {hostname, bare, is_ip, is_blocked, resolve4, resolve6}

  -- `isPrivateIp`.
  unfoldable pub is_private_ip : ℕ → Bool
  is_private_ip ip = is_ip (bare ip) && is_blocked (bare ip)

  unfoldable pub resolved : ℕ → ℕ → List ℕ
  resolved host now = or_none (resolve4 host now) ++ or_none (resolve6 host now)

  abbrev pub check_host : Option ℕ → ℕ → Option ErrorKind
  check_host none now = some invalid_callback_url
  check_host (some host) now =
      if is_ip (bare host)
      then if is_private_ip (bare host) then some disallowed_callback_url else none
      else if any is_private_ip (resolved host now)
      then some disallowed_callback_url
      else none

  -- `assertCallbackUrlSafe`: what it throws.
  unfoldable pub assert_callback_url_safe : ℕ → ℕ → Option ErrorKind
  assert_callback_url_safe callback_url now = check_host (hostname callback_url) now

  -- `fetch`, and what it leaves of the coming requests.
  abbrev pub fetch : List Exchange → World → PostOutcome × World
  fetch [] w = (thrown request_failed, w)
  fetch (responds status took ∷ rest) w =
      (responded status, record w { exchanges = rest; now = w.now + took })
  fetch (fails took ∷ rest) w =
      (thrown request_failed, record w { exchanges = rest; now = w.now + took })

  abbrev pub post_checked : Option ErrorKind → Sent → World → PostOutcome × World
  post_checked (some e) s w = (thrown e, w)
  post_checked none s w = fetch w.exchanges (record w { sent = s ∷ w.sent })

  unfoldable pub post_webhook : Sent → World → PostOutcome × World
  post_webhook s w = post_checked (assert_callback_url_safe s.url w.now) s w
