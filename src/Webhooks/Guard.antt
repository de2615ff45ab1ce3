-- ===== src/Webhooks/Guard.antt =====
-- Where the webhook service sends its requests.
use dukapay.Base.{
  ℕ, ◌≡◌, refl, Bool, true, false, Option, none, some, List, [], ◌∷◌, any, All, arith,
  if◌then◌else◌,
}
use dukapay.Webhooks.{Env, Sent, disallowed_callback_url}
use dukapay.Webhooks.Post.{is_private_ip, resolved, assert_callback_url_safe, check_host}
use dukapay.Webhooks.Steps.{
  Log, IsChecked, Step, sends, delivers, refuses, errs, inserts_delivered, inserts_scheduled,
  Steps-invariant,
}
use dukapay.Webhooks.Interleaved.{Service, ServiceEvent, happen_all}
use dukapay.Webhooks.Sound.{happen_all-StepsTo}

module _ (env : Env) where
  -- The addresses behind a host: itself where it is one, else what DNS answers at the time.
  abbrev pub addresses : ℕ → ℕ → List ℕ
  addresses host t = if env.is_ip (env.bare host) then env.bare host ∷ [] else resolved env host t

  -- The URL has a host, none of whose addresses was private when the request was sent.
  abbrev pub IsSafe : Sent → Type 0
  IsSafe s =
      (host : ℕ) × ((env.hostname s.url ≡ some host)
        × All (λ ip. is_private_ip env ip ≡ false) (addresses host s.sent_at))

  any-none :
      (ips : List ℕ)
      → any (is_private_ip env) ips ≡ false
      → All (λ ip. is_private_ip env ip ≡ false) ips
  any-none [] e = tt
  any-none (ip ∷ ips) e = (ground arith, any-none ips (ground arith))

  check_host-none :
      (host t : ℕ)
      → check_host env (some host) t ≡ none
      → All (λ ip. is_private_ip env ip ≡ false) (addresses host t)
  check_host-none host t e = go (env.is_ip (env.bare host)) e
    where
      go :
          (b : Bool)
          → (if b
              then if is_private_ip env (env.bare host) then some disallowed_callback_url else none
              else if any (is_private_ip env) (resolved env host t)
              then some disallowed_callback_url
              else none)
            ≡ none
          → All
              (λ ip. is_private_ip env ip ≡ false)
              (if b then env.bare host ∷ [] else resolved env host t)
      go true h = (ground arith, tt)
      go false h = any-none (resolved env host t) (ground arith)

  IsSafe-checked : (s : Sent) → IsChecked env s → IsSafe s
  unfolding assert_callback_url_safe
  IsSafe-checked s e = go (env.hostname s.url) refl e
    where
      go : (o : Option ℕ) → env.hostname s.url ≡ o → check_host env o s.sent_at ≡ none → IsSafe s
      go none h k = absurd (ground arith)
      go (some host) h k = (host, (h, check_host-none host s.sent_at k))

  Step-IsSafe : (a b : Log) → Step IsSafe a b → All IsSafe a.1 → All IsSafe b.1
  Step-IsSafe _ _ (sends s q) a = (q, a)
  Step-IsSafe _ _ (delivers id attempts status now l h) a = a
  Step-IsSafe _ _ (refuses id attempts status now l h) a = a
  Step-IsSafe _ _ (errs id attempts error now l h) a = a
  Step-IsSafe _ _ (inserts_delivered id sub body status now) a = a
  Step-IsSafe _ _ (inserts_scheduled id sub body status error now) a = a

  -- If this is so of the requests sent before: every request of a webhook, a first one or a retry, is for a
  -- URL with a host that is an IP address outside the blocked ranges, or a name for which all addresses
  -- that DNS answered when it was sent, none where the lookup failed, were outside them, however the runs of
  -- `processRetries` overlap with each other and with dispatches and whichever queries fail.
  pub happen_all-IsSafe :
      (es : List ServiceEvent) (s : Service)
      → All IsSafe s.world.sent
      → All IsSafe (happen_all env es s).world.sent
  happen_all-IsSafe es s =
      Steps-invariant (λ log. All IsSafe log.1) Step-IsSafe
        (happen_all-StepsTo env IsSafe IsSafe-checked es s)
