-- ===== src/Webhooks/Signature/Laws.antt =====
-- What a webhook's signature covers, and when it is accepted.
use dukapay.Base.{
  ℕ, ◌≡◌, refl, Bool, true, false, not, ◌&&◌, some, List, [], ◌∷◌, ◌++◌, ◌==◌, length, any, arith,
}
use dukapay.Base.Text.{Text, same_text}
use dukapay.Webhooks.Signature.{
  Crypto, Verdict, verdict, threw, prefix, clean_signature, is_empty_text, signed_payload,
  compute_webhook_signature, check_secrets, verify_webhook_signature,
}

same_text_refl : (t : Text) → same_text t t ≡ true
unfolding same_text
same_text_refl [] = refl
same_text_refl (c ∷ cs) = ground (arith, same_text_refl cs)

-- The outcome, by the number of bytes that the signature decodes to.
abbrev pub expected_verdict : Bool → Bool → Bool → Verdict
expected_verdict true matching usable = verdict matching
expected_verdict false matching true = threw
expected_verdict false matching false = verdict false

module _ (crypto : Crypto) where
  -- A secret that is not empty and under which the digest decodes to the given bytes.
  abbrev pub matches : List ℕ → Text → Text → Text → Text → Bool
  matches given timestamp nonce body secret =
      not (is_empty_text secret)
      && same_text given
          (crypto.from_hex (compute_webhook_signature crypto secret timestamp nonce body))

module _ (crypto : Crypto) (size : ℕ) where
  check_secrets-expected :
      (signature timestamp nonce body : Text) (secrets : List Text)
      → ((secret text : Text) → length (crypto.from_hex (crypto.hmac_hex secret text)) ≡ size)
      → check_secrets crypto signature timestamp nonce body secrets
        ≡ expected_verdict
            (length (crypto.from_hex signature) == size)
            (any (matches crypto (crypto.from_hex signature) timestamp nonce body) secrets)
            (any (λ s. not (is_empty_text s)) secrets)
  unfolding check_secrets compute_webhook_signature
  check_secrets-expected signature t n body [] h = ground arith
  check_secrets-expected signature t n body (secret ∷ secrets) h = ground (
    arith,
    check_secrets-expected signature t n body secrets h,
    h secret (signed_payload crypto t n body),
  )

  -- `verifyWebhookSignature` on a signature, a timestamp and a nonce that are all there and not empty, where
  -- every HMAC digest has one size in bytes: a signature that decodes to this size is accepted exactly if
  -- some candidate secret that is not empty gives its bytes; at any other size the call throws if some
  -- candidate is not empty, and otherwise returns false.
  pub verify_webhook_signature-expected :
      (signature timestamp nonce body : Text) (secrets : List Text)
      → ((secret text : Text) → length (crypto.from_hex (crypto.hmac_hex secret text)) ≡ size)
      → is_empty_text signature ≡ false
      → is_empty_text timestamp ≡ false
      → is_empty_text nonce ≡ false
      → verify_webhook_signature crypto (some signature) secrets (some timestamp) (some nonce) body
        ≡ expected_verdict
            (length (crypto.from_hex (clean_signature signature)) == size)
            (any
              (matches crypto (crypto.from_hex (clean_signature signature)) timestamp nonce body)
              secrets)
            (any (λ s. not (is_empty_text s)) secrets)
  unfolding verify_webhook_signature
  verify_webhook_signature-expected signature t n body secrets h a b c =
      rw a (rw b (rw c (check_secrets-expected (clean_signature signature) t n body secrets h)))

any_has :
    (p : Text → Bool) (before after : List Text) (s : Text)
    → p s ≡ true
    → any p (before ++ (s ∷ after)) ≡ true
any_has p [] after s e = ground arith
any_has p (t ∷ before) after s e = ground (arith, any_has p before after s e)

module _ (crypto : Crypto) where
  clean_signature-prefixed : (t : Text) → clean_signature (prefix ++ t) ≡ t
  unfolding clean_signature
  clean_signature-prefixed t = refl

  -- A signature made by `computeWebhookSignature` and sent after `sha256=` is accepted by
  -- `verifyWebhookSignature` wherever its secret stands among the candidates, where every HMAC digest has
  -- one size in bytes and the secret, the timestamp and the nonce are not empty.
  pub verify_webhook_signature-compute_webhook_signature :
      (size : ℕ) (secret timestamp nonce body : Text) (before after : List Text)
      → ((s text : Text) → length (crypto.from_hex (crypto.hmac_hex s text)) ≡ size)
      → is_empty_text secret ≡ false
      → is_empty_text timestamp ≡ false
      → is_empty_text nonce ≡ false
      → verify_webhook_signature crypto
          (some (prefix ++ compute_webhook_signature crypto secret timestamp nonce body))
          (before ++ (secret ∷ after))
          (some timestamp)
          (some nonce)
          body
        ≡ verdict true
  unfolding compute_webhook_signature
  verify_webhook_signature-compute_webhook_signature size secret t n body before after h a b c =
      let signature = compute_webhook_signature crypto secret t n body in
      rw
        (verify_webhook_signature-expected crypto size (prefix ++ signature) t n body
          (before ++ (secret ∷ after)) h refl b c)
        (rw (clean_signature-prefixed signature) (
          rw
            (any_has (matches crypto (crypto.from_hex signature) t n body) before after secret
              (rw a (same_text_refl (crypto.from_hex signature))))
            (sized (length (crypto.from_hex signature)) (h secret _))))
    where
      sized :
          (n : ℕ)
          → n ≡ size
          → expected_verdict
              (n == size)
              true
              (any (λ s. not (is_empty_text s)) (before ++ (secret ∷ after)))
            ≡ verdict true
      sized n e = ground arith
