-- ===== src/Webhooks/Signature/Tests.antt =====
-- Signatures with digests of one byte.
use dukapay.Base.{ℕ, ◌≡◌, refl, true, some, [], ◌∷◌, ◌++◌}
use dukapay.Base.Text.{Text}
use dukapay.Webhooks.Signature.{
  Crypto, verdict, threw, prefix, compute_webhook_signature, verify_webhook_signature,
  clean_signature,
}
use dukapay.Webhooks.Signature.Laws.{
  verify_webhook_signature-expected, verify_webhook_signature-compute_webhook_signature,
}

abbrev first_of : Text → ℕ
first_of [] = 0
first_of (c ∷ cs) = c

abbrev crypto : Crypto
crypto = record { hmac_hex = λ secret t. first_of secret ∷ []; to_hex = λ t. t; from_hex = λ t. t }

abbrev secret : Text
secret = 65 ∷ 66 ∷ []

abbrev stamp : Text
stamp = b'1' ∷ []

abbrev nonce : Text
nonce = b'a' ∷ []

verify_webhook_signature-expected_example :
    verify_webhook_signature crypto (some (66 ∷ 66 ∷ [])) (secret ∷ []) (some stamp) (some nonce) []
    ≡ threw
unfolding clean_signature
verify_webhook_signature-expected_example =
    verify_webhook_signature-expected crypto 1 (66 ∷ 66 ∷ []) stamp nonce [] (secret ∷ [])
      (λ s t. refl) refl refl refl

verify_webhook_signature-compute_webhook_signature_example :
    verify_webhook_signature crypto
      (some (prefix ++ compute_webhook_signature crypto secret stamp nonce []))
      ((66 ∷ []) ∷ secret ∷ [])
      (some stamp)
      (some nonce)
      []
    ≡ verdict true
verify_webhook_signature-compute_webhook_signature_example =
    verify_webhook_signature-compute_webhook_signature crypto 1 secret stamp nonce []
      ((66 ∷ []) ∷ []) [] (λ s t. refl) refl refl refl
