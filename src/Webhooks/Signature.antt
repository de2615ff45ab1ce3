-- ===== src/Webhooks/Signature.antt =====
-- The signatures of webhooks: `computeWebhookSignature`, `verifyWebhookSignature` and
-- `getWebhookCandidateSecrets` of backend/src/services/webhookService.ts. Texts are lists of character codes,
-- and the signed text is bytes.
use dukapay.Base.{
  ℕ, zero, suc, ◌+◌, ◌≡◌, ◌↔◌, refl, Bool, true, false, not, ◌&&◌, ◌||◌, Option, none, some, List,
  [], ◌∷◌, ◌++◌, map, ◌==◌, leb, length, any, if◌then◌else◌,
}
use dukapay.Base.Text.{Text, same_text, trim, split_on}
pub mod Laws
mod Tests

-- What the service uses of `node:crypto` and Buffer: the HMAC-SHA256 digest of a text as hexadecimal, the
-- hexadecimal form of a text's bytes, and the bytes that a hexadecimal text decodes to.
pub record Crypto : Type 0 where
  pub hmac_hex : Text → Text → Text
  pub to_hex : Text → Text
  pub from_hex : Text → List ℕ

abbrev pub separator : ℕ
separator = b'.'

-- What the function returns, or that it throws.
pub data Verdict : Type 0 where
  verdict : Bool → Verdict
  threw : Verdict

-- The letters of `/^sha256=/i`, in lower case.
abbrev pub lower : ℕ → ℕ
lower c = if leb b'A' c && leb c b'Z' then c + 32 else c

abbrev pub prefix : Text
prefix = b's' ∷ b'h' ∷ b'a' ∷ b'2' ∷ b'5' ∷ b'6' ∷ b'=' ∷ []

-- What follows `prefix`, or the whole text where it does not start so.
unfoldable pub strip : Text → Text → Text → Text
strip whole_payload [] rest = rest
strip whole_payload (p ∷ ps) [] = whole_payload
strip whole_payload (p ∷ ps) (c ∷ cs) =
    if lower c == p then strip whole_payload ps cs else whole_payload

-- `signature.replace(/^sha256=/i, '')`.
unfoldable pub clean_signature : Text → Text
unfolding strip
clean_signature signature = strip signature prefix signature

abbrev pub is_empty_text : Text → Bool
is_empty_text [] = true
is_empty_text (c ∷ cs) = false

-- `!value` of a text that may be undefined.
abbrev pub is_missing : Option Text → Bool
is_missing none = true
is_missing (some t) = is_empty_text t

abbrev pub or_empty_text : Option Text → Text
or_empty_text none = []
or_empty_text (some t) = t

module _ (crypto : Crypto) where
  open crypto use {hmac_hex, to_hex, from_hex}

  -- `${timestamp}.${nonce}.${bodyHex}`.
  unfoldable pub signed_payload : Text → Text → Text → Text
  signed_payload timestamp nonce body =
      timestamp ++ (separator ∷ (nonce ++ (separator ∷ to_hex body)))

  -- `computeWebhookSignature`.
  unfoldable pub compute_webhook_signature : Text → Text → Text → Text → Text
  unfolding signed_payload
  compute_webhook_signature secret timestamp nonce body =
      hmac_hex secret (signed_payload timestamp nonce body)

  -- `crypto.timingSafeEqual` throws on buffers of unequal lengths; an equal pair ends the loop.
  unfoldable pub check_secrets : Text → Text → Text → Text → List Text → Verdict
  unfolding compute_webhook_signature
  check_secrets signature timestamp nonce body [] = verdict false
  check_secrets signature timestamp nonce body (secret ∷ secrets) =
      let given = from_hex signature in
      let expected = from_hex (compute_webhook_signature secret timestamp nonce body) in
      let rest = check_secrets signature timestamp nonce body secrets in
      if is_empty_text secret
      then rest
      else if length given == length expected
      then if same_text given expected then verdict true else rest
      else threw

  -- `verifyWebhookSignature`.
  unfoldable pub verify_webhook_signature :
      Option Text → List Text → Option Text → Option Text → Text → Verdict
  unfolding check_secrets clean_signature
  verify_webhook_signature signature candidates timestamp nonce body =
      if is_missing signature || (is_missing timestamp || is_missing nonce)
      then verdict false
      else check_secrets (clean_signature (or_empty_text signature)) (or_empty_text timestamp)
          (or_empty_text nonce) body candidates

-- `.filter((s) => s.length > 0)`.
unfoldable pub non_empty_texts : List Text → List Text
non_empty_texts [] = []
non_empty_texts (t ∷ ts) =
    let rest = non_empty_texts ts in if is_empty_text t then rest else t ∷ rest

abbrev pub or_no_secret : List Text → List Text
or_no_secret [] = [] ∷ []
or_no_secret (s ∷ ss) = s ∷ ss

-- `getWebhookCandidateSecrets`, of WEBHOOK_SECRET and WEBHOOK_ROTATION_SECRETS.
unfoldable pub get_webhook_candidate_secrets : Option Text → Option Text → List Text
unfolding non_empty_texts
get_webhook_candidate_secrets primary rotation =
    let first = trim (or_empty_text primary) in
    let others = non_empty_texts (map trim (split_on b',' (trim (or_empty_text rotation)))) in
    or_no_secret (if is_empty_text first then others else first ∷ others)
