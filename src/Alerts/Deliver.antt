-- ===== src/Alerts/Deliver.antt =====
-- `deliver_firing` and its channels in backend/app/core/alerts.py. HMAC-SHA256, the JSON encoding of a
-- firing, SMTP and the HTTP client are parameters.
use frappe_os.Restic.{is_blank, text_or_empty, has_text}
use frappe_os.Regex.{Unicode}
use frappe_os.Base.{
  Bool, List, Option, [], false, if◌then◌else◌, keep_if, length, ltb, map, none, not, some, suc,
  true, zero, ℕ, ◌&&◌, ◌++◌, ◌+◌, ◌^◌, ◌∷◌,
}
use frappe_os.Base.Text.{Str, codes, same, split_on, strip}
use frappe_os.Alerts.{AlertRule, ChannelOutcome, AlertFiring}

-- What the channels answer, and the code of libraries that builds a signed body.
pub record Channels (F : Type 0) : Type 0 where
  pub hex_digest : Str → Str → Str
  pub encode_payload : AlertFiring F → Str
  -- secrets.decrypt; `none` where it raises
  pub decrypt : Str → Option Str
  -- the addresses of the active users
  pub active_emails : List Str
  -- `_send_email` to an address does not raise
  pub accepts_mail : Str → Bool
  -- the POST of this attempt is answered with success
  pub answers : ℕ → Bool

pub record Post : Type 0 where
  pub url : Str
  pub body : Str
  pub signature : Str

-- What a delivery did outside: the addresses that mail was sent to, the requests, and the pauses in
-- half seconds.
pub record Sent : Type 0 where
  pub mails : List Str
  pub posts : List Post
  pub sleeps : List ℕ

abbrev pub nothing_sent : Sent
nothing_sent = record { mails = []; posts = []; sleeps = [] }

module _ {F : Type 0} (ch : Channels F) where
  -- sign_payload
  unfoldable pub sign_payload : Str → Str → Str
  sign_payload secret body = codes "sha256=" ++ ch.hex_digest secret body

  -- verify_signature
  unfoldable pub verify_signature : Str → Str → Str → Bool
  unfolding sign_payload
  verify_signature secret body [] = false
  verify_signature secret body (c ∷ header) = same (sign_payload secret body) (c ∷ header)

  -- The loop of `post_webhook`: `left` attempts remain after `attempt` of them.
  unfoldable pub attempts : Post → ℕ → ℕ → Sent → Bool × Sent
  attempts post attempt zero sent = (false, sent)
  attempts post attempt (suc left) sent =
      let sent' = record sent { posts = sent.posts ++ post ∷ [] } in
      let paused = record sent' {
        sleeps = if ltb 0 left then sent'.sleeps ++ (2 ^ attempt) ∷ [] else sent'.sleeps;
      } in
      let rest = attempts post (attempt + 1) left paused in
      if ch.answers attempt then (true, sent') else rest

  -- post_webhook: whether it returns.
  unfoldable pub post_webhook : Post → ℕ → Sent → Bool × Sent
  unfolding attempts
  post_webhook post max_attempts sent = attempts post 0 max_attempts sent

  -- send_email: whether it returns.
  abbrev pub send_email : List Str → Sent → Bool × Sent
  send_email [] sent = (true, sent)
  send_email (address ∷ addresses) sent =
      let rest = send_email addresses (record sent { mails = sent.mails ++ address ∷ [] }) in
      if ch.accepts_mail address then rest else (false, sent)

  -- _email_recipients
  abbrev pub email_recipients : Unicode → AlertRule F → List Str
  email_recipients u rule =
      if has_text rule.email_to
      then keep_if (λ a. not (is_blank a))
          (map (strip u.is_space) (split_on 44 (text_or_empty rule.email_to)))
      else keep_if (λ a. not (is_blank a)) ch.active_emails

  abbrev pub email_result : ℕ → Bool × Sent → List ChannelOutcome × Sent
  email_result n (true, sent) =
      (record { channel = "email"; delivered = true; recipients = some n } ∷ [], sent)
  email_result n (false, sent) =
      (record { channel = "email"; delivered = false; recipients = none } ∷ [], sent)

  -- The email channel of `deliver_firing`.
  unfoldable pub deliver_email : Unicode → AlertRule F → Sent → List ChannelOutcome × Sent
  deliver_email u rule sent =
      if rule.channel_email
      then (let addresses = email_recipients u rule in
          email_result (length addresses) (send_email addresses sent))
      else ([], sent)

  abbrev webhook_result : Bool × Sent → List ChannelOutcome × Sent
  webhook_result (delivered, sent) =
      (record { channel = "webhook"; delivered = delivered; recipients = none } ∷ [], sent)

  -- The secret is decrypted, and none is the empty text; `none` where decryption raises.
  abbrev pub webhook_secret : Option Str → Option Str
  webhook_secret none = some []
  webhook_secret (some []) = some []
  webhook_secret (some (c ∷ token)) = ch.decrypt (c ∷ token)

  abbrev pub signed_post : AlertRule F → AlertFiring F → Str → Post
  signed_post rule firing secret = record {
    url = text_or_empty rule.webhook_url;
    body = ch.encode_payload firing;
    signature = sign_payload secret (ch.encode_payload firing);
  }

  abbrev pub post_signed :
      ℕ → AlertRule F → AlertFiring F → Option Str → Sent → List ChannelOutcome × Sent
  post_signed max_attempts rule firing none sent = webhook_result (false, sent)
  post_signed max_attempts rule firing (some []) sent = webhook_result (false, sent)
  post_signed max_attempts rule firing (some (c ∷ secret)) sent =
      webhook_result (post_webhook (signed_post rule firing (c ∷ secret)) max_attempts sent)

  -- The webhook channel of `deliver_firing`: without a secret nothing is sent.
  unfoldable pub deliver_webhook :
      ℕ → AlertRule F → AlertFiring F → Sent → List ChannelOutcome × Sent
  unfolding post_webhook sign_payload
  deliver_webhook max_attempts rule firing sent =
      if rule.channel_webhook && has_text rule.webhook_url
      then post_signed max_attempts rule firing (webhook_secret rule.webhook_secret_enc) sent
      else ([], sent)

  abbrev channels_of :
      Unicode → ℕ → Option (AlertRule F) → AlertFiring F → List ChannelOutcome × Sent
  channels_of u max_attempts none firing = ([], nothing_sent)
  channels_of u max_attempts (some rule) firing =
      let (mailed, sent) = deliver_email u rule nothing_sent in
      let (posted, sent') = deliver_webhook max_attempts rule firing sent in
      (mailed ++ posted, sent')

  abbrev stamped : ℕ → AlertFiring F → List ChannelOutcome × Sent → AlertFiring F × Sent
  stamped now firing (outcomes, sent) =
      (record firing { channels = outcomes; delivered_at = some now }, sent)

  -- deliver_firing: `rule` is the row that the firing names, if it is still there.
  unfoldable pub deliver_firing :
      Unicode → ℕ → ℕ → Option (AlertRule F) → AlertFiring F → AlertFiring F × Sent
  unfolding deliver_email deliver_webhook
  deliver_firing u now max_attempts rule firing =
      stamped now firing (channels_of u max_attempts rule firing)
