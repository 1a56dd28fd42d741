-- ===== src/Alerts/Signed.antt =====
-- `deliver_firing` of backend/app/core/alerts.py: what the webhook sends.
use frappe_os.Base.{
  All, All-append, Bool, Bool-cases, List, Option, [], arith, false, if_either, inl, inr, length,
  length-append, none, refl, some, suc, true, zero, ℕ, ◌&&◌, ◌++◌, ◌+◌, ◌∙◌, ◌∷◌, ◌≡◌, ◌≢◌, ◌≤◌,
}
use frappe_os.Base.Text.{Str, same_refl}
use frappe_os.Restic.{has_text}
use frappe_os.Regex.{Unicode}
use frappe_os.Alerts.Deliver.{
  email_result, signed_post, email_recipients, nothing_sent, post_signed, deliver_webhook,
  webhook_secret, send_email, sign_payload, attempts, Post, Sent, deliver_firing, verify_signature,
  post_webhook, deliver_email, Channels,
}
use frappe_os.Alerts.{AlertRule, AlertFiring}

module _ {F : Type 0} (ch : Channels F) where
  -- A request for a firing whose signature its receiver accepts, under the rule's secret, which is not
  -- empty.
  abbrev pub Signed : AlertRule F → AlertFiring F → Post → Type 0
  Signed rule firing post =
      (secret : Str) × (webhook_secret ch rule.webhook_secret_enc ≡ some secret)
      × (secret ≢ [])
      × (post.body ≡ ch.encode_payload firing)
      × (verify_signature ch secret post.body post.signature ≡ true)

  verify_signature-sign_payload :
      (secret body : Str) → verify_signature ch secret body (sign_payload ch secret body) ≡ true
  unfolding verify_signature sign_payload
  verify_signature-sign_payload secret body = same_refl (sign_payload ch secret body)

  -- The requests after a step: all as `Q` says, and at most `more` new ones.
  abbrev Posted : (Post → Type 0) → ℕ → Sent → Type 0
  Posted Q n sent = All Q sent.posts × (length sent.posts ≤ n)

  attempts-Posted :
      (Q : Post → Type 0) (post : Post) (attempt left n : ℕ) (sent : Sent)
      → Q post
      → Posted Q n sent
      → Posted Q (n + left) (attempts ch post attempt left sent).1
  unfolding attempts
  attempts-Posted Q post attempt zero n sent q h = (h.0, omega (arith, h.1))
  attempts-Posted Q post attempt (suc left) n sent q h =
      let posts = All-append Q sent.posts (post ∷ []) h.0 (q, tt) in
      let bound : length (sent.posts ++ post ∷ []) ≤ n + 1 =
        omega (arith, length-append sent.posts (post ∷ []), h.1) in
      elim (Bool-cases (ch.answers attempt)) [
        | inl e ↦ rw e (posts, omega arith)
        | inr e ↦ rw e (
            let (all_posts, count) =
              attempts-Posted Q post (attempt + 1) left (n + 1) _ q (posts, bound) in
            (all_posts, omega arith))
      ]

  send_email-posts :
      (addresses : List Str) (sent : Sent) → (send_email ch addresses sent).1.posts ≡ sent.posts
  send_email-posts [] sent = refl
  send_email-posts (address ∷ addresses) sent =
      if_either {A = Bool × Sent} (λ r. r.1.posts ≡ sent.posts) (ch.accepts_mail address)
        (send_email-posts addresses (record sent { mails = sent.mails ++ address ∷ [] })) refl

  email_result-posts : (n : ℕ) (r : Bool × Sent) → (email_result ch n r).1.posts ≡ r.1.posts
  email_result-posts n (true, sent) = refl
  email_result-posts n (false, sent) = refl

  deliver_email-posts :
      (u : Unicode) (rule : AlertRule F) (sent : Sent)
      → (deliver_email ch u rule sent).1.posts ≡ sent.posts
  unfolding deliver_email
  deliver_email-posts u rule sent = elim (Bool-cases rule.channel_email) [
    | inl e ↦ rw e (
        email_result-posts _ (send_email ch (email_recipients ch u rule) sent)
        ∙ send_email-posts (email_recipients ch u rule) sent)
    | inr e ↦ rw e refl
  ]

  post_signed-Posted :
      (max_attempts : ℕ) (rule : AlertRule F) (firing : AlertFiring F) (secret : Option Str)
      (sent : Sent)
      → webhook_secret ch rule.webhook_secret_enc ≡ secret
      → sent.posts ≡ []
      → Posted
          (Signed rule firing)
          max_attempts
          (post_signed ch max_attempts rule firing secret sent).1
  unfolding post_webhook
  post_signed-Posted max_attempts rule firing none sent e empty =
      (rw empty tt, rw empty (omega arith))
  post_signed-Posted max_attempts rule firing (some []) sent e empty =
      (rw empty tt, rw empty (omega arith))
  post_signed-Posted max_attempts rule firing (some (c ∷ secret)) sent e empty =
      let (all_signed, count) =
        attempts-Posted (Signed rule firing) (signed_post ch rule firing (c ∷ secret)) 0
          max_attempts 0 sent
          (
            c ∷ secret,
            e,
            (λ blank. ground arith),
            refl,
            verify_signature-sign_payload (c ∷ secret) (ch.encode_payload firing),
          )
          (rw empty tt, rw empty (omega arith)) in
      (all_signed, omega (arith, count))

  -- Each request that a delivery makes carries the firing and a signature that `verify_signature`
  -- accepts under the rule's secret; the secret is not empty, and there are at most as many requests
  -- as attempts.
  pub deliver_firing-Signed :
      (u : Unicode) (now max_attempts : ℕ) (rule : AlertRule F) (firing : AlertFiring F)
      → All (Signed rule firing) (deliver_firing ch u now max_attempts (some rule) firing).1.posts
        × (length (deliver_firing ch u now max_attempts (some rule) firing).1.posts ≤ max_attempts)
  unfolding deliver_firing deliver_webhook
  deliver_firing-Signed u now max_attempts rule firing =
      let mailed = deliver_email-posts u rule nothing_sent in
      let sent = (deliver_email ch u rule nothing_sent).1 in
      elim (Bool-cases (rule.channel_webhook && has_text rule.webhook_url)) [
        | inl e ↦ rw e (
            post_signed-Posted max_attempts rule firing (webhook_secret ch rule.webhook_secret_enc)
              sent refl mailed)
        | inr e ↦ rw e (rw mailed (tt, omega arith))
      ]
