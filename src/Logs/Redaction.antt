-- ===== src/Logs/Redaction.antt =====
-- Redaction of the registered secrets: `_redact` of `LogWriter` in backend/app/core/jobs.py.
use frappe_os.Base.{
  ℕ, zero, suc, ◌-◌, ◌≡◌, true, false, List, [], ◌∷◌, ◌++◌, arith, Bool-cases, inl, inr, All,
  length,
}
use frappe_os.Base.Text.{Str, has, starts_with, occurs}
use frappe_os.Templates.{mask}
use frappe_os.Logs.{replace_from, replace, redact, is_empty}

-- The character of the mask.
abbrev pub bullet : ℕ
bullet = 8226

-- A secret that redaction serves: some text without a bullet.
pub record IsSecret (s : Str) : Type 0 where
  pub filled : is_empty s ≡ false
  pub no_bullet : has bullet s ≡ false

-- A text without bullets that begins what replacement left begins what was there before.
starts_with-replace_from :
    (p old s : Str)
    → has bullet p ≡ false
    → starts_with p (replace_from old mask 0 s) ≡ true
    → starts_with p s ≡ true
unfolding replace_from
starts_with-replace_from [] old s b h = ground arith
starts_with-replace_from (o ∷ p) old [] b h = ground arith
starts_with-replace_from (o ∷ p) old (c ∷ s) b h = elim (Bool-cases (starts_with old (c ∷ s))) [
  | inl m ↦ absurd (ground arith)
  | inr m ↦ ground (arith, starts_with-replace_from p old s)
]

occurs-mask : (t s : Str) → IsSecret t → occurs t s ≡ false → occurs t (mask ++ s) ≡ false
occurs-mask [] s i h = ground arith
occurs-mask (o ∷ t) s i h = ground arith

starts_with-cons :
    (o c : ℕ) (t old s : Str)
    → has bullet (o ∷ t) ≡ false
    → starts_with (o ∷ t) (c ∷ s) ≡ false
    → starts_with (o ∷ t) (c ∷ replace_from old mask 0 s) ≡ false
starts_with-cons o c t old s b h = ground (arith, starts_with-replace_from t old s)

-- What did not occur does not occur after a replacement.
occurs-replace_from :
    (t old : Str) (k : ℕ) (s : Str)
    → IsSecret t
    → occurs t s ≡ false
    → occurs t (replace_from old mask k s) ≡ false
unfolding replace_from
occurs-replace_from t old k [] i h = h
occurs-replace_from t old (suc k) (c ∷ s) i h = occurs-replace_from t old k s i (ground arith)
occurs-replace_from [] old zero (c ∷ s) i h = ground arith
occurs-replace_from (o ∷ t) old zero (c ∷ s) i h = elim (Bool-cases (starts_with old (c ∷ s))) [
  | inl m ↦ rw m (
      occurs-mask (o ∷ t) (replace_from old mask (length old - 1) s) i
        (occurs-replace_from (o ∷ t) old (length old - 1) s i (ground arith)))
  | inr m ↦ rw m (
      ground
        (arith, starts_with-cons o c t old s i.no_bullet, occurs-replace_from (o ∷ t) old 0 s i))
]

-- The replaced text is gone.
occurs-replace_self :
    (old : Str) (k : ℕ) (s : Str) → IsSecret old → occurs old (replace_from old mask k s) ≡ false
unfolding replace_from
occurs-replace_self [] k s i = absurd (ground arith)
occurs-replace_self (o ∷ t) k [] i = ground arith
occurs-replace_self (o ∷ t) (suc k) (c ∷ s) i = occurs-replace_self (o ∷ t) k s i
occurs-replace_self (o ∷ t) zero (c ∷ s) i = elim (Bool-cases (starts_with (o ∷ t) (c ∷ s))) [
  | inl m ↦ rw m (
      occurs-mask (o ∷ t) (replace_from (o ∷ t) mask (length (o ∷ t) - 1) s) i
        (occurs-replace_self (o ∷ t) (length (o ∷ t) - 1) s i))
  | inr m ↦ rw m (
      ground
        (arith, starts_with-cons o c t (o ∷ t) s i.no_bullet, occurs-replace_self (o ∷ t) 0 s i))
]

occurs-redact :
    (t : Str) (secrets : List Str) (content : Str)
    → IsSecret t
    → occurs t content ≡ false
    → occurs t (redact secrets content) ≡ false
unfolding redact replace
occurs-redact t [] content i h = h
occurs-redact t (s ∷ ss) content i h =
    occurs-redact t ss (replace s mask content) i (occurs-replace_from t s 0 content i h)

-- Whatever the line and the order of the secrets, no secret occurs in the redacted line, provided
-- that each is a non-empty text without the bullet of the mask.
pub redact-clean :
    (secrets : List Str) (content : Str)
    → All IsSecret secrets
    → All (λ t. occurs t (redact secrets content) ≡ false) secrets
unfolding redact replace
redact-clean [] content a = tt
redact-clean (s ∷ ss) content a = (
  occurs-redact s ss (replace s mask content) a.0 (occurs-replace_self s 0 content a.0),
  redact-clean ss (replace s mask content) a.1,
)
