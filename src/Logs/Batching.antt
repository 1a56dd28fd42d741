-- ===== src/Logs/Batching.antt =====
-- Batching is invisible: whenever the clock makes the writer flush, the rows and the published
-- payloads are the redacted lines in order, numbered without a gap.
use frappe_os.Base.{
  ℕ, ◌+◌, ◌<◌, ◌≡◌, refl, sym, ap, ◌∙◌, true, false, String, List, [], ◌∷◌, ◌++◌, arith,
  if◌then◌else◌, Bool-cases, inl, inr, length,
}
use mathlib.Core.List.{append_assoc, append-nil}
use frappe_os.Base.Text.{Str}
use frappe_os.Logs.{LogEntry, LogWriter, redact, next_entry, push, flush, append, is_due, is_empty}

-- One streamed line, with the clock readings of its `append`.
pub record Line : Type 0 where
  pub checked : ℕ
  pub flushed : ℕ
  pub stream : String
  pub content : Str

unfoldable pub append_all : List Line → LogWriter → LogWriter
append_all [] w = w
append_all (l ∷ ls) w = append_all ls (append l.checked l.flushed l.stream l.content w)

-- The lines as they have to be stored, numbered from `seq + 1` on.
unfoldable pub entries : ℕ → List Str → ℕ → List Line → List LogEntry
entries job_id secrets seq [] = []
entries job_id secrets seq (l ∷ ls) =
    (record {
      job_id = job_id;
      seq = seq + 1;
      stream = l.stream;
      content = redact secrets l.content;
    })
    ∷ entries job_id secrets (seq + 1) ls

-- What is stored or about to be.
abbrev pub stored : LogWriter → List LogEntry
stored w = w.rows ++ w.buffer

stored-flush : (c : ℕ) (w : LogWriter) → stored (flush c w) ≡ stored w
unfolding flush
stored-flush c w = elim (Bool-cases (is_empty w.buffer)) [ inl e ↦ rw e | inr e ↦ rw e append-nil' ]
  where
    append-nil' : (w.rows ++ w.buffer) ++ [] ≡ w.rows ++ w.buffer
    append-nil' = append-nil (w.rows ++ w.buffer)

record Same (w v : LogWriter) : Type 0 where
  job_id : w.job_id ≡ v.job_id
  secrets : w.secrets ≡ v.secrets
  has_backend : w.has_backend ≡ v.has_backend
  seq : w.seq ≡ v.seq
  published : w.published ≡ v.published

flush-Same : (c : ℕ) (w : LogWriter) → Same (flush c w) w
unfolding flush
flush-Same c w = ground arith

-- One line: it is stored and published last, under the next number.
record Appended (entry : LogEntry) (w v : LogWriter) : Type 0 where
  job_id : v.job_id ≡ w.job_id
  secrets : v.secrets ≡ w.secrets
  has_backend : v.has_backend ≡ w.has_backend
  seq : v.seq ≡ w.seq + 1
  kept : stored v ≡ stored w ++ entry ∷ []
  told : v.published ≡ (if w.has_backend then w.published ++ entry ∷ [] else w.published)

push-Appended : (entry : LogEntry) (w : LogWriter) → Appended entry w (push entry w)
unfolding push
push-Appended entry w = record {
  job_id = refl;
  secrets = refl;
  has_backend = refl;
  seq = refl;
  kept = sym (append_assoc w.rows w.buffer (entry ∷ []));
  told = refl;
}

append-Appended :
    (checked flushed : ℕ) (stream : String) (content : Str) (w : LogWriter)
    → Appended
        (next_entry stream (redact w.secrets content) w)
        w
        (append checked flushed stream content w)
unfolding append
append-Appended checked flushed stream content w =
    let entry = next_entry stream (redact w.secrets content) w in
    let w' = push entry w in
    let a = push-Appended entry w in
    elim (Bool-cases (is_due checked w')) [
      | inl e ↦ rw e (
          let f = flush-Same flushed w' in
          record {
            job_id = f.job_id ∙ a.job_id;
            secrets = f.secrets ∙ a.secrets;
            has_backend = f.has_backend ∙ a.has_backend;
            seq = f.seq ∙ a.seq;
            kept = stored-flush flushed w' ∙ a.kept;
            told = f.published ∙ a.told;
          })
      | inr e ↦ rw e a
    ]

module _ (entry : LogEntry) (w v : LogWriter) (a : Appended entry w v) (ls : List Line) where
  same_entries : entries v.job_id v.secrets v.seq ls ≡ entries w.job_id w.secrets (w.seq + 1) ls
  same_entries = cc (a.job_id, a.secrets, a.seq)

  extend_stored :
      stored v ++ entries v.job_id v.secrets v.seq ls
      ≡ stored w ++ entry ∷ entries w.job_id w.secrets (w.seq + 1) ls
  extend_stored =
      ap (λ e. stored v ++ e) same_entries
      ∙ ap (λ s. s ++ entries w.job_id w.secrets (w.seq + 1) ls) a.kept
      ∙ append_assoc (stored w) (entry ∷ []) (entries w.job_id w.secrets (w.seq + 1) ls)

  extend_published :
      w.has_backend ≡ true
      → v.published ++ entries v.job_id v.secrets v.seq ls
        ≡ w.published ++ entry ∷ entries w.job_id w.secrets (w.seq + 1) ls
  extend_published h =
      let told : v.published ≡ w.published ++ entry ∷ [] = rw h at a.told in
      ap (λ e. v.published ++ e) same_entries
      ∙ ap (λ s. s ++ entries w.job_id w.secrets (w.seq + 1) ls) told
      ∙ append_assoc w.published (entry ∷ []) (entries w.job_id w.secrets (w.seq + 1) ls)

abbrev after : Line → LogWriter → LogWriter
after l w = append l.checked l.flushed l.stream l.content w

after-Appended :
    (l : Line) (w : LogWriter)
    → Appended (next_entry l.stream (redact w.secrets l.content) w) w (after l w)
after-Appended l w = append-Appended l.checked l.flushed l.stream l.content w

append_all-stored :
    (ls : List Line) (w : LogWriter)
    → stored (append_all ls w) ≡ stored w ++ entries w.job_id w.secrets w.seq ls
unfolding append_all entries
append_all-stored [] w = sym (append-nil (stored w))
append_all-stored (l ∷ ls) w =
    append_all-stored ls (after l w)
    ∙ extend_stored (next_entry l.stream (redact w.secrets l.content) w) w (after l w)
        (after-Appended l w) ls

append_all-published :
    (ls : List Line) (w : LogWriter)
    → w.has_backend ≡ true
    → (append_all ls w).published ≡ w.published ++ entries w.job_id w.secrets w.seq ls
unfolding append_all entries
append_all-published [] w h = sym (append-nil w.published)
append_all-published (l ∷ ls) w h =
    append_all-published ls (after l w) ((after-Appended l w).has_backend ∙ h)
    ∙ extend_published (next_entry l.stream (redact w.secrets l.content) w) w (after l w)
        (after-Appended l w) ls h

append_all-silent :
    (ls : List Line) (w : LogWriter)
    → w.has_backend ≡ false
    → (append_all ls w).published ≡ w.published
unfolding append_all
append_all-silent [] w h = refl
append_all-silent (l ∷ ls) w h =
    let a = after-Appended l w in
    let told : (after l w).published ≡ w.published = a.told ∙ ground arith in
    append_all-silent ls (after l w) (a.has_backend ∙ h) ∙ told

append_all-told :
    (ls : List Line) (w : LogWriter)
    → (append_all ls w).published
      ≡ (if w.has_backend then w.published ++ entries w.job_id w.secrets w.seq ls else w.published)
append_all-told ls w = elim (Bool-cases w.has_backend) [
  | inl h ↦ append_all-published ls w h ∙ ground arith
  | inr h ↦ append_all-silent ls w h ∙ ground arith
]

buffer-flush : (c : ℕ) (w : LogWriter) → (flush c w).buffer ≡ []
unfolding flush
buffer-flush c w = ground arith

rows-flush : (c : ℕ) (w : LogWriter) → (flush c w).rows ≡ stored w
rows-flush c w =
    sym (append-nil (flush c w).rows)
    ∙ ap (λ b. (flush c w).rows ++ b) (sym (buffer-flush c w))
    ∙ stored-flush c w

-- After any lines, at any clock readings, and a final flush, the stored rows are the earlier rows
-- and buffer followed by the redacted lines in order, numbered on from `seq` without a gap, and
-- exactly these lines were published in this order if there is a backend, and none without one.
pub append_all-flush :
    (ls : List Line) (c : ℕ) (w : LogWriter)
    → ((flush c (append_all ls w)).rows
        ≡ (w.rows ++ w.buffer) ++ entries w.job_id w.secrets w.seq ls)
      × ((flush c (append_all ls w)).published ≡ (
          if w.has_backend
          then w.published ++ entries w.job_id w.secrets w.seq ls
          else w.published))
append_all-flush ls c w = (
  rows-flush c (append_all ls w) ∙ append_all-stored ls w,
  (flush-Same c (append_all ls w)).published ∙ append_all-told ls w,
)

-- Between two calls fewer than `batch_size` lines wait in the buffer.
pub append-bounded :
    (checked flushed : ℕ) (stream : String) (content : Str) (w : LogWriter)
    → 0 < w.batch_size
    → length (append checked flushed stream content w).buffer < w.batch_size
unfolding append push flush
append-bounded checked flushed stream content w h = ground arith
