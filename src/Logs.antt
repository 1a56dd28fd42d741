-- ===== src/Logs.antt =====
-- `LogWriter` of backend/app/core/jobs.py: redaction, batched persistence and publication of the
-- lines of a job. The clock is read in milliseconds; `checked` and `flushed` are the two readings of
-- one call. The committed rows and the published payloads stand in the state.
pub mod Redaction
pub mod Batching
mod Examples
use frappe_os.Base.{
  ℕ, zero, suc, ◌+◌, ◌-◌, Bool, true, false, ◌||◌, List, [], ◌∷◌, ◌++◌, leb, if◌then◌else◌, any,
  length, String,
}
use frappe_os.Base.Text.{Str, same, starts_with}
use frappe_os.Templates.{mask}

-- `s.replace(old, new)` for a non-empty `old`; the number counts the matched characters to skip.
replace_from : Str → Str → ℕ → Str → Str
replace_from old new k [] = []
replace_from old new (suc k) (c ∷ s) = replace_from old new k s
replace_from old new zero (c ∷ s) =
    let found = new ++ replace_from old new (length old - 1) s in
    let missed = c ∷ replace_from old new 0 s in if starts_with old (c ∷ s) then found else missed

unfoldable pub replace : Str → Str → Str → Str
unfolding replace_from
replace old new s = replace_from old new 0 s

-- LogWriter._redact
unfoldable pub redact : List Str → Str → Str
unfolding replace
redact [] content = content
redact (secret ∷ secrets) content = redact secrets (replace secret mask content)

pub record LogEntry : Type 0 where
  pub job_id : ℕ
  pub seq : ℕ
  pub stream : String
  pub content : Str

pub record LogWriter : Type 0 where
  pub job_id : ℕ
  pub has_backend : Bool
  pub secrets : List Str
  pub batch_size : ℕ
  pub flush_interval : ℕ
  pub buffer : List LogEntry
  pub last_flush : ℕ
  pub seq : ℕ
  -- the rows that are committed, and what was published, oldest first
  pub rows : List LogEntry
  pub published : List LogEntry

abbrev pub is_empty {ℓ} : {A : Type ℓ} → List A → Bool
is_empty [] = true
is_empty (x ∷ xs) = false

-- LogWriter.__init__: empty secrets are dropped, and numbering goes on from the largest stored `seq`.
unfoldable pub new_writer : ℕ → Bool → List Str → ℕ → ℕ → ℕ → List LogEntry → LogWriter
new_writer job_id has_backend secrets clock existing batch_size rows = record {
  job_id = job_id;
  has_backend = has_backend;
  secrets = nonempty secrets;
  batch_size = batch_size;
  flush_interval = 500;
  buffer = [];
  last_flush = clock;
  seq = existing;
  rows = rows;
  published = [];
}
  where
    nonempty : List Str → List Str
    nonempty [] = []
    nonempty (s ∷ ss) = let rest = nonempty ss in if is_empty s then rest else s ∷ rest

-- LogWriter.add_secret
unfoldable pub add_secret : Str → LogWriter → LogWriter
add_secret value w =
    if is_empty value || any (λ s. same value s) w.secrets
    then w
    else record w { secrets = w.secrets ++ value ∷ [] }

-- LogWriter.flush
unfoldable pub flush : ℕ → LogWriter → LogWriter
flush clock w =
    if is_empty w.buffer
    then w
    else record w { rows = w.rows ++ w.buffer; buffer = []; last_flush = clock }

abbrev pub next_entry : String → Str → LogWriter → LogEntry
next_entry stream content w = record {
  job_id = w.job_id;
  seq = w.seq + 1;
  stream = stream;
  content = content;
}

-- The part of `append` before the test: number the line, buffer it, publish it.
unfoldable pub push : LogEntry → LogWriter → LogWriter
push entry w = record w {
  seq = w.seq + 1;
  buffer = w.buffer ++ entry ∷ [];
  published = if w.has_backend then w.published ++ entry ∷ [] else w.published;
}

abbrev pub is_due : ℕ → LogWriter → Bool
is_due checked w =
    leb w.batch_size (length w.buffer) || leb w.flush_interval (checked - w.last_flush)

-- LogWriter.append
unfoldable pub append : ℕ → ℕ → String → Str → LogWriter → LogWriter
unfolding push flush redact
append checked flushed stream content w =
    let w' = push (next_entry stream (redact w.secrets content) w) w in
    if is_due checked w' then flush flushed w' else w'
