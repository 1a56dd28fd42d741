-- ===== src/Logs/Examples.antt =====
-- A job whose log line holds a secret.
use frappe_os.Base.{
  ◌≡◌, refl, true, false, List, [], ◌∷◌, ◌++◌, All, ◌<◌, arith, length, if◌then◌else◌,
}
use frappe_os.Base.Text.{Str, codes, occurs}
use frappe_os.Logs.{LogWriter, new_writer, redact, append, flush}
use frappe_os.Logs.Redaction.{IsSecret, redact-clean}
use frappe_os.Logs.Batching.{Line, append_all, entries, append_all-flush, append-bounded}

abbrev secrets : List Str
secrets = codes "s3cret" ∷ codes "cret" ∷ []

secrets-IsSecret : All IsSecret secrets
secrets-IsSecret =
    (record { filled = refl; no_bullet = refl }, (record { filled = refl; no_bullet = refl }, tt))

redacted : redact secrets (codes "pw=s3cret s3s3cret cret") ≡ codes "pw=•••• s3•••• ••••"
unfolding redact
redacted = refl

redact-clean_example :
    All (λ t. occurs t (redact secrets (codes "pw=s3cret s3s3cret cret")) ≡ false) secrets
redact-clean_example = redact-clean secrets (codes "pw=s3cret s3s3cret cret") secrets-IsSecret

abbrev writer : LogWriter
writer = new_writer 7 true secrets 1000 3 2 []

abbrev lines : List Line
lines =
    (record { checked = 1001; flushed = 1002; stream = "stdout"; content = codes "one" })
    ∷ (record { checked = 1600; flushed = 1601; stream = "stdout"; content = codes "cret" })
    ∷ (record { checked = 1602; flushed = 1603; stream = "system"; content = codes "three" })
    ∷ []

append_all-flush_example :
    ((flush 2000 (append_all lines writer)).rows
      ≡ (writer.rows ++ writer.buffer) ++ entries writer.job_id writer.secrets writer.seq lines)
    × ((flush 2000 (append_all lines writer)).published ≡ (
        if writer.has_backend
        then writer.published ++ entries writer.job_id writer.secrets writer.seq lines
        else writer.published))
append_all-flush_example = append_all-flush lines 2000 writer

append-bounded_example :
    length (append 1001 1002 "stdout" (codes "one") writer).buffer < writer.batch_size
unfolding new_writer
append-bounded_example = append-bounded 1001 1002 "stdout" (codes "one") writer (omega arith)
