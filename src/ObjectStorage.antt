-- ===== src/ObjectStorage.antt =====
-- src/lib/object-storage.ts in detail: the PDF files of R2 and of the local disk, and the queue of the
-- files that wait for R2.
pub mod Outcome
pub mod Queue
pub mod Read
use devispropre.Base.{
  ℕ, zero, suc, ◌+◌, Bool, true, false, not, ◌&&◌, ◌||◌, Option, none, some, List, [], ◌∷◌, ◌++◌,
  keep, leb, if◌then◌else◌, is_some,
}
use devispropre.Text.{Text, codes, text_eq, is_empty}
use devispropre.Table.{find_first, delete_many}

abbrev pub upload_retry_attempts : ℕ
upload_retry_attempts = 3

abbrev pub sync_max_failures : ℕ
sync_max_failures = 3

pub record PendingR2Upload : Type 0 where
  pub key : Text
  pub fail_count : ℕ
  pub last_error : Option Text
  pub enqueued_at : ℕ

-- The files by their keys, R2's and the disk's, and the two lists that are kept as JSON files.
pub record Storage : Type 0 where
  pub remote : List (Text × Text)
  pub local : List (Text × Text)
  pub pending : List PendingR2Upload
  pub dead : List PendingR2Upload

-- What the environment does: whether R2 is configured and can be read, and of the upload of a key at
-- an attempt the error, or none.
pub record R2 : Type 0 where
  pub configured : Bool
  pub readable : Bool
  pub send : Text → ℕ → Option Text
  pub deletes : Text → Bool

unfoldable pub file : Text → List (Text × Text) → Option Text
file key files = elim (find_first (λ f. text_eq f.0 key) files) [ none ↦ none | some f ↦ some f.1 ]

abbrev pub put_file : Text → Text → List (Text × Text) → List (Text × Text)
put_file key buffer files = (key, buffer) ∷ delete_many (λ f. text_eq f.0 key) files

abbrev pub remove : Text → List (Text × Text) → List (Text × Text)
remove key files = delete_many (λ f. text_eq f.0 key) files

-- `existing.lastError = …; existing.enqueuedAt = …` on the first item of the key, or a new item
unfoldable pub enqueue : Text → Option Text → ℕ → List PendingR2Upload → List PendingR2Upload
enqueue key last_error now [] =
    record { key = key; fail_count = 0; last_error = last_error; enqueued_at = now } ∷ []
enqueue key last_error now (item ∷ queue) =
    let rest = enqueue key last_error now queue in
    if text_eq item.key key
    then record item { last_error = last_error; enqueued_at = now } ∷ queue
    else item ∷ rest

unfoldable pub enqueue_pending_r2_upload : Text → Option Text → ℕ → Storage → Storage
enqueue_pending_r2_upload key last_error now s = record s {
  pending = enqueue key last_error now s.pending;
}

unfoldable pub remove_pending_r2_upload : Text → Storage → Storage
remove_pending_r2_upload key s = record s {
  pending = keep (λ item. not (text_eq item.key key)) s.pending;
}

-- The error of the last attempt, where all fail; `left` is how many more there are.
unfoldable pub upload_from : (ℕ → Option Text) → ℕ → ℕ → Option Text → Option Text
upload_from send attempt zero last_error = last_error
upload_from send attempt (suc left) last_error =
    let rest = upload_from send (suc attempt) left (send attempt) in
    elim (send attempt) [ none ↦ none | some _ ↦ rest ]

-- the error of `uploadToR2WithRetry`, or none
abbrev pub upload_to_r2_with_retry : R2 → Text → Option Text
upload_to_r2_with_retry r2 key =
    upload_from (r2.send key) 1 upload_retry_attempts (some (codes "undefined"))

abbrev pub after_upload : Text → Text → ℕ → Storage → Option Text → Storage
after_upload key buffer now s none =
    remove_pending_r2_upload key (record s { remote = put_file key buffer s.remote })
after_upload key buffer now s (some message) =
    enqueue_pending_r2_upload key (some message) now
      (record s { local = put_file key buffer s.local })

-- `archivePdf`; an empty file is refused.
unfoldable pub store_pdf : R2 → Text → Text → ℕ → Storage → Option Storage
store_pdf r2 key buffer now s =
    if is_empty buffer
    then none
    else if r2.configured
    then some (after_upload key buffer now s (upload_to_r2_with_retry r2 key))
    else some (record s { local = put_file key buffer s.local })

unfoldable pub read_from_r2 : R2 → Text → Storage → Option Text
read_from_r2 r2 key s = if r2.configured && r2.readable then file key s.remote else none

-- `if (fromR2) return fromR2`
abbrev pub first_of : Option Text → Option Text → Option Text
first_of none other = other
first_of (some b) other = some b

unfoldable pub read_archived_pdf : R2 → Text → Storage → Option Text
read_archived_pdf r2 key s = first_of (read_from_r2 r2 key s) (file key s.local)

-- `deleteArchivedPdf`
unfoldable pub drop_pdf : R2 → Text → Storage → Storage
drop_pdf r2 key s = remove_pending_r2_upload key (record s {
  remote = if r2.configured && r2.deletes key then remove key s.remote else s.remote;
  local = remove key s.local;
})

pub record Report : Type 0 where
  pub synced : ℕ
  pub failed : ℕ
  pub dead_letter : ℕ

-- the loop's variables, with the files that it changes
pub record Progress : Type 0 where
  pub report : Report
  pub remaining : List PendingR2Upload
  pub storage : Storage

abbrev pub append_dead_letter : PendingR2Upload → ℕ → Storage → Storage
append_dead_letter item now s = record s { dead = s.dead ++ record item { enqueued_at = now } ∷ [] }

abbrev pub bury : PendingR2Upload → ℕ → Progress → Progress
bury item now g = record g {
  report = record g.report { dead_letter = g.report.dead_letter + 1 };
  storage = append_dead_letter item now g.storage;
}

abbrev pub fail_again : PendingR2Upload → Text → PendingR2Upload
fail_again item message = record item {
  fail_count = item.fail_count + 1;
  last_error = some message;
}

abbrev pub after_sync : PendingR2Upload → Text → ℕ → Progress → Option Text → Progress
after_sync item buffer now g none = record g {
  report = record g.report { synced = g.report.synced + 1 };
  storage = record g.storage { remote = put_file item.key buffer g.storage.remote };
}
after_sync item buffer now g (some message) =
    if leb sync_max_failures (item.fail_count + 1)
    then bury (fail_again item message) now g
    else record g {
      report = record g.report { failed = g.report.failed + 1 };
      remaining = g.remaining ++ fail_again item message ∷ [];
    }

-- one turn of the loop, for the local file of an item
abbrev pub sync_item : R2 → ℕ → PendingR2Upload → Progress → Option Text → Progress
sync_item r2 now item g none =
    bury (record item { last_error = some (codes "Fichier local introuvable") }) now g
sync_item r2 now item g (some buffer) =
    after_sync item buffer now g (upload_to_r2_with_retry r2 item.key)

-- `if (!buffer)`: an empty file is a buffer
unfoldable pub sync_queue : R2 → ℕ → List PendingR2Upload → Progress → Progress
sync_queue r2 now [] g = g
sync_queue r2 now (item ∷ queue) g =
    sync_queue r2 now queue (sync_item r2 now item g (file item.key g.storage.local))

-- `syncPendingR2Uploads`; `others` is what other requests do once the queue has been read.
unfoldable pub sync_pending_r2_uploads : R2 → ℕ → (Storage → Storage) → Storage → Report × Storage
sync_pending_r2_uploads r2 now others s =
    let start : Report = record { synced = 0; failed = 0; dead_letter = 0 } in
    let g =
      sync_queue r2 now s.pending (record { report = start; remaining = []; storage = others s }) in
    if r2.configured then (g.report, record g.storage { pending = g.remaining }) else (start, s)
