-- ===== src/ObjectStorage/Queue.antt =====
-- The queue of the files that wait for R2: no item of it is lost or kept too long by a run alone, and
-- what a run loses of the requests beside it.
use devispropre.Base.{
  suc, ◌≡◌, refl, sym, subst, if_true, ap, ◌∙◌, ℕ, ◌+◌, ◌<◌, true, false, Option, none, some, List,
  [], ◌∷◌, ◌++◌, arith, Bool-cases, inl, inr, All, All-append, length, length-append, leb,
}
use devispropre.Text.{Text, codes}
use devispropre.ObjectStorage.Outcome.{
  all_retried, all_buried, IsSent, sync_queue-outcomes, sync_queue-IsSent,
}
use devispropre.ObjectStorage.{
  R2, Storage, PendingR2Upload, Progress, Report, sync_max_failures, file, sync_item, after_sync,
  bury, fail_again, sync_queue, sync_pending_r2_uploads, upload_to_r2_with_retry,
  enqueue_pending_r2_upload,
}

-- an item that has not failed too often
abbrev pub IsRetryable : PendingR2Upload → Type 0
IsRetryable item = item.fail_count < 3

-- What the loop keeps, after `n` items: each item is counted once, the items that failed are those
-- that remain, and those that were given up were added to the dead letters.
abbrev pub IsCounted : ℕ → ℕ → Progress → Type 0
IsCounted n buried g =
    (g.report.synced + g.report.failed + g.report.dead_letter ≡ n)
    × (length g.remaining ≡ g.report.failed)
    × (length g.storage.dead ≡ buried + g.report.dead_letter)
    × All IsRetryable g.remaining

bury-IsCounted :
    (item : PendingR2Upload) (now n buried : ℕ) (g : Progress)
    → IsCounted n buried g
    → IsCounted (n + 1) buried (bury item now g)
bury-IsCounted item now n buried g (c, l, d, k) = (
  omega (arith, c),
  l,
  omega (arith, d, length-append g.storage.dead (record item { enqueued_at = now } ∷ [])),
  k,
)

after_sync-IsCounted :
    (item : PendingR2Upload) (content : Text) (now n buried : ℕ) (g : Progress) (e : Option Text)
    → IsCounted n buried g
    → IsCounted (n + 1) buried (after_sync item content now g e)
after_sync-IsCounted item content now n buried g none (c, l, d, k) = (omega (arith, c), l, d, k)
after_sync-IsCounted item content now n buried g (some message) (c, l, d, k) =
    elim (Bool-cases (leb sync_max_failures (item.fail_count + 1))) [
      | inl often ↦ rw often (bury-IsCounted (fail_again item message) now n buried g (c, l, d, k))
      | inr seldom ↦ rw seldom (
        omega (arith, c),
        omega (arith, l, length-append g.remaining (fail_again item message ∷ [])),
        d,
        All-append IsRetryable g.remaining (fail_again item message ∷ []) k
            (few item.fail_count seldom, tt),
      )
    ]
  where
    few : (n : ℕ) → leb sync_max_failures (n + 1) ≡ false → n + 1 < 3
    few n h = ground arith

sync_item-IsCounted :
    (r2 : R2) (now : ℕ) (item : PendingR2Upload) (n buried : ℕ) (g : Progress)
    (content : Option Text)
    → IsCounted n buried g
    → IsCounted (n + 1) buried (sync_item r2 now item g content)
sync_item-IsCounted r2 now item n buried g none h =
    bury-IsCounted (record item { last_error = some (codes "Fichier local introuvable") }) now n
      buried g h
sync_item-IsCounted r2 now item n buried g (some content) h =
    after_sync-IsCounted item content now n buried g (upload_to_r2_with_retry r2 item.key) h

sync_queue-IsCounted :
    (r2 : R2) (now : ℕ) (queue : List PendingR2Upload) (n buried : ℕ) (g : Progress)
    → IsCounted n buried g
    → IsCounted (n + length queue) buried (sync_queue r2 now queue g)
unfolding sync_queue
sync_queue-IsCounted r2 now [] n buried g h = rw (plus_zero n) h
  where
    plus_zero : (n : ℕ) → n + 0 ≡ n
    plus_zero n = omega arith
sync_queue-IsCounted r2 now (item ∷ queue) n buried g h =
    subst (λ k. IsCounted k buried (sync_queue r2 now (item ∷ queue) g)) (shift n (length queue))
      (sync_queue-IsCounted r2 now queue (n + 1) buried _
        (sync_item-IsCounted r2 now item n buried g (file item.key g.storage.local) h))
  where
    shift : (n m : ℕ) → n + 1 + m ≡ n + suc m
    shift n m = omega arith

abbrev IsAnswered : R2 → ℕ → Storage → Report × Storage → Type 0
IsAnswered r2 now s (report, t) =
    (report.synced + report.failed + report.dead_letter ≡ length s.pending)
    × (length t.pending ≡ report.failed)
    × (length t.dead ≡ length s.dead + report.dead_letter)
    × All IsRetryable t.pending
    × (t.pending ≡ all_retried r2 now s.local s.pending)
    × (t.dead ≡ s.dead ++ all_buried r2 now s.local s.pending)
    × (t.local ≡ s.local)
    × All (IsSent r2 now s.local t.remote) s.pending

-- A run of the queue with no request beside it answers for every item. Each is counted once as
-- synced, failed or given up. The queue is left with those that failed for the first or second time,
-- in their order, each with its key and its date, one more failure and the error of its last attempt.
-- The dead letters are added those that failed for the third time and those with no file on the disk,
-- with their keys, their errors and the time of the run. Of the others, R2 holds the file of the disk,
-- which is left as it is.
pub sync_pending_r2_uploads-counts :
    (r2 : R2) (now : ℕ) (s : Storage)
    → r2.configured ≡ true
    → let (report, t) = sync_pending_r2_uploads r2 now (λ t. t) s in
      (report.synced + report.failed + report.dead_letter ≡ length s.pending)
      × (length t.pending ≡ report.failed)
      × (length t.dead ≡ length s.dead + report.dead_letter)
      × All IsRetryable t.pending
      × (t.pending ≡ all_retried r2 now s.local s.pending)
      × (t.dead ≡ s.dead ++ all_buried r2 now s.local s.pending)
      × (t.local ≡ s.local)
      × All (IsSent r2 now s.local t.remote) s.pending
unfolding sync_pending_r2_uploads
sync_pending_r2_uploads-counts r2 now s on =
    let start : Report = record { synced = 0; failed = 0; dead_letter = 0 } in
    let first : Progress = record { report = start; remaining = []; storage = s } in
    let g = sync_queue r2 now s.pending first in
    let (c, l, d, k) =
      sync_queue-IsCounted r2 now s.pending 0 (length s.dead) first (refl, refl, omega arith, tt) in
    let (left, dead, disk) = sync_queue-outcomes r2 now s.local s.pending first refl in
    let answer : Report × Storage = (g.report, record g.storage { pending = g.remaining }) in
    subst (IsAnswered r2 now s) (sym (if_true r2.configured answer (start, s) on)) (
      omega (arith, c),
      l,
      d,
      k,
      left,
      dead,
      disk,
      sync_queue-IsSent r2 s.local now s.pending first refl,
    )

-- two states of the loop with the same items left and the same files on the disk
abbrev IsAlike : Progress → Progress → Type 0
IsAlike g h = (g.remaining ≡ h.remaining) × (g.storage.local ≡ h.storage.local)

sync_item-IsAlike :
    (r2 : R2) (now : ℕ) (item : PendingR2Upload) (content : Option Text) (g h : Progress)
    → IsAlike g h
    → IsAlike (sync_item r2 now item g content) (sync_item r2 now item h content)
sync_item-IsAlike r2 now item none g h e = e
sync_item-IsAlike r2 now item (some content) g h e = result (upload_to_r2_with_retry r2 item.key)
  where
    result :
        (r : Option Text)
        → IsAlike (after_sync item content now g r) (after_sync item content now h r)
    result none = e
    result (some message) = elim (Bool-cases (leb sync_max_failures (item.fail_count + 1))) [
      | inl often ↦ rw often e
      | inr seldom ↦ rw seldom (ap (λ xs. xs ++ fail_again item message ∷ []) e.0, e.1)
    ]

sync_queue-remaining :
    (r2 : R2) (now : ℕ) (queue : List PendingR2Upload) (g h : Progress)
    → IsAlike g h
    → (sync_queue r2 now queue g).remaining ≡ (sync_queue r2 now queue h).remaining
unfolding sync_queue
sync_queue-remaining r2 now [] g h e = e.0
sync_queue-remaining r2 now (item ∷ queue) g h e =
    let here = sync_item-IsAlike r2 now item (file item.key g.storage.local) g h e in
    sync_queue-remaining r2 now queue _ _ (
      subst
        (λ disk.
          IsAlike (sync_item r2 now item g (file item.key g.storage.local))
            (sync_item r2 now item h (file item.key disk)))
        e.1 here)

-- A run of the queue loses what another request puts into it after the run has read it: the queue that
-- the run leaves is the one that it leaves with no request beside it.
pub sync_pending_r2_uploads-lost :
    (r2 : R2) (now now' : ℕ) (key : Text) (last_error : Option Text) (s : Storage)
    → r2.configured ≡ true
    → (sync_pending_r2_uploads r2 now (enqueue_pending_r2_upload key last_error now') s).1.pending
      ≡ (sync_pending_r2_uploads r2 now (λ t. t) s).1.pending
unfolding sync_pending_r2_uploads enqueue_pending_r2_upload
sync_pending_r2_uploads-lost r2 now now' key last_error s on =
    let run : Storage → Progress = λ t. sync_queue r2 now s.pending (record {
      report = record { synced = 0; failed = 0; dead_letter = 0 };
      remaining = [];
      storage = t;
    }) in
    let answer : Storage → Report × Storage =
      λ t. ((run t).report, record (run t).storage { pending = (run t).remaining }) in
    let later = enqueue_pending_r2_upload key last_error now' s in
    ap (λ r. r.1.pending) (if_true r2.configured (answer later) _ on)
    ∙ sync_queue-remaining r2 now s.pending _ _ (refl, refl)
    ∙ sym (ap (λ r. r.1.pending) (if_true r2.configured (answer s) _ on))
