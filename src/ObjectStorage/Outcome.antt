-- ===== src/ObjectStorage/Outcome.antt =====
-- What becomes of the items of the queue in one run of it, item by item, and the files of R2.
use devispropre.Base.{
  ◌≡◌, refl, sym, subst, ap, ◌∙◌, ℕ, ◌+◌, Bool, true, false, Option, none, some, List, [], ◌∷◌,
  ◌++◌, All, arith, Bool-cases, inl, inr, leb, ltb, if◌then◌else◌, not,
}
use devispropre.Text.{Text, codes, text_eq, text_eq_refl, text_eq_sound}
use devispropre.Table.{find_first, delete_many}
use devispropre.ObjectStorage.{
  R2, PendingR2Upload, Progress, file, put_file, sync_item, after_sync, sync_queue,
  sync_max_failures, upload_to_r2_with_retry,
}

-- what a run does with an item
pub data Outcome : Type 0 where
  sent : Outcome
  retried buried : PendingR2Upload → Outcome

-- The outcome for an item with this local file and this result of the upload.
abbrev pub outcome_of : PendingR2Upload → ℕ → Option Text → Option Text → Outcome
outcome_of item now none result = buried (record {
  key = item.key;
  fail_count = item.fail_count;
  last_error = some (codes "Fichier local introuvable");
  enqueued_at = now;
})
outcome_of item now (some buffer) none = sent
outcome_of item now (some buffer) (some message) =
    if ltb (item.fail_count + 1) 3
    then retried (record {
      key = item.key;
      fail_count = item.fail_count + 1;
      last_error = some message;
      enqueued_at = item.enqueued_at;
    })
    else buried (record {
      key = item.key;
      fail_count = item.fail_count + 1;
      last_error = some message;
      enqueued_at = now;
    })

abbrev pub outcome : R2 → ℕ → List (Text × Text) → PendingR2Upload → Outcome
outcome r2 now disk item =
    outcome_of item now (file item.key disk) (upload_to_r2_with_retry r2 item.key)

abbrev pub retry_of : Outcome → List PendingR2Upload
retry_of sent = []
retry_of (retried item) = item ∷ []
retry_of (buried item) = []

abbrev pub burial_of : Outcome → List PendingR2Upload
burial_of sent = []
burial_of (retried item) = []
burial_of (buried item) = item ∷ []

-- the items that go back into the queue, and those that become dead letters, in their order
unfoldable pub all_retried :
    R2 → ℕ → List (Text × Text) → List PendingR2Upload → List PendingR2Upload
all_retried r2 now disk [] = []
all_retried r2 now disk (item ∷ queue) =
    retry_of (outcome r2 now disk item) ++ all_retried r2 now disk queue

unfoldable pub all_buried :
    R2 → ℕ → List (Text × Text) → List PendingR2Upload → List PendingR2Upload
all_buried r2 now disk [] = []
all_buried r2 now disk (item ∷ queue) =
    burial_of (outcome r2 now disk item) ++ all_buried r2 now disk queue

-- Where the item was sent, R2 has the file of the disk.
abbrev InR2 : Outcome → Text → List (Text × Text) → List (Text × Text) → Type 0
InR2 sent key disk remote = file key remote ≡ file key disk
InR2 (retried item) key disk remote = Unit
InR2 (buried item) key disk remote = Unit

abbrev pub IsSent : R2 → ℕ → List (Text × Text) → List (Text × Text) → PendingR2Upload → Type 0
IsSent r2 now disk remote item = InR2 (outcome r2 now disk item) item.key disk remote

-- One turn of the loop, from `g` to `h`, with the outcome `o` of an item.
abbrev IsTurn : Outcome → Progress → Progress → Type 0
IsTurn o g h =
    (h.remaining ≡ g.remaining ++ retry_of o)
    × (h.storage.dead ≡ g.storage.dead ++ burial_of o)
    × (h.storage.local ≡ g.storage.local)

append_nil : {A : Type 0} (xs : List A) → xs ++ [] ≡ xs
append_nil [] = refl
append_nil (x ∷ xs) = ap (λ ys. x ∷ ys) (append_nil xs)

append_assoc : {A : Type 0} (xs ys zs : List A) → (xs ++ ys) ++ zs ≡ xs ++ (ys ++ zs)
append_assoc [] ys zs = refl
append_assoc (x ∷ xs) ys zs = ap (λ rest. x ∷ rest) (append_assoc xs ys zs)

often_or_seldom : (n : ℕ) → leb sync_max_failures n ≡ not (ltb n 3)
often_or_seldom n = ground arith

after_sync-IsTurn :
    (item : PendingR2Upload) (buffer : Text) (now : ℕ) (g : Progress) (result : Option Text)
    → IsTurn (outcome_of item now (some buffer) result) g (after_sync item buffer now g result)
after_sync-IsTurn item buffer now g none =
    (sym (append_nil g.remaining), sym (append_nil g.storage.dead), refl)
after_sync-IsTurn item buffer now g (some message) =
    elim (Bool-cases (ltb (item.fail_count + 1) 3)) [
      | inl seldom ↦
          rw (often_or_seldom (item.fail_count + 1), seldom)
            (refl, sym (append_nil g.storage.dead), refl)
      | inr often ↦
          rw (often_or_seldom (item.fail_count + 1), often)
            (sym (append_nil g.remaining), refl, refl)
    ]

sync_item-IsTurn :
    (r2 : R2) (now : ℕ) (item : PendingR2Upload) (g : Progress) (content : Option Text)
    → IsTurn
        (outcome_of item now content (upload_to_r2_with_retry r2 item.key))
        g
        (sync_item r2 now item g content)
sync_item-IsTurn r2 now item g none = (sym (append_nil g.remaining), refl, refl)
sync_item-IsTurn r2 now item g (some buffer) =
    after_sync-IsTurn item buffer now g (upload_to_r2_with_retry r2 item.key)

-- The whole loop, from `g`.
pub sync_queue-outcomes :
    (r2 : R2) (now : ℕ) (disk : List (Text × Text)) (queue : List PendingR2Upload) (g : Progress)
    → g.storage.local ≡ disk
    → let h = sync_queue r2 now queue g in
      (h.remaining ≡ g.remaining ++ all_retried r2 now disk queue)
      × (h.storage.dead ≡ g.storage.dead ++ all_buried r2 now disk queue)
      × (h.storage.local ≡ disk)
unfolding sync_queue all_retried all_buried
sync_queue-outcomes r2 now disk [] g same =
    (sym (append_nil g.remaining), sym (append_nil g.storage.dead), same)
sync_queue-outcomes r2 now disk (item ∷ queue) g same =
    let o = outcome r2 now disk item in
    let (left, dead, kept) =
      subst
        (λ l.
          IsTurn (outcome_of item now (file item.key l) (upload_to_r2_with_retry r2 item.key)) g
            (sync_item r2 now item g (file item.key g.storage.local)))
        same (sync_item-IsTurn r2 now item g (file item.key g.storage.local)) in
    let (lefts, deads, stays) =
      sync_queue-outcomes r2 now disk queue
        (sync_item r2 now item g (file item.key g.storage.local)) (kept ∙ same) in
    (
      lefts
          ∙ ap (λ xs. xs ++ all_retried r2 now disk queue) left
          ∙ append_assoc g.remaining (retry_of o) (all_retried r2 now disk queue),
      deads
          ∙ ap (λ xs. xs ++ all_buried r2 now disk queue) dead
          ∙ append_assoc g.storage.dead (burial_of o) (all_buried r2 now disk queue),
      stays,
    )

find_first-delete_other :
    {A : Type 0} (p q : A → Bool) (xs : List A)
    → ((x : A) → p x ≡ true → q x ≡ false)
    → find_first q (delete_many p xs) ≡ find_first q xs
unfolding find_first
find_first-delete_other p q [] h = refl
find_first-delete_other p q (x ∷ xs) h = elim (Bool-cases (p x)) [
  | inl e ↦ ground (arith, e, h x e, find_first-delete_other p q xs h)
  | inr e ↦ ground (arith, e, find_first-delete_other p q xs h)
]

pub file-put_file :
    (key buffer : Text) (files : List (Text × Text))
    → file key (put_file key buffer files) ≡ some buffer
unfolding find_first file
file-put_file key buffer files = rw (text_eq_refl key, file, find_first) refl

-- `put_file` for another key
file-put_file-other :
    (key other buffer : Text) (files : List (Text × Text))
    → text_eq other key ≡ false
    → file key (put_file other buffer files) ≡ file key files
unfolding file find_first
file-put_file-other key other buffer files h =
    rw (h, file, find_first)
      (ap (λ o. elim o [ none ↦ none | some f ↦ some f.1 ])
        (find_first-delete_other (λ f. text_eq f.0 other) (λ f. text_eq f.0 key) files
          (λ f same. subst (λ k. text_eq k key ≡ false) (sym (text_eq_sound f.0 other same)) h)))

-- R2 holds of the key what the disk holds of it.
abbrev IsHeld : Text → List (Text × Text) → Progress → Type 0
IsHeld key disk g = file key g.storage.remote ≡ file key disk

put_file-IsHeld :
    (key other buffer : Text) (disk remote : List (Text × Text))
    → file other disk ≡ some buffer
    → file key remote ≡ file key disk
    → file key (put_file other buffer remote) ≡ file key disk
put_file-IsHeld key other buffer disk remote there h = elim (Bool-cases (text_eq other key)) [
  | inl e ↦
      subst (λ k. file k (put_file other buffer remote) ≡ file k disk) (text_eq_sound other key e)
        (file-put_file other buffer remote ∙ sym there)
  | inr e ↦ file-put_file-other key other buffer remote e ∙ h
]

after_sync-IsHeld :
    (key : Text) (disk : List (Text × Text)) (item : PendingR2Upload) (buffer : Text) (now : ℕ)
    (g : Progress) (result : Option Text)
    → file item.key disk ≡ some buffer
    → IsHeld key disk g
    → IsHeld key disk (after_sync item buffer now g result)
after_sync-IsHeld key disk item buffer now g none there h =
    put_file-IsHeld key item.key buffer disk g.storage.remote there h
after_sync-IsHeld key disk item buffer now g (some message) there h =
    elim (Bool-cases (leb sync_max_failures (item.fail_count + 1))) [
      | inl often ↦ rw often h
      | inr seldom ↦ rw seldom h
    ]

sync_item-IsHeld :
    (r2 : R2) (key : Text) (disk : List (Text × Text)) (now : ℕ) (item : PendingR2Upload)
    (g : Progress) (content : Option Text)
    → file item.key disk ≡ content
    → IsHeld key disk g
    → IsHeld key disk (sync_item r2 now item g content)
sync_item-IsHeld r2 key disk now item g none there h = h
sync_item-IsHeld r2 key disk now item g (some buffer) there h =
    after_sync-IsHeld key disk item buffer now g (upload_to_r2_with_retry r2 item.key) there h

sync_queue-IsHeld :
    (r2 : R2) (key : Text) (disk : List (Text × Text)) (now : ℕ) (queue : List PendingR2Upload)
    (g : Progress)
    → g.storage.local ≡ disk
    → IsHeld key disk g
    → IsHeld key disk (sync_queue r2 now queue g)
unfolding sync_queue
sync_queue-IsHeld r2 key disk now [] g same h = h
sync_queue-IsHeld r2 key disk now (item ∷ queue) g same h =
    let content = file item.key g.storage.local in
    let (_, _, kept) = sync_item-IsTurn r2 now item g content in
    sync_queue-IsHeld r2 key disk now queue (sync_item r2 now item g content) (kept ∙ same)
      (sync_item-IsHeld r2 key disk now item g content (ap (file item.key) (sym same)) h)

-- A file that is sent is in R2 after its turn.
sync_item-InR2 :
    (r2 : R2) (disk : List (Text × Text)) (now : ℕ) (item : PendingR2Upload) (g : Progress)
    (content : Option Text) (result : Option Text)
    → file item.key disk ≡ content
    → upload_to_r2_with_retry r2 item.key ≡ result
    → outcome_of item now content result ≡ sent
    → IsHeld item.key disk (sync_item r2 now item g content)
sync_item-InR2 r2 disk now item g none result there e h = absurd cc
sync_item-InR2 r2 disk now item g (some buffer) none there e h =
    rw e (file-put_file item.key buffer g.storage.remote ∙ sym there)
sync_item-InR2 r2 disk now item g (some buffer) (some message) there e h =
    elim (Bool-cases (ltb (item.fail_count + 1) 3)) [
      | inl seldom ↦ absurd (retried_no_sent _ (rw seldom at h))
      | inr often ↦ absurd (buried_no_sent _ (rw often at h))
    ]
  where
    retried_no_sent : (i : PendingR2Upload) → retried i ≡ sent → ⊥
    retried_no_sent i h = cc

    buried_no_sent : (i : PendingR2Upload) → buried i ≡ sent → ⊥
    buried_no_sent i h = cc

in_r2 :
    (o : Outcome) (key : Text) (disk remote : List (Text × Text))
    → (o ≡ sent → file key remote ≡ file key disk)
    → InR2 o key disk remote
in_r2 sent key disk remote h = h refl
in_r2 (retried item) key disk remote h = tt
in_r2 (buried item) key disk remote h = tt

pub sync_queue-IsSent :
    (r2 : R2) (disk : List (Text × Text)) (now : ℕ) (queue : List PendingR2Upload) (g : Progress)
    → g.storage.local ≡ disk
    → All (IsSent r2 now disk (sync_queue r2 now queue g).storage.remote) queue
unfolding sync_queue
sync_queue-IsSent r2 disk now [] g same = tt
sync_queue-IsSent r2 disk now (item ∷ queue) g same =
    let content = file item.key g.storage.local in
    let there = ap (file item.key) (sym same) in
    let (_, _, kept) = sync_item-IsTurn r2 now item g content in
    let next = sync_item r2 now item g content in
    (
      in_r2 (outcome r2 now disk item) item.key disk (sync_queue r2 now queue next).storage.remote
          (λ h. sync_queue-IsHeld r2 item.key disk now queue next (kept ∙ same) (
            sync_item-InR2 r2 disk now item g content _ there refl (
              ap (λ c. outcome_of item now c (upload_to_r2_with_retry r2 item.key)) (sym there)
              ∙ h))),
      sync_queue-IsSent r2 disk now queue next (kept ∙ same),
    )
