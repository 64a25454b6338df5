-- ===== src/ObjectStorage/Read.antt =====
-- What is read back of a stored PDF.
use devispropre.Base.{
  ◌≡◌, refl, sym, ap, ◌∙◌, if_true, ℕ, Bool, true, false, Option, none, some, if◌then◌else◌,
  Bool-cases, inl, inr,
}
use devispropre.Text.{Text, is_empty}
use devispropre.ObjectStorage.Outcome.{file-put_file}
use devispropre.ObjectStorage.{
  R2, Storage, file, store_pdf, after_upload, upload_to_r2_with_retry, read_archived_pdf,
  read_from_r2, first_of, remove_pending_r2_upload, enqueue_pending_r2_upload,
}

-- the file that the document is read from after an upload with this result
abbrev pub stored_file : Option Text → Text → Option Text → Text
stored_file none buffer old = buffer
stored_file (some message) buffer none = buffer
stored_file (some message) buffer (some b) = b

-- the file of the disk after an upload with this result
abbrev pub local_file : Option Text → Text → Option Text → Option Text
local_file none buffer old = old
local_file (some message) buffer old = some buffer

read_ready :
    (r2 : R2) (key : Text) (t : Storage)
    → r2.configured ≡ true
    → r2.readable ≡ true
    → read_archived_pdf r2 key t ≡ first_of (file key t.remote) (file key t.local)
unfolding read_archived_pdf read_from_r2
read_ready r2 key t on ready = rw (on, ready) refl

read_unready :
    (r2 : R2) (key : Text) (t : Storage)
    → r2.configured ≡ true
    → r2.readable ≡ false
    → read_archived_pdf r2 key t ≡ file key t.local
unfolding read_archived_pdf read_from_r2
read_unready r2 key t on ready = rw (on, ready) refl

read_after :
    (r2 : R2) (key buffer : Text) (now : ℕ) (s : Storage) (e : Option Text)
    → r2.configured ≡ true
    → r2.readable ≡ true
    → read_archived_pdf r2 key (after_upload key buffer now s e)
      ≡ some (stored_file e buffer (file key s.remote))
unfolding remove_pending_r2_upload enqueue_pending_r2_upload
read_after r2 key buffer now s none on ready =
    read_ready r2 key _ on ready
    ∙ ap (λ f. first_of f (file key s.local)) (file-put_file key buffer s.remote)
read_after r2 key buffer now s (some message) on ready =
    read_ready r2 key _ on ready
    ∙ ap (first_of (file key s.remote)) (file-put_file key buffer s.local)
    ∙ either message (file key s.remote)
  where
    either :
        (message : Text) (old : Option Text)
        → first_of old (some buffer) ≡ some (stored_file (some message) buffer old)
    either message none = refl
    either message (some b) = refl

read_after-unready :
    (r2 : R2) (key buffer : Text) (now : ℕ) (s : Storage) (e : Option Text)
    → r2.configured ≡ true
    → r2.readable ≡ false
    → read_archived_pdf r2 key (after_upload key buffer now s e)
      ≡ local_file e buffer (file key s.local)
unfolding remove_pending_r2_upload enqueue_pending_r2_upload
read_after-unready r2 key buffer now s none on down = read_unready r2 key _ on down
read_after-unready r2 key buffer now s (some message) on down =
    read_unready r2 key _ on down ∙ file-put_file key buffer s.local

if_false : {A : Type 0} (b : Bool) (x y : A) → b ≡ false → (if b then x else y) ≡ y
if_false true x y h = absurd cc
if_false false x y h = refl

-- What is read back of a PDF that was stored. Where R2 is not configured, the PDF. Where R2 can be
-- read, the PDF too, but for an earlier file of the key in R2 that the upload failed to replace,
-- which is read then. Where R2 is configured and cannot be read, the PDF if its upload failed, and
-- after an upload that succeeded only the file of the disk from before, if there is one.
pub read_archived_pdf-store_pdf :
    (r2 : R2) (key buffer : Text) (now : ℕ) (s t : Storage)
    → store_pdf r2 key buffer now s ≡ some t
    → read_archived_pdf r2 key t ≡ (
        if r2.configured
        then (if r2.readable
            then some (stored_file (upload_to_r2_with_retry r2 key) buffer (file key s.remote))
            else local_file (upload_to_r2_with_retry r2 key) buffer (file key s.local))
        else some buffer)
unfolding store_pdf read_archived_pdf read_from_r2
read_archived_pdf-store_pdf r2 key buffer now s t done = elim (Bool-cases (is_empty buffer)) [
  | inl refused ↦ absurd (none_some t (rw refused at done))
  | inr given ↦ elim (Bool-cases r2.configured) [
    | inl on ↦
        let here = some_is _ t (rw (given, on) at done) in
        elim (Bool-cases r2.readable) [
          | inl ready ↦ rw (sym here) (
              read_after r2 key buffer now s (upload_to_r2_with_retry r2 key) on ready
              ∙ sym (if_true r2.readable _ _ ready)
              ∙ sym (if_true r2.configured _ _ on))
          | inr down ↦ rw (sym here) (
              read_after-unready r2 key buffer now s (upload_to_r2_with_retry r2 key) on down
              ∙ sym (if_false r2.readable _ _ down)
              ∙ sym (if_true r2.configured _ _ on))
        ]
    | inr off ↦
        let here = some_is _ t (rw (given, off) at done) in
        rw (off, sym here) (rw (file-put_file key buffer s.local) refl)
  ]
]
  where
    none_some : (t : Storage) → ◌≡◌ {A = Option Storage} none (some t) → ⊥
    none_some t h = cc

    some_is : (a b : Storage) → some a ≡ some b → a ≡ b
    some_is a b h = cc
