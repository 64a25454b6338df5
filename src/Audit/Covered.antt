-- ===== src/Audit/Covered.antt =====
-- The canonical text of an entry determines every field that the entry's hash covers.
use devispropre.Base.{ℕ, ◌≡◌, refl, sym, ap, ◌∙◌, Option, none, some, List, [], ◌∷◌, if◌then◌else◌}
use devispropre.Text.{Text, codes, text_eq}
use devispropre.Platform.{Platform}
use devispropre.Json.{Value, undefined, num, str, obj, field, canonicalize, text_lt}
use devispropre.Json.Normal.{normal, insert_field}
use devispropre.Json.Printable.{PrintsNumbers, IsPrintable}
use devispropre.Json.Unique.{canonicalize_unique}
use devispropre.Audit.{AuditLog, seq_number, nullable, entry_value, action_text}

-- The covered fields; the action and the date by the texts that are hashed.
pub record Covered : Type 0 where
  pub seq : ℕ
  pub prev_hash : Option Text
  pub user_id : Text
  pub action : Text
  pub entity_type : Text
  pub entity_id : Text
  pub metadata : Text
  pub content_hash : Option Text
  pub ip_address : Option Text
  pub user_agent : Option Text
  pub created_at : Text

-- The value of a key; `undefined` where it is missing.
get : {D : Type 0} → Text → Value D → Value D
get k (obj (field j v fs)) = let rest = get k (obj fs) in if text_eq j k then v else rest
get k _ = undefined

as_text : {D : Type 0} → Value D → Option Text
as_text (str s) = some s
as_text _ = none

num_injective : {D : Type 0} (x y : D) → num x ≡ num y → x ≡ y
num_injective x y e = cc

module _ {D : Type 0} (p : Platform D) where
  unfoldable pub covered : AuditLog → Covered
  covered e = record {
    seq = seq_number e;
    prev_hash = e.prev_hash;
    user_id = e.user_id;
    action = action_text e.action;
    entity_type = e.entity_type;
    entity_id = e.entity_id;
    metadata = e.metadata;
    content_hash = e.content_hash;
    ip_address = e.ip_address;
    user_agent = e.user_agent;
    created_at = p.iso_string e.created_at;
  }

  as_text-nullable : (o : Option Text) → as_text (normal {D = D} (nullable o)) ≡ o
  unfolding as_text normal
  as_text-nullable none = refl
  as_text-nullable (some s) = refl

  read : Value D → Option Text × Option Text × Option Text × Option Text
  read v = (
    as_text (get (codes "prevHash") v),
    as_text (get (codes "contentHash") v),
    as_text (get (codes "ipAddress") v),
    as_text (get (codes "userAgent") v),
  )

  read_entry :
      (e : AuditLog)
      → read (normal (entry_value p e)) ≡ (e.prev_hash, e.content_hash, e.ip_address, e.user_agent)
  unfolding read entry_value normal insert_field text_lt get text_eq
  read_entry e = rw (
    as_text-nullable e.prev_hash,
    as_text-nullable e.content_hash,
    as_text-nullable e.ip_address,
    as_text-nullable e.user_agent,
  )

  read_texts : Value D → List (Option Text)
  read_texts v =
      as_text (get (codes "userId") v)
      ∷ as_text (get (codes "action") v)
      ∷ as_text (get (codes "entityType") v)
      ∷ as_text (get (codes "entityId") v)
      ∷ as_text (get (codes "metadata") v)
      ∷ as_text (get (codes "createdAt") v)
      ∷ []

  read_texts_entry :
      (e : AuditLog)
      → read_texts (normal (entry_value p e))
        ≡ some e.user_id
          ∷ some (action_text e.action)
          ∷ some e.entity_type
          ∷ some e.entity_id
          ∷ some e.metadata
          ∷ some (p.iso_string e.created_at)
          ∷ []
  unfolding read_texts entry_value normal insert_field text_lt get text_eq as_text
  read_texts_entry e = refl

  seq_entry :
      (e : AuditLog)
      → get (codes "seq") (normal (entry_value p e)) ≡ num (p.number.nat (seq_number e))
  unfolding entry_value normal insert_field text_lt get text_eq
  seq_entry e = refl

  module _ (Finite : D → Type 0) (laws : PrintsNumbers p.number Finite) where
    nullable-IsPrintable : (o : Option Text) → IsPrintable Finite (nullable o)
    unfolding IsPrintable
    nullable-IsPrintable none = tt
    nullable-IsPrintable (some s) = tt

    entry-IsPrintable : (e : AuditLog) → IsPrintable Finite (entry_value p e)
    unfolding entry_value IsPrintable
    entry-IsPrintable e = (
      laws.nat_finite 1,
      (
        laws.nat_finite (seq_number e),
        (
          nullable-IsPrintable e.prev_hash,
          (
            tt,
            (
              tt,
              (
                tt,
                (
                  tt,
                  (
                    tt,
                    (
                      nullable-IsPrintable e.content_hash,
                      (
                        nullable-IsPrintable e.ip_address,
                        (nullable-IsPrintable e.user_agent, (tt, tt)),
                      ),
                    ),
                  ),
                ),
              ),
            ),
          ),
        ),
      ),
    )

    -- Two entries with one canonical text agree in every covered field.
    pub covered_unique :
        (a b : AuditLog)
        → canonicalize p.number (entry_value p a) ≡ canonicalize p.number (entry_value p b)
        → covered a ≡ covered b
    unfolding covered
    covered_unique a b e =
        let n =
          (canonicalize_unique p.number Finite laws (entry_value p a) (entry_value p b)
              (entry-IsPrintable a) (entry-IsPrintable b)).0
            e in
        let r = sym (read_entry a) ∙ ap read n ∙ read_entry b in
        let t = sym (read_texts_entry a) ∙ ap read_texts n ∙ read_texts_entry b in
        let q = sym (seq_entry a) ∙ ap (get (codes "seq")) n ∙ seq_entry b in
        let number = laws.nat_injective (seq_number a) (seq_number b) (num_injective _ _ q) in
        cc (r, t, number)
