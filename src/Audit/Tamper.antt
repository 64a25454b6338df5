-- ===== src/Audit/Tamper.antt =====
-- Entries that were changed, reordered or replaced show in the last hash of a chain.
use devispropre.Base.{
  ℕ, ◌+◌, ◌≡◌, refl, sym, ap, ap₂, ◌∙◌, ◌⊎◌, inl, inr, Option, none, some, List, [], ◌∷◌, map,
  arith, length, Bool-cases,
}
use devispropre.Text.{Text, text_eq, text_eq_iff}
use devispropre.Platform.{Platform, Collision}
use devispropre.Json.{canonicalize}
use devispropre.Json.Printable.{PrintsNumbers}
use devispropre.Audit.{AuditLog, entry_value, compute_audit_entry_hash}
use devispropre.Audit.Chain.{Chained, end_hash}
use devispropre.Audit.Covered.{covered, covered_unique}

pub same_or_Collision :
    (digest : Text → Text) (s t : Text) → digest s ≡ digest t → (s ≡ t) ⊎ Collision digest
same_or_Collision digest s t e = elim (Bool-cases (text_eq s t)) [
  | inl same ↦ inl ((text_eq_iff s t).0 same)
  | inr other ↦ inr (s, t, (λ same. cc (other, (text_eq_iff s t).1 same)), e)
]

some_injective : (s t : Text) → some s ≡ some t → s ≡ t
some_injective s t e = cc

module _ {D : Type 0} (p : Platform D) (Finite : D → Type 0)
    (laws : PrintsNumbers p.number Finite) where
  entry_hash_unique :
      (a b : AuditLog)
      → compute_audit_entry_hash p a ≡ compute_audit_entry_hash p b
      → (covered p a ≡ covered p b) ⊎ Collision p.sha256
  unfolding compute_audit_entry_hash
  entry_hash_unique a b e =
      elim (same_or_Collision p.sha256 (canonicalize p.number (entry_value p a))
        (canonicalize p.number (entry_value p b)) e) [
          | inl same ↦ inl (covered_unique p Finite laws a b same)
          | inr found ↦ inr found
        ]

  chains_agree :
      (prev prev' : Option Text) (k k' : ℕ) (rows rows' : List AuditLog)
      → Chained p prev k rows
      → Chained p prev' k' rows'
      → length rows ≡ length rows'
      → end_hash prev rows ≡ end_hash prev' rows'
      → ((map (covered p) rows ≡ map (covered p) rows') × (prev ≡ prev')) ⊎ Collision p.sha256
  unfolding covered
  chains_agree prev prev' k k' [] [] h h' l e = inl (refl, e)
  chains_agree prev prev' k k' [] (b ∷ rows') h h' l e = absurd (omega arith)
  chains_agree prev prev' k k' (a ∷ rows) [] h h' l e = absurd (omega arith)
  chains_agree prev prev' k k' (a ∷ rows) (b ∷ rows') (_, pa, ha, h) (_, pb, hb, h') l e =
      elim (chains_agree a.entry_hash b.entry_hash (k + 1) (k' + 1) rows rows' h h' (omega arith)
        e) [
          | inr found ↦ inr found
          | inl (tails, heads) ↦
              elim (entry_hash_unique a b (some_injective _ _ (sym ha ∙ heads ∙ hb))) [
                | inr found ↦ inr found
                | inl same ↦ inl (ap₂ ◌∷◌ same tails, sym pa ∙ ap (λ c. c.prev_hash) same ∙ pb)
              ]
        ]

  -- Two valid chains with the same number of entries and the same last hash agree in every
  -- covered field of every entry, or two texts with one SHA-256 digest are at hand. So whoever
  -- keeps the last hash sees any entry that was changed, swapped or replaced.
  pub Chained-tamper_evident :
      (rows rows' : List AuditLog)
      → Chained p none 1 rows
      → Chained p none 1 rows'
      → length rows ≡ length rows'
      → end_hash none rows ≡ end_hash none rows'
      → (map (covered p) rows ≡ map (covered p) rows') ⊎ Collision p.sha256
  Chained-tamper_evident rows rows' h h' l e =
      elim (chains_agree none none 1 1 rows rows' h h' l e) [
        | inl both ↦ inl both.0
        | inr found ↦ inr found
      ]
