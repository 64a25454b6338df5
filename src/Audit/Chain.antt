-- ===== src/Audit/Chain.antt =====
-- What a chain is, and that `verifyAuditChain` decides it.
use devispropre.Base.{
  ℕ, ◌+◌, ◌≤◌, ◌≡◌, refl, ap, ◌↔◌, true, Option, none, some, List, [], ◌∷◌, ◌++◌, arith, length,
}
use devispropre.Text.{Text, text_eq_iff}
use devispropre.Platform.{Platform}
use devispropre.Table.{IsOrdered, Above}
use devispropre.Audit.{
  AuditLog, seq_number, valid, option_text_eq, compute_audit_entry_hash, verify_from,
  verify_audit_chain,
}

pub option_text_eq_iff : (a b : Option Text) → (option_text_eq a b ≡ true) ↔ (a ≡ b)
option_text_eq_iff none none = (λ _. refl, λ _. refl)
option_text_eq_iff none (some t) = (λ h. cc, λ h. cc)
option_text_eq_iff (some s) none = (λ h. cc, λ h. cc)
option_text_eq_iff (some s) (some t) =
    (λ h. ap some ((text_eq_iff s t).0 h), λ h. (text_eq_iff s t).1 (cc))

-- The hash that the next entry has to bear.
abbrev pub end_hash : Option Text → List AuditLog → Option Text
end_hash prev [] = prev
end_hash prev (e ∷ entries) = end_hash e.entry_hash entries

module _ {D : Type 0} (p : Platform D) where
  -- Entries numbered from `k` on, each with the hash of the one before it and its own.
  abbrev pub Chained : Option Text → ℕ → List AuditLog → Type 0
  Chained prev k [] = Unit
  Chained prev k (e ∷ entries) =
      (seq_number e ≡ k)
      × (e.prev_hash ≡ prev)
      × (e.entry_hash ≡ some (compute_audit_entry_hash p e))
      × Chained e.entry_hash (k + 1) entries

  verify_from_iff :
      (total k : ℕ) (prev : Option Text) (entries : List AuditLog)
      → (verify_from p total prev k entries ≡ valid total) ↔ Chained prev k entries
  unfolding verify_from
  verify_from_iff total k prev [] = (λ _. tt, λ _. refl)
  verify_from_iff total k prev (e ∷ entries) =
      let ih = verify_from_iff total (k + 1) e.entry_hash entries in
      ground (
        arith,
        ih.0,
        ih.1,
        option_text_eq_iff e.prev_hash prev,
        option_text_eq_iff (some (compute_audit_entry_hash p e)) e.entry_hash,
      )

  -- The check answers "valid", with the number of entries, exactly for the chains that begin
  -- with number 1 and no previous hash.
  pub verify_audit_chain_iff :
      (entries : List AuditLog)
      → (verify_audit_chain p entries ≡ valid (length entries)) ↔ Chained none 1 entries
  unfolding verify_audit_chain
  verify_audit_chain_iff entries = verify_from_iff (length entries) 1 none entries

  -- A chain goes on with an entry that has the next number, the last hash and its own.
  pub Chained-concat :
      (prev : Option Text) (k : ℕ) (entries : List AuditLog) (row : AuditLog)
      → Chained prev k entries
      → seq_number row ≡ k + length entries
      → row.prev_hash ≡ end_hash prev entries
      → row.entry_hash ≡ some (compute_audit_entry_hash p row)
      → Chained prev k (entries ++ row ∷ [])
  Chained-concat prev k [] row h q r t = (omega arith, r, t, tt)
  Chained-concat prev k (e ∷ entries) row (a, b, c, h) q r t =
      (a, b, c, Chained-concat e.entry_hash (k + 1) entries row h (omega arith) r t)

  -- The numbers of a chain stand in order.
  pub Chained-Above :
      (prev : Option Text) (k m : ℕ) (entries : List AuditLog)
      → Chained prev k entries
      → m ≤ k
      → Above seq_number m entries
  Chained-Above prev k m [] h le = tt
  Chained-Above prev k m (e ∷ entries) (a, _, _, h) le =
      (omega arith, Chained-Above e.entry_hash (k + 1) m entries h (omega arith))

  pub Chained-IsOrdered :
      (prev : Option Text) (k : ℕ) (entries : List AuditLog)
      → Chained prev k entries
      → IsOrdered seq_number entries
  Chained-IsOrdered prev k [] h = tt
  Chained-IsOrdered prev k (e ∷ entries) (a, _, _, h) = (
    Chained-Above e.entry_hash (k + 1) (seq_number e) entries h (omega arith),
    Chained-IsOrdered e.entry_hash (k + 1) entries h,
  )
