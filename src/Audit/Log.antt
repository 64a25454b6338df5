-- ===== src/Audit/Log.antt =====
-- Every call of `logAudit` leaves every workspace's chain valid.
use devispropre.Base.{
  ℕ, ◌+◌, ◌<◌, ◌≡◌, refl, sym, subst, inl, inr, true, false, Option, none, some, List, [], ◌∷◌,
  ◌++◌, arith, if◌then◌else◌, length, Bool-cases, keep, keep-append,
}
use mathlib.Core.List.{append-nil}
use devispropre.Text.{Text, text_eq, text_eq_iff}
use devispropre.Platform.{Platform}
use devispropre.Table.{find_last_by, later, order_by-IsOrdered}
use devispropre.Audit.{
  AuditContext, AuditParams, AuditLog, seq_number, valid, in_chain, last_seq, last_hash,
  compute_audit_entry_hash, entry_value, verify_workspace_audit_chain, next_entry, log_audit,
}
use devispropre.Audit.Chain.{
  Chained, end_hash, verify_audit_chain_iff, Chained-concat, Chained-IsOrdered,
}

abbrev last_entry : List AuditLog → Option AuditLog
last_entry [] = none
last_entry (e ∷ []) = some e
last_entry (e ∷ f ∷ entries) = last_entry (f ∷ entries)

module _ {D : Type 0} (p : Platform D) where
  -- A user's part of the journal is a chain.
  abbrev pub IsLogged : Text → List AuditLog → Type 0
  IsLogged user_id table = Chained p none 1 (keep (in_chain user_id) table)

  last_entry-seq :
      (prev : Option Text) (k : ℕ) (e : AuditLog) (entries : List AuditLog)
      → Chained p prev k (e ∷ entries)
      → (last_seq (last_entry (e ∷ entries)) ≡ k + length entries)
        × (last_hash (last_entry (e ∷ entries)) ≡ end_hash e.entry_hash entries)
  last_entry-seq prev k e [] h = (omega (arith, h.0), refl)
  last_entry-seq prev k e (f ∷ entries) (a, _, _, h) =
      let (s, t) = last_entry-seq e.entry_hash (k + 1) f entries h in (omega arith, t)

  some-later :
      (e : AuditLog) (o : Option AuditLog)
      → seq_number e < last_seq o
      → some (later seq_number e o) ≡ o
  some-later e none h = absurd (omega arith)
  some-later e (some f) h = ground arith

  later-last_entry :
      (prev : Option Text) (k : ℕ) (e : AuditLog) (entries : List AuditLog)
      → Chained p prev k (e ∷ entries)
      → some (later seq_number e (last_entry entries)) ≡ last_entry (e ∷ entries)
  later-last_entry prev k e [] h = refl
  later-last_entry prev k e (f ∷ entries) (a, _, _, h) =
      let (s, _) = last_entry-seq e.entry_hash (k + 1) f entries h in
      some-later e (last_entry (f ∷ entries)) (omega (arith, s, a))

  keep_mine :
      (u : Text) (e : AuditLog) (table : List AuditLog)
      → in_chain u e ≡ true
      → keep (in_chain u) (e ∷ table) ≡ e ∷ keep (in_chain u) table
  keep_mine u e table h = rw h

  keep_other :
      (u : Text) (e : AuditLog) (table : List AuditLog)
      → in_chain u e ≡ false
      → keep (in_chain u) (e ∷ table) ≡ keep (in_chain u) table
  keep_other u e table h = rw h

  find_last_by-last_entry :
      (u : Text) (prev : Option Text) (k : ℕ) (table : List AuditLog)
      → Chained p prev k (keep (in_chain u) table)
      → find_last_by seq_number (in_chain u) table ≡ last_entry (keep (in_chain u) table)
  unfolding find_last_by
  find_last_by-last_entry u prev k [] h = refl
  find_last_by-last_entry u prev k (e ∷ table) h = elim (Bool-cases (in_chain u e)) [
    | inl mine ↦
        let c = subst (Chained p prev k) (keep_mine u e table mine) h in
        rw (mine, find_last_by-last_entry u e.entry_hash (k + 1) table c.3)
          (later-last_entry prev k e (keep (in_chain u) table) c)
    | inr other ↦ rw other (
        find_last_by-last_entry u prev k table
          (subst (Chained p prev k) (keep_other u e table other) h))
  ]

  last_entry-end :
      (entries : List AuditLog)
      → Chained p none 1 entries
      → (last_seq (last_entry entries) ≡ length entries)
        × (last_hash (last_entry entries) ≡ end_hash none entries)
  last_entry-end [] h = (refl, refl)
  last_entry-end (e ∷ entries) h =
      let (s, t) = last_entry-seq none 1 e entries h in (omega (arith, s), t)

  -- A new entry has its own hash, and is in the chain of the user alone.
  next_entry-hash :
      (ctx : AuditContext) (params : AuditParams D) (now : ℕ) (last : Option AuditLog)
      → let row = next_entry p ctx params now last in
        row.entry_hash ≡ some (compute_audit_entry_hash p row)
  unfolding next_entry compute_audit_entry_hash entry_value
  next_entry-hash ctx params now last = refl

  in_chain-next_entry :
      (u : Text) (ctx : AuditContext) (params : AuditParams D) (now : ℕ) (last : Option AuditLog)
      → in_chain u (next_entry p ctx params now last) ≡ text_eq ctx.user_id u
  unfolding next_entry
  in_chain-next_entry u ctx params now last = ground arith

  chain-next_entry :
      (ctx : AuditContext) (params : AuditParams D) (now : ℕ) (entries : List AuditLog)
      → Chained p none 1 entries
      → Chained p none 1 (entries ++ next_entry p ctx params now (last_entry entries) ∷ [])
  unfolding next_entry
  chain-next_entry ctx params now entries h =
      let (s, t) = last_entry-end entries h in
      Chained-concat p none 1 entries (next_entry p ctx params now (last_entry entries)) h
        (omega (arith, s)) t (next_entry-hash ctx params now (last_entry entries))

  keep-log_audit :
      (u : Text) (ctx : AuditContext) (params : AuditParams D) (now : ℕ) (table : List AuditLog)
      → keep (in_chain u) (log_audit p ctx params now table)
        ≡ keep (in_chain u) table
          ++ (if text_eq ctx.user_id u
              then next_entry p ctx params now
                  (find_last_by seq_number (in_chain ctx.user_id) table)
                ∷ []
              else [])
  unfolding log_audit
  keep-log_audit u ctx params now table = rw (
    keep-append,
    in_chain-next_entry u ctx params now (find_last_by seq_number (in_chain ctx.user_id) table),
  )

  -- A call of `logAudit` keeps the chain of every user.
  log_audit-IsLogged :
      (u : Text) (ctx : AuditContext) (params : AuditParams D) (now : ℕ) (table : List AuditLog)
      → IsLogged u table
      → IsLogged u (log_audit p ctx params now table)
  log_audit-IsLogged u ctx params now table h =
      rw (keep-log_audit u ctx params now table) (elim (Bool-cases (text_eq ctx.user_id u)) [
        | inl mine ↦
            let same = sym ((text_eq_iff ctx.user_id u).0 mine) in
            let own = subst (λ v. IsLogged v table) same h in
            rw (mine, same, find_last_by-last_entry ctx.user_id none 1 table own)
              (chain-next_entry ctx params now (keep (in_chain ctx.user_id) table) own)
        | inr other ↦ rw (other, append-nil) h
      ])

  -- A call of `logAudit`: who acts, what is logged and when.
  abbrev pub Call : Type 0
  Call = AuditContext × AuditParams D × ℕ

  -- The journal after any calls, of any users, one after the other.
  unfoldable pub log_all : List Call → List AuditLog → List AuditLog
  log_all [] table = table
  log_all ((ctx, params, now) ∷ calls) table = log_all calls (log_audit p ctx params now table)

  log_all-IsLogged :
      (u : Text) (calls : List Call) (table : List AuditLog)
      → IsLogged u table
      → IsLogged u (log_all calls table)
  unfolding log_all
  log_all-IsLogged u [] table h = h
  log_all-IsLogged u ((ctx, params, now) ∷ calls) table h =
      log_all-IsLogged u calls (log_audit p ctx params now table)
        (log_audit-IsLogged u ctx params now table h)

  -- The chain of a user, after any calls.
  pub log_all-Chained :
      (u : Text) (calls : List Call) → Chained p none 1 (keep (in_chain u) (log_all calls []))
  log_all-Chained u calls = log_all-IsLogged u calls [] tt

  -- From an empty journal, after any calls of `logAudit` by any users in any order, the check of
  -- every workspace answers "valid", with the number of its entries.
  pub log_all-valid :
      (u : Text) (calls : List Call)
      → verify_workspace_audit_chain p u (log_all calls [])
        ≡ valid (length (keep (in_chain u) (log_all calls [])))
  unfolding verify_workspace_audit_chain
  log_all-valid u calls =
      let chain = log_all-IsLogged u calls [] tt in
      rw (order_by-IsOrdered seq_number _ (Chained-IsOrdered p none 1 _ chain))
        ((verify_audit_chain_iff p _).1 chain)
