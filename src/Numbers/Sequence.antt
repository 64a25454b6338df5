-- ===== src/Numbers/Sequence.antt =====
-- The numbers of quotes and invoices follow one another with no gap, and none is given twice.
use devispropre.Base.{
  ℕ, ◌+◌, ◌≡◌, refl, sym, subst, ◌∙◌, fun_ext, ap, inl, inr, Bool, true, false, Option, none, some,
  List, [], ◌∷◌, ◌++◌, arith, if◌then◌else◌, Bool-cases, Option-cases, head_or, drop,
}
use devispropre.Text.{Text, text_eq_iff}
use devispropre.Table.{find_first, update_many, find_first-update_many, find_first_passes}
use devispropre.Numbers.{DocType, devis, facture, Counter, is_counter, bump, next_sequence, numero}
use devispropre.Decimal.{
  decimal, pad_start, decimal_injective, pad_start-decimal_injective, decimal-IsDigit,
  digits_then_dash,
}

-- The last number given under a key; 0 where none was.
abbrev pub seq_of : Option Counter → ℕ
seq_of none = 0
seq_of (some c) = c.last_seq

unfoldable pub last_seq_of : Text → ℕ → DocType → List Counter → ℕ
last_seq_of user_id year doc_type table =
    seq_of (find_first (is_counter user_id year doc_type) table)

find_first-append :
    (p : Counter → Bool) (xs ys : List Counter)
    → find_first p (xs ++ ys) ≡ elim (find_first p xs) [ none ↦ find_first p ys | some c ↦ some c ]
unfolding find_first
find_first-append p [] ys = refl
find_first-append p (x ∷ xs) ys = ground (arith, find_first-append p xs ys)

-- Whether two keys of counters are one.
abbrev pub same_key_as : Text → ℕ → DocType → Text → ℕ → DocType → Bool
same_key_as u y t u' y' t' =
    is_counter u' y' t' (record { user_id = u; year = y; doc_type = t; last_seq = 1 })

module _ (u u' : Text) (y y' : ℕ) (t t' : DocType) where
  -- A counter under the first key is under the second exactly when the keys are one.
  same_key :
      (c : Counter) → is_counter u y t c ≡ true → is_counter u' y' t' c ≡ same_key_as u y t u' y' t'
  same_key c h = ground (arith, text_eq_iff c.user_id u, text_eq_iff c.user_id u', text_eq_iff u u')

  same_counters :
      (c : Counter) → same_key_as u y t u' y' t' ≡ true → is_counter u' y' t' c ≡ is_counter u y t c
  same_counters c h =
      ground (arith, text_eq_iff c.user_id u, text_eq_iff c.user_id u', text_eq_iff u u')

  seq_of_others :
      (table : List Counter)
      → same_key_as u y t u' y' t' ≡ false
      → find_first (is_counter u' y' t') (update_many (is_counter u y t) bump table)
        ≡ find_first (is_counter u' y' t') table
  unfolding find_first update_many
  seq_of_others [] h = refl
  seq_of_others (x ∷ xs) h = elim (Bool-cases (is_counter u y t x)) [
    | inl mine ↦ let not_theirs = same_key x mine ∙ h in rw (mine, not_theirs) (seq_of_others xs h)
    | inr other ↦ rw (other, seq_of_others xs h)
  ]

  seq_of_mine :
      (table : List Counter) (c : Counter)
      → find_first (is_counter u y t) table ≡ some c
      → seq_of (find_first (is_counter u y t) (update_many (is_counter u y t) bump table))
        ≡ c.last_seq + 1
  seq_of_mine table c h = rw (
    find_first-update_many (is_counter u y t) (is_counter u y t) bump table (λ d k. refl),
    h,
    find_first_passes (is_counter u y t) table c h,
  )

  find_bumped :
      (table : List Counter) (c : Counter)
      → find_first (is_counter u y t) table ≡ some c
      → seq_of (find_first (is_counter u' y' t') (update_many (is_counter u y t) bump table)) ≡ (
          if same_key_as u y t u' y' t'
          then c.last_seq + 1
          else seq_of (find_first (is_counter u' y' t') table))
  find_bumped table c h = elim (Bool-cases (same_key_as u y t u' y' t')) [
    | inl one ↦ rw (one, fun_ext (λ d. same_counters d one)) (seq_of_mine table c h)
    | inr two ↦ rw (two, seq_of_others table two)
  ]

  new_counter : Counter
  new_counter = record { user_id = u; year = y; doc_type = t; last_seq = 1 }

  find_created :
      (table : List Counter)
      → find_first (is_counter u y t) table ≡ none
      → seq_of (find_first (is_counter u' y' t') (table ++ new_counter ∷ [])) ≡ (
          if same_key_as u y t u' y' t' then 1 else seq_of (find_first (is_counter u' y' t') table))
  unfolding find_first new_counter
  find_created table h = elim (Bool-cases (same_key_as u y t u' y' t')) [
    | inl one ↦
        let agree = fun_ext (λ d. same_counters d one) in
        rw (find_first-append, subst (λ p. find_first p table ≡ none) (sym agree) h)
          (ground (arith, one))
    | inr two ↦ rw (find_first-append, two) (ground arith)
  ]

  created :
      (table : List Counter)
      → find_first (is_counter u y t) table ≡ none
      → next_sequence u y t table ≡ (1, table ++ new_counter ∷ [])
  unfolding next_sequence new_counter
  created table h = rw (h, next_sequence)

  bumped :
      (table : List Counter) (c : Counter)
      → find_first (is_counter u y t) table ≡ some c
      → next_sequence u y t table ≡ (c.last_seq + 1, update_many (is_counter u y t) bump table)
  unfolding next_sequence
  bumped table c h = rw (h, next_sequence)

  -- The number given is one more than the last of its key, it becomes the last, and no other key
  -- (another user, year or type of document) is touched: the numbers of a key have no gap.
  pub next_sequence-gapless :
      (table : List Counter)
      → let (seq, table') = next_sequence u y t table in
        (seq ≡ last_seq_of u y t table + 1)
        × (last_seq_of u' y' t' table'
            ≡ (if same_key_as u y t u' y' t' then seq else last_seq_of u' y' t' table))
  unfolding last_seq_of
  next_sequence-gapless table = elim (Option-cases (find_first (is_counter u y t) table)) [
    | inl new ↦ rw (created table new) (rw new (omega arith), find_created table new)
    | inr (c, e) ↦ rw (bumped table c e) (rw e, find_bumped table c e)
  ]

same_suffix :
    (y y' seq seq' : ℕ)
    → decimal y ++ (b'-' ∷ pad_start 4 b'0' (decimal seq))
      ≡ decimal y' ++ (b'-' ∷ pad_start 4 b'0' (decimal seq'))
    → (y ≡ y') × (seq ≡ seq')
same_suffix y y' seq seq' h =
    let (years, pads) =
      digits_then_dash (decimal y) (decimal y') _ _ (decimal-IsDigit y) (decimal-IsDigit y') h in
    (decimal_injective y y' years, pad_start-decimal_injective 4 seq seq' pads)

-- The printed number determines the kind of document, the year and the sequence number: no two
-- documents of a user can bear one number unless the counter gave one sequence number twice.
pub numero_injective :
    (t t' : DocType) (y y' seq seq' : ℕ)
    → numero t y seq ≡ numero t' y' seq'
    → (t ≡ t') × ((y ≡ y') × (seq ≡ seq'))
unfolding numero
numero_injective devis facture y y' seq seq' h =
    let e : ◌≡◌ {A = ℕ} b'D' b'F' = ap (λ s. head_or s 0) h in absurd (omega arith)
numero_injective facture devis y y' seq seq' h =
    let e : ◌≡◌ {A = ℕ} b'F' b'D' = ap (λ s. head_or s 0) h in absurd (omega arith)
numero_injective devis devis y y' seq seq' h = (refl, same_suffix y y' seq seq' (ap (drop 4) h))
numero_injective facture facture y y' seq seq' h = (refl, same_suffix y y' seq seq' (ap (drop 4) h))
