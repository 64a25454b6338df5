-- ===== src/Table.antt =====
-- A database table as the list of its rows, in the order of insertion, and the queries that the
-- sources make through Prisma: `where` is a test of a row and `data` a change of one.
use devispropre.Base.{
  some_not_none, false, is_some, ◌==◌, ◌⊎◌, ◌∙◌, sym, ℕ, ◌≤◌, leb, suc, ◌+◌, ◌≡◌, refl, ap, inl,
  inr, Bool, true, not, Option, none, some, List, [], ◌∷◌, ◌++◌, arith, ltb, if◌then◌else◌,
  Bool-cases, length, keep,
}

module _ {ℓ} {A : Type ℓ} where
  -- `findFirst`, `findUnique`
  unfoldable pub find_first : (A → Bool) → List A → Option A
  find_first p [] = none
  find_first p (x ∷ xs) = let rest = find_first p xs in if p x then some x else rest

  -- `count`; of `updateMany`, the count of the result
  unfoldable pub count : (A → Bool) → List A → ℕ
  count p [] = 0
  count p (x ∷ xs) = let rest = count p xs in if p x then suc rest else rest

  -- `update`, `updateMany`: the rows that pass the test are changed
  unfoldable pub update_many : (A → Bool) → (A → A) → List A → List A
  update_many p f [] = []
  update_many p f (x ∷ xs) = (if p x then f x else x) ∷ update_many p f xs

  -- `deleteMany`
  abbrev pub delete_many : (A → Bool) → List A → List A
  delete_many p xs = keep (λ x. not (p x)) xs

  -- The later of two rows by a key; of equal keys, the one inserted last.
  abbrev pub later : (A → ℕ) → A → Option A → A
  later key x none = x
  later key x (some y) = if ltb (key y) (key x) then x else y

  -- `findFirst` with `orderBy: { key: "desc" }`
  unfoldable pub find_last_by : (A → ℕ) → (A → Bool) → List A → Option A
  find_last_by key p [] = none
  find_last_by key p (x ∷ xs) =
      let rest = find_last_by key p xs in if p x then some (later key x rest) else rest

  pub find_first_passes :
      (p : A → Bool) (xs : List A) (a : A) → find_first p xs ≡ some a → p a ≡ true
  unfolding find_first
  find_first_passes p [] a h = cc
  find_first_passes p (x ∷ xs) a h = elim (Bool-cases (p x)) [
    | inl e ↦ ground (arith, e)
    | inr e ↦ find_first_passes p xs a (rw (e, find_first) at h)
  ]

  pub find_first-delete_many : (p : A → Bool) (xs : List A) → find_first p (delete_many p xs) ≡ none
  unfolding find_first
  find_first-delete_many p [] = refl
  find_first-delete_many p (x ∷ xs) = ground (arith, find_first-delete_many p xs)

  -- What is not there is not there after rows are dropped.
  pub find_first-keep-none :
      (p q : A → Bool) (xs : List A) → find_first p xs ≡ none → find_first p (keep q xs) ≡ none
  unfolding find_first
  find_first-keep-none p q [] h = h
  find_first-keep-none p q (x ∷ xs) h = elim (Bool-cases (p x)) [
    | inl e ↦ absurd (some_not_none x (rw e at h))
    | inr e ↦ ground (arith, e, find_first-keep-none p q xs (rw e at h))
  ]

  pub find_first-append_new :
      (p : A → Bool) (xs : List A) (a : A)
      → find_first p xs ≡ none
      → p a ≡ true
      → find_first p (xs ++ a ∷ []) ≡ some a
  unfolding find_first
  find_first-append_new p [] a h own = rw own refl
  find_first-append_new p (x ∷ xs) a h own = elim (Bool-cases (p x)) [
    | inl here ↦ absurd (some_not_none x (rw here at h))
    | inr later ↦
        rw (later, find_first) (find_first-append_new p xs a (rw (later, find_first) at h) own)
  ]

  -- The first row of a query leads the rows that pass.
  pub keep-find_first :
      (p : A → Bool) (xs : List A) (a : A)
      → find_first p xs ≡ some a
      → (rest : List A) × (keep p xs ≡ a ∷ rest)
  unfolding find_first
  keep-find_first p [] a h = absurd (cc)
  keep-find_first p (x ∷ xs) a h = elim (Bool-cases (p x)) [
    | inl e ↦ (keep p xs, rw e (ap (λ y. y ∷ keep p xs) (here x a (rw e at h))))
    | inr e ↦ rw e (keep-find_first p xs a (rw (e, find_first) at h))
  ]
    where
      here : (x a : A) → some x ≡ some a → x ≡ a
      here x a h = cc

  pub length-update_many :
      (p : A → Bool) (f : A → A) (xs : List A) → length (update_many p f xs) ≡ length xs
  unfolding update_many
  length-update_many p f [] = refl
  length-update_many p f (x ∷ xs) = ap suc (length-update_many p f xs)

  pub count-append : (p : A → Bool) (xs ys : List A) → count p (xs ++ ys) ≡ count p xs + count p ys
  unfolding count
  count-append p [] ys = omega arith
  count-append p (x ∷ xs) ys = ground (arith, count-append p xs ys)

  pub update_many_none :
      (p : A → Bool) (f : A → A) (xs : List A) → count p xs ≡ 0 → update_many p f xs ≡ xs
  unfolding update_many count
  update_many_none p f [] h = refl
  update_many_none p f (x ∷ xs) h = ground (arith, update_many_none p f xs)

  -- A change that keeps the test's value on every row leaves the counts alone.
  pub count-update_many :
      (q p : A → Bool) (f : A → A) (xs : List A)
      → ((x : A) → p x ≡ true → q (f x) ≡ q x)
      → count q (update_many p f xs) ≡ count q xs
  unfolding update_many count
  count-update_many q p f [] h = refl
  count-update_many q p f (x ∷ xs) h = ground (arith, h x, count-update_many q p f xs h)

  pub find_first-update_many :
      (q p : A → Bool) (f : A → A) (xs : List A)
      → ((x : A) → p x ≡ true → q (f x) ≡ q x)
      → find_first q (update_many p f xs)
        ≡ elim (find_first q xs) [ none ↦ none | some x ↦ some (if p x then f x else x) ]
  unfolding update_many find_first
  find_first-update_many q p f [] h = refl
  find_first-update_many q p f (x ∷ xs) h = ground (arith, h x, find_first-update_many q p f xs h)

  pub find_first-count :
      (q p : A → Bool) (xs : List A) (a : A)
      → find_first q xs ≡ some a
      → p a ≡ true
      → (count p xs == 0) ≡ false
  unfolding find_first count
  find_first-count q p [] a h k = cc
  find_first-count q p (x ∷ xs) a h k = elim (Bool-cases (q x)) [
    | inl e ↦ ground (arith, e, h, k)
    | inr e ↦
        let rest = find_first-count q p xs a (rw (e, find_first) at h) k in ground (arith, rest)
  ]

  found_later :
      (q : A → Bool) (x : A) (xs : List A)
      → is_some (find_first q xs) ≡ true
      → is_some (find_first q (x ∷ xs)) ≡ true
  unfolding find_first
  found_later q x xs h = ground (arith, h)

  found_now :
      (q : A → Bool) (x : A) (xs : List A) → q x ≡ true → is_some (find_first q (x ∷ xs)) ≡ true
  unfolding find_first
  found_now q x xs h = rw h refl

  later_cases :
      (key : A → ℕ) (x a : A) (o : Option A)
      → some (later key x o) ≡ some a
      → (x ≡ a) ⊎ (o ≡ some a)
  later_cases key x a none h = inl (cc)
  later_cases key x a (some y) h = ground (arith, h)

  pub find_last_by_passes :
      (key : A → ℕ) (p : A → Bool) (xs : List A) (a : A)
      → find_last_by key p xs ≡ some a
      → p a ≡ true
  unfolding find_last_by
  find_last_by_passes key p [] a h = cc
  find_last_by_passes key p (x ∷ xs) a h = elim (Bool-cases (p x)) [
    | inl mine ↦ elim (later_cases key x a (find_last_by key p xs) (rw mine at h)) [
      | inl here ↦ ap p (sym here) ∙ mine
      | inr rest ↦ find_last_by_passes key p xs a rest
    ]
    | inr other ↦ find_last_by_passes key p xs a (rw (other, find_last_by) at h)
  ]

  -- The last row of a query is found by a weaker query, after updates of other rows too.
  pub find_last_by-find_first :
      (key : A → ℕ) (p q : A → Bool) (test : A → Bool) (change : A → A) (xs : List A) (a : A)
      → find_last_by key p xs ≡ some a
      → ((x : A) → p x ≡ true → test x ≡ false)
      → q a ≡ true
      → is_some (find_first q (update_many test change xs)) ≡ true
  unfolding find_last_by find_first update_many
  find_last_by-find_first key p q test change [] a h k e = absurd (cc)
  find_last_by-find_first key p q test change (x ∷ xs) a h k e = elim (Bool-cases (p x)) [
    | inl mine ↦ elim (later_cases key x a (find_last_by key p xs) (rw mine at h)) [
      | inl here ↦ rw (k x mine) (found_now q x (update_many test change xs) (ap q here ∙ e))
      | inr rest ↦
          found_later q (if test x then change x else x) (update_many test change xs)
            (find_last_by-find_first key p q test change xs a rest k e)
    ]
    | inr other ↦
        found_later q (if test x then change x else x) (update_many test change xs)
          (find_last_by-find_first key p q test change xs a (rw (other, find_last_by) at h) k e)
  ]

module _ {ℓ} {A : Type ℓ} (key : A → ℕ) where
  unfoldable pub insert_by : A → List A → List A
  insert_by x [] = x ∷ []
  insert_by x (y ∷ ys) =
      let later = y ∷ insert_by x ys in if leb (key x) (key y) then x ∷ y ∷ ys else later

  -- `orderBy: { key: "asc" }`
  unfoldable pub order_by : List A → List A
  order_by [] = []
  order_by (x ∷ xs) = insert_by x (order_by xs)

  -- Every key is at least the one given.
  abbrev pub Above : ℕ → List A → Type 0
  Above m [] = Unit
  Above m (x ∷ xs) = (m ≤ key x) × Above m xs

  -- The keys do not fall.
  abbrev pub IsOrdered : List A → Type 0
  IsOrdered [] = Unit
  IsOrdered (x ∷ xs) = Above (key x) xs × IsOrdered xs

  insert_by-Above : (x : A) (xs : List A) → Above (key x) xs → insert_by x xs ≡ x ∷ xs
  unfolding insert_by
  insert_by-Above x [] h = refl
  insert_by-Above x (y ∷ ys) h = ground arith

  -- Rows in order stay as they are.
  pub order_by-IsOrdered : (xs : List A) → IsOrdered xs → order_by xs ≡ xs
  unfolding order_by
  order_by-IsOrdered [] h = refl
  order_by-IsOrdered (x ∷ xs) (a, h) = rw (order_by-IsOrdered xs h) (insert_by-Above x xs a)
