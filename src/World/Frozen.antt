-- ===== src/World/Frozen.antt =====
-- Tables in which the content of some rows is frozen: it stays, and so does the row.
use devispropre.Base.{
  ◌≡◌, refl, ◌∙◌, Bool, true, Option, none, some, List, [], ◌∷◌, ◌++◌, Bool-cases, inl, inr,
}
use devispropre.Table.{update_many}

module _ {C : Type 0} where
  -- What was frozen stays, with the same content.
  abbrev pub Persists : Option C → Option C → Type 0
  Persists none o = Unit
  Persists (some c) o = o ≡ some c

  pub Persists-refl : (o : Option C) → Persists o o
  Persists-refl none = tt
  Persists-refl (some c) = refl

  pub Persists-trans : (o p q : Option C) → Persists o p → Persists p q → Persists o q
  Persists-trans none p q h k = tt
  Persists-trans (some c) none q h k = cc
  Persists-trans (some c) (some d) q h k = k ∙ h

-- What is frozen of a row, if it is.
module _ {A C : Type 0} (frozen : A → Option C) where
  -- Row by row; rows may be added.
  abbrev pub Frozen : List A → List A → Type 0
  Frozen [] ys = Unit
  Frozen (x ∷ xs) [] = ⊥
  Frozen (x ∷ xs) (y ∷ ys) = Persists (frozen x) (frozen y) × Frozen xs ys

  pub Frozen-refl : (xs : List A) → Frozen xs xs
  Frozen-refl [] = tt
  Frozen-refl (x ∷ xs) = (Persists-refl (frozen x), Frozen-refl xs)

  pub Frozen-trans : (xs ys zs : List A) → Frozen xs ys → Frozen ys zs → Frozen xs zs
  Frozen-trans [] ys zs h k = tt
  Frozen-trans (x ∷ xs) [] zs h k = absurd h
  Frozen-trans (x ∷ xs) (y ∷ ys) [] h k = absurd k
  Frozen-trans (x ∷ xs) (y ∷ ys) (z ∷ zs) (h, hs) (k, ks) =
      (Persists-trans (frozen x) (frozen y) (frozen z) h k, Frozen-trans xs ys zs hs ks)

  pub Frozen-append : (xs ys : List A) → Frozen xs (xs ++ ys)
  Frozen-append [] ys = tt
  Frozen-append (x ∷ xs) ys = (Persists-refl (frozen x), Frozen-append xs ys)

  pub Frozen-update_many :
      (test : A → Bool) (change : A → A) (xs : List A)
      → ((d : A) → test d ≡ true → Persists (frozen d) (frozen (change d)))
      → Frozen xs (update_many test change xs)
  unfolding update_many
  Frozen-update_many test change [] h = tt
  Frozen-update_many test change (x ∷ xs) h = elim (Bool-cases (test x)) [
    | inl e ↦ rw e (h x e, Frozen-update_many test change xs h)
    | inr e ↦ rw e (Persists-refl (frozen x), Frozen-update_many test change xs h)
  ]
