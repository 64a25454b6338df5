-- ===== src/World/Action.antt =====
-- A service: it reads and changes the state, and returns a value or throws. What was written
-- before a throw stays written, but in a transaction.
pub mod Keeps
pub mod Inversion
use devispropre.Base.{Bool, Option, none, some, if◌then◌else◌, List, [], ◌∷◌}
use devispropre.Accounts.{Error}
use devispropre.World.{World}

pub data Result (A : Type 0) : Type 0 where
  ok : A → Result A
  err : Error → Result A

abbrev pub Action : Type 0 → Type 0 → Type 0
Action D A = World D → Result A × World D

module _ {D A : Type 0} where
  unfoldable pub pure : A → Action D A
  pure a w = (ok a, w)

  unfoldable pub raise : Error → Action D A
  raise e w = (err e, w)

  unfoldable pub gets : (World D → A) → Action D A
  gets f w = (ok (f w), w)

  -- `if (!x) throw e`
  unfoldable pub or_raise : Option A → Error → Action D A
  unfolding pure raise
  or_raise none e = raise e
  or_raise (some a) _ = pure a

  -- what a transaction leaves, from its state before and after
  abbrev pub settle : World D → Result A × World D → Result A × World D
  settle before (ok a, after) = (ok a, after)
  settle before (err e, after) = (err e, before)

  -- `prisma.$transaction`: all or nothing
  unfoldable pub transaction : Action D A → Action D A
  transaction m w = settle w (m w)

unfoldable pub raise_if : {D : Type 0} → Bool → Error → Action D (Unit {0})
unfolding pure raise
raise_if c e = if c then raise e else pure tt

unfoldable pub modify : {D : Type 0} → (World D → World D) → Action D (Unit {0})
modify f w = (ok tt, f w)

module _ {D A B : Type 0} where
  abbrev pub continue : Result A → (A → Action D B) → Action D B
  continue (ok a) f w = f a w
  continue (err e) f w = (err e, w)

  infixl 5 ◌>>=◌ ◌>>◌
  -- opening this opens the actions above too
  unfoldable pub ◌>>=◌ : Action D A → (A → Action D B) → Action D B
  unfolding pure raise gets or_raise raise_if modify transaction
  ◌>>=◌ m f w = let (r, w') = m w in continue r f w'

  abbrev pub ◌>>◌ : Action D A → Action D B → Action D B
  m >> k = m >>= λ _. k

module _ {D A : Type 0} where
  abbrev pub clean_up : Action D (Unit {0}) → Result A × World D → Result A × World D
  clean_up cleanup (ok a, w) = (ok a, w)
  clean_up cleanup (err e, w) = (err e, (cleanup w).1)

  -- `catch (err) { clean up; throw err }`
  unfoldable pub on_error : Action D A → Action D (Unit {0}) → Action D A
  on_error m cleanup w = clean_up cleanup (m w)

module _ {D A : Type 0} where
  -- `for (const x of xs) await f(x)`
  unfoldable pub for_each : (A → Action D (Unit {0})) → List A → Action D (Unit {0})
  unfolding pure ◌>>=◌
  for_each f [] = pure tt
  for_each f (x ∷ xs) = f x >> for_each f xs

  -- `try`, with the result as a value
  unfoldable pub attempt : Action D A → Action D (Result A)
  attempt m w = let (r, w') = m w in (ok r, w')
