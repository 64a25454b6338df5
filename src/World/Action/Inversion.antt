-- ===== src/World/Action/Inversion.antt =====
-- A sequence of actions that returns: its parts returned.
use devispropre.Base.{◌≡◌, refl}
use devispropre.Accounts.{Error}
use devispropre.World.{World}
use devispropre.World.Action.{Result, ok, err, Action, continue, ◌>>=◌}

err_no_ok : {A : Type 0} (e : Error) (a : A) → ◌≡◌ {A = Result A} (err e) (ok a) → ⊥
err_no_ok e a h = cc

pub of_ok : {A : Type 0} (a b : A) → ◌≡◌ {A = Result A} (ok a) (ok b) → a ≡ b
of_ok a b h = cc

module _ {D A B : Type 0} where
  continue_ok :
      (r : Result A) (f : A → Action D B) (w : World D) (b : B)
      → (continue r f w).0 ≡ ok b
      → (a : A) × (r ≡ ok a) × (continue r f w ≡ f a w)
  continue_ok (ok a) f w b h = (a, refl, refl)
  continue_ok (err e) f w b h = absurd (err_no_ok e b h)

  pub bind_ok :
      (m : Action D A) (f : A → Action D B) (w : World D) (b : B)
      → ((m >>= f) w).0 ≡ ok b
      → (a : A) × ((m w).0 ≡ ok a) × ((m >>= f) w ≡ f a (m w).1)
  unfolding ◌>>=◌
  bind_ok m f w b h = let (r, w') = m w in continue_ok r f w' b h
