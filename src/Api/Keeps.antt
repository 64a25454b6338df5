-- ===== src/Api/Keeps.antt =====
-- What the checks of a route leave alone, and what comes after them.
use devispropre.Base.{ℕ, ◌≡◌, List}
use devispropre.Text.{Text}
use devispropre.RateLimit.{Limit, Bucket}
use devispropre.World.{World}
use devispropre.World.Action.{ok, Action, ◌>>=◌}
use devispropre.World.Action.Inversion.{bind_ok}
use devispropre.World.Action.Keeps.{Keeps, Keeps-modify, Keeps-gets, Keeps-bind, Keeps-raise_if}
use devispropre.Api.{limit_calls}

module _ {D : Type 0} {P : World D → Type 0} where
  -- A property that does not read the counts of calls survives a check of a limit.
  pub Keeps-limit_calls :
      ((w : World D) (rows : List Bucket) → P w → P (record w { buckets = rows }))
      → (key : Text) (limit : Limit) (now : ℕ) → Keeps P (limit_calls key limit now)
  unfolding limit_calls
  Keeps-limit_calls free key limit now =
      Keeps-bind _ _ (Keeps-gets _)
        (λ a. Keeps-bind _ _ (Keeps-modify _ (λ w. free w _)) (λ _. Keeps-raise_if _ _))

  -- A sequence that returns: its second part returned, on a state with the property.
  pub bind_kept :
      {A B : Type 0}
      → (m : Action D A) (f : A → Action D B) (w : World D) (b : B) → Keeps P m
      → P w
      → ((m >>= f) w).0 ≡ ok b
      → (a : A) × ((m w).0 ≡ ok a) × ((f a (m w).1).0 ≡ ok b) × P (m w).1
  bind_kept m f w b kept holds h =
      let (a, done, same) = bind_ok m f w b h in (a, done, rw same at h, kept.at w holds)

module _ {D : Type 0} where
  -- of a sequence that returns, only what the rest leaves counts
  pub after :
      {A B : Type 0}
      → (m : Action D A) (f : A → Action D B) (w : World D) (b : B) (Q : World D → Type 0)
      → ((m >>= f) w).0 ≡ ok b
      → ((a : A) → (m w).0 ≡ ok a → (f a (m w).1).0 ≡ ok b → Q (f a (m w).1).1)
      → Q ((m >>= f) w).1
  after m f w b Q h k = let (a, done, same) = bind_ok m f w b h in rw same (k a done (rw same at h))
