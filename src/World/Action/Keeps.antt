-- ===== src/World/Action/Keeps.antt =====
-- Invariants of actions, one rule for each way to build an action.
use devispropre.Base.{Bool, true, false, Option, none, some, List, [], ◌∷◌, if◌then◌else◌}
use devispropre.Accounts.{Error}
use devispropre.World.{World}
use devispropre.World.Action.{
  Result, ok, err, Action, pure, raise, gets, or_raise, settle, transaction, raise_if, modify,
  continue, ◌>>=◌, clean_up, on_error, for_each, attempt,
}

-- Whether it returns or throws, the action keeps `P`.
pub record Keeps {D A : Type 0} (P : World D → Type 0) (m : Action D A) : Type 0 where
  pub at : (w : World D) → P w → P (m w).1

module _ {D A : Type 0} where
  settle-P :
      (Q : World D → Type 0) (w : World D) (r : Result A × World D) → Q w → Q r.1 → Q (settle w r).1
  settle-P Q w (ok a, w') h k = k
  settle-P Q w (err e, w') h k = h

module _ {D A : Type 0} {P : World D → Type 0} where
  pub Keeps-pure : (a : A) → Keeps P (pure a)
  unfolding pure
  Keeps-pure a = record { at = λ w h. h }

  pub Keeps-raise : (e : Error) → Keeps P (raise {A = A} e)
  unfolding raise
  Keeps-raise e = record { at = λ w h. h }

  pub Keeps-gets : (f : World D → A) → Keeps P (gets f)
  unfolding gets
  Keeps-gets f = record { at = λ w h. h }

  pub Keeps-or_raise : (o : Option A) (e : Error) → Keeps P (or_raise o e)
  unfolding or_raise
  Keeps-or_raise none e = record { at = λ w h. h }
  Keeps-or_raise (some a) e = record { at = λ w h. h }

  pub Keeps-if :
      (b : Bool) (m n : Action D A) → Keeps P m → Keeps P n → Keeps P (if b then m else n)
  Keeps-if true m n km kn = km
  Keeps-if false m n km kn = kn

  pub Keeps-transaction : (m : Action D A) → Keeps P m → Keeps P (transaction m)
  unfolding transaction
  Keeps-transaction m km = record { at = λ w h. settle-P P w (m w) h (km.at w h) }

  clean_up-P :
      (cleanup : Action D (Unit {0})) (r : Result A × World D)
      → Keeps P cleanup
      → P r.1
      → P (clean_up cleanup r).1
  clean_up-P cleanup (ok a, w) k h = h
  clean_up-P cleanup (err e, w) k h = k.at w h

  pub Keeps-on_error :
      (m : Action D A) (cleanup : Action D (Unit {0}))
      → Keeps P m
      → Keeps P cleanup
      → Keeps P (on_error m cleanup)
  unfolding on_error
  Keeps-on_error m cleanup km kc = record { at = λ w h. clean_up-P cleanup (m w) kc (km.at w h) }

module _ {D : Type 0} {P : World D → Type 0} where
  pub Keeps-raise_if : (c : Bool) (e : Error) → Keeps P (raise_if c e)
  unfolding raise_if
  Keeps-raise_if true e = record { at = λ w h. h }
  Keeps-raise_if false e = record { at = λ w h. h }

  pub Keeps-modify : (f : World D → World D) → ((w : World D) → P w → P (f w)) → Keeps P (modify f)
  unfolding modify
  Keeps-modify f h = record { at = h }

module _ {D A B : Type 0} {P : World D → Type 0} where
  continue-P :
      (r : Result A) (f : A → Action D B) (w : World D)
      → ((a : A) → Keeps P (f a))
      → P w
      → P (continue r f w).1
  continue-P (ok a) f w kf h = (kf a).at w h
  continue-P (err e) f w kf h = h

  pub Keeps-bind :
      (m : Action D A) (f : A → Action D B)
      → Keeps P m
      → ((a : A) → Keeps P (f a))
      → Keeps P (m >>= f)
  unfolding ◌>>=◌
  Keeps-bind m f km kf = record {
    at = λ w h. let (r, w') = m w in continue-P r f w' kf (km.at w h);
  }

module _ {D A : Type 0} {P : World D → Type 0} where
  pub Keeps-for_each :
      (f : A → Action D (Unit {0})) (xs : List A)
      → ((x : A) → Keeps P (f x))
      → Keeps P (for_each f xs)
  unfolding for_each
  Keeps-for_each f [] h = Keeps-pure tt
  Keeps-for_each f (x ∷ xs) h = Keeps-bind _ _ (h x) (λ _. Keeps-for_each f xs h)

  pub Keeps-attempt : (m : Action D A) → Keeps P m → Keeps P (attempt m)
  unfolding attempt
  Keeps-attempt m km = record { at = λ w h. km.at w h }

pub ruleset keeps_rules = (
  Keeps-pure, Keeps-raise, Keeps-gets, Keeps-or_raise, Keeps-if, Keeps-transaction, Keeps-on_error,
  Keeps-raise_if, Keeps-bind,
)
