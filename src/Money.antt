-- ===== src/Money.antt =====
-- What the sources do with JavaScript numbers that are amounts, quantities and rates
-- (src/lib/tva.ts, src/lib/numbers.ts, src/lib/crypto.ts): a type with the operations and no
-- laws but those named where they are used. Sequence numbers and times are naturals instead.
use devispropre.Base.{ℕ, suc, ◌+◌, ◌*◌, ◌/◌, ◌≡◌, Bool, true, [], ◌∷◌, ◌==◌, ==_refl}
use devispropre.Text.{Text}

pub record Number (D : Type 0) : Type 0 where
  -- the literals of the sources: whole numbers, and 5.5
  pub nat : ℕ → D
  pub five_and_half : D
  pub add : D → D → D
  pub mul : D → D → D
  pub div : D → D → D
  -- `Math.round`
  pub round : D → D
  -- `===`
  pub same : D → D → Bool
  -- `JSON.stringify`
  pub print : D → Text

-- A literal is `===` itself.
pub record IsReflexive {D : Type 0} (n : Number D) : Type 0 where
  pub nat_same : (k : ℕ) → n.same (n.nat k) (n.nat k) ≡ true

-- one more "1" than the number
abbrev pub replicate_one : ℕ → Text
replicate_one k = elim k [
  | Prim.Native.Nat.zero ↦ b'1' ∷ []
  | Prim.Native.Nat.suc (_ → ih) ↦ b'1' ∷ ih
]

-- Thousandths in ℕ have all that is asked of numbers.
abbrev pub thousandths : Number ℕ
thousandths = record {
  nat = λ k. k * 1000;
  five_and_half = 5500;
  add = λ a b. a + b;
  mul = λ a b. a * b / 1000;
  div = λ a b. a * 1000 / b;
  round = λ a. (a + 500) / 1000 * 1000;
  same = λ a b. a == b;
  print = replicate_one;
}

pub thousandths-IsReflexive : IsReflexive thousandths
thousandths-IsReflexive = record { nat_same = λ k. ==_refl (k * 1000) }
