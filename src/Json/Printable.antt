-- ===== src/Json/Printable.antt =====
-- The values that have a text, and what the language says of the texts of numbers.
use devispropre.Base.{ℕ, ◌≡◌, Bool, true, false, ◌&&◌, ◌||◌, leb, ◌==◌, all}
use devispropre.Text.{is_empty}
use devispropre.Money.{Number}
use devispropre.Json.{
  Value, undefined, null, bool, num, str, arr, obj, Items, nil, cons, Fields, end, field,
}

-- The characters of `JSON.stringify` of a finite number.
abbrev pub is_number_char : ℕ → Bool
is_number_char c =
    (leb b'0' c && leb c b'9') || (c == b'-' || (c == b'+' || (c == b'.' || c == b'e')))

-- What the language says of the texts of finite numbers.
pub record PrintsNumbers {D : Type 0} (n : Number D) (Finite : D → Type 0) : Type 0 where
  pub number_chars : (a : D) → Finite a → all is_number_char (n.print a) ≡ true
  pub number_text : (a : D) → Finite a → is_empty (n.print a) ≡ false
  pub number_injective : (a b : D) → Finite a → Finite b → n.print a ≡ n.print b → a ≡ b
  pub nat_finite : (k : ℕ) → Finite (n.nat k)
  pub nat_injective : (k m : ℕ) → n.nat k ≡ n.nat m → k ≡ m

module _ {D : Type 0} (Finite : D → Type 0) where
  unfoldable mutual
    -- Finite numbers, and no `undefined`.
    pub IsPrintable : Value D → Type 0
    IsPrintable undefined = ⊥
    IsPrintable null = Unit
    IsPrintable (bool b) = Unit
    IsPrintable (num a) = Finite a
    IsPrintable (str s) = Unit
    IsPrintable (arr xs) = ArePrintable xs
    IsPrintable (obj fs) = HavePrintable fs

    pub ArePrintable : Items D → Type 0
    ArePrintable nil = Unit
    ArePrintable (cons x xs) = IsPrintable x × ArePrintable xs

    pub HavePrintable : Fields D → Type 0
    HavePrintable end = Unit
    HavePrintable (field k v fs) = IsPrintable v × HavePrintable fs
