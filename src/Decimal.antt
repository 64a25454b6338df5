-- ===== src/Decimal.antt =====
-- `String(n)` of a whole number and `padStart`, and that the digits determine the number.
use devispropre.Base.{
  ℕ, zero, suc, ◌+◌, ◌-◌, ◌*◌, ◌/◌, ◌%◌, ◌≤◌, ◌<◌, ◌≡◌, refl, sym, ap, ◌∙◌, [], ◌∷◌, ◌++◌, arith,
  ltb, ltb→lt, if◌then◌else◌, Bool-cases, inl, inr, length, drop, head_or, All, All-append,
}
use devispropre.Text.{Text}

-- the digits of a number, most significant first; the fuel bounds their count
unfoldable pub decimal_fuel : ℕ → ℕ → Text
decimal_fuel zero n = []
decimal_fuel (suc f) n =
    let more = decimal_fuel f (n / 10) ++ (48 + n % 10) ∷ [] in
    if ltb n 10 then (48 + n) ∷ [] else more

unfoldable pub decimal : ℕ → Text
unfolding decimal_fuel
decimal n = decimal_fuel (suc n) n

unfoldable pub fill : ℕ → ℕ → Text → Text
fill zero c s = s
fill (suc k) c s = c ∷ fill k c s

-- `s.padStart(width, c)`
unfoldable pub pad_start : ℕ → ℕ → Text → Text
unfolding fill
pad_start width c s = fill (width - length s) c s

abbrev add_digit : ℕ → ℕ → ℕ
add_digit acc c = acc * 10 + (c - 48)

-- The number that a text of digits stands for.
value_from : ℕ → Text → ℕ
value_from acc [] = acc
value_from acc (c ∷ s) = value_from (add_digit acc c) s

value_from-append :
    (acc c : ℕ) (s : Text) → value_from acc (s ++ c ∷ []) ≡ add_digit (value_from acc s) c
unfolding value_from
value_from-append acc c [] = refl
value_from-append acc c (d ∷ s) = value_from-append (add_digit acc d) c s

value_from-decimal_fuel : (f n : ℕ) → n < f → value_from 0 (decimal_fuel f n) ≡ n
unfolding decimal_fuel
value_from-decimal_fuel zero n h = absurd (omega arith)
value_from-decimal_fuel (suc f) n h = elim (Bool-cases (ltb n 10)) [
  | inl e ↦ rw e (unfold value_from in omega arith)
  | inr e ↦
      rw (e, value_from-append)
        (let small : n / 10 < f = ground (arith, e) in
          let ih = value_from-decimal_fuel f (n / 10) small in omega (arith, ih))
]

value_from-decimal : (n : ℕ) → value_from 0 (decimal n) ≡ n
unfolding decimal
value_from-decimal n = value_from-decimal_fuel (suc n) n (omega arith)

value_from-fill : (k : ℕ) (s : Text) → value_from 0 (fill k b'0' s) ≡ value_from 0 s
unfolding fill value_from
value_from-fill zero s = refl
value_from-fill (suc k) s = value_from-fill k s

-- A padded number determines the number, at any width.
pub pad_start-decimal_injective :
    (width m k : ℕ) → pad_start width b'0' (decimal m) ≡ pad_start width b'0' (decimal k) → m ≡ k
unfolding pad_start
pad_start-decimal_injective width m k h =
    sym (value_from-decimal m)
    ∙ sym (value_from-fill (width - length (decimal m)) (decimal m))
    ∙ ap (value_from 0) h
    ∙ value_from-fill (width - length (decimal k)) (decimal k)
    ∙ value_from-decimal k

pub decimal_injective : (m k : ℕ) → decimal m ≡ decimal k → m ≡ k
decimal_injective m k h = sym (value_from-decimal m) ∙ ap (value_from 0) h ∙ value_from-decimal k

abbrev pub IsDigit : ℕ → Type 0
IsDigit c = (48 ≤ c) × (c < 58)

decimal_fuel-IsDigit : (f n : ℕ) → All IsDigit (decimal_fuel f n)
unfolding decimal_fuel
decimal_fuel-IsDigit zero n = tt
decimal_fuel-IsDigit (suc f) n = elim (Bool-cases (ltb n 10)) [
  | inl e ↦ rw e ((omega arith, omega (arith, ltb→lt n 10 e)), tt)
  | inr e ↦
      rw e
        (All-append IsDigit _ _ (decimal_fuel-IsDigit f (n / 10)) ((omega arith, omega arith), tt))
]

pub decimal-IsDigit : (n : ℕ) → All IsDigit (decimal n)
unfolding decimal
decimal-IsDigit n = decimal_fuel-IsDigit (suc n) n

-- Digits and then a dash: the digits and what follows the dash are determined.
pub digits_then_dash :
    (s t r r' : Text)
    → All IsDigit s
    → All IsDigit t
    → s ++ (b'-' ∷ r) ≡ t ++ (b'-' ∷ r')
    → (s ≡ t) × (r ≡ r')
digits_then_dash [] [] r r' _ _ h = (refl, ap (drop 1) h)
digits_then_dash [] (d ∷ t) r r' _ k h =
    let e : ◌≡◌ {A = ℕ} b'-' d = ap (λ s. head_or s 0) h in absurd (omega (arith, k.0, e))
digits_then_dash (c ∷ s) [] r r' k _ h =
    let e : ◌≡◌ {A = ℕ} c b'-' = ap (λ s. head_or s 0) h in absurd (omega (arith, k.0, e))
digits_then_dash (c ∷ s) (d ∷ t) r r' k l h =
    let (e, e') = digits_then_dash s t r r' k.1 l.1 (ap (drop 1) h) in
    (cc (ap (λ u. head_or u 0) h), e')
