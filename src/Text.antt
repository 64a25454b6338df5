-- ===== src/Text.antt =====
-- JavaScript strings as sequences of code points; a lone surrogate is a code point of its own.
-- `slice` counts UTF-16 units, as the language does.
use Prim.Native.Char.{code}
use Prim.Native.String.{String}
use devispropre.Base.{
  ℕ, zero, suc, ◌+◌, ◌/◌, ◌≡◌, refl, ◌↔◌, Bool, true, false, ◌&&◌, ◌||◌, Option, none, some, List,
  [], ◌∷◌, ◌++◌, arith, ltb, leb, ◌==◌, if◌then◌else◌, &&-true, ==_iff,
}

abbrev pub Text : Type 0
Text = List ℕ

-- A text literal of the sources.
abbrev pub codes : String → Text
codes String.[] = []
codes (String.◌∷◌ c s) = code c ∷ codes s

-- `a === b`
unfoldable pub text_eq : Text → Text → Bool
text_eq [] [] = true
text_eq [] (_ ∷ _) = false
text_eq (_ ∷ _) [] = false
text_eq (a ∷ s) (b ∷ t) = a == b && text_eq s t

pub text_eq_sound : (s t : Text) → text_eq s t ≡ true → s ≡ t
unfolding text_eq
text_eq_sound [] [] h = refl
text_eq_sound [] (_ ∷ _) h = cc
text_eq_sound (_ ∷ _) [] h = cc
text_eq_sound (a ∷ s) (b ∷ t) h =
    let (e, r) = &&-true (a == b) (text_eq s t) h in cc ((==_iff a b).0 e, text_eq_sound s t r)

pub text_eq_refl : (s : Text) → text_eq s s ≡ true
unfolding text_eq
text_eq_refl [] = refl
text_eq_refl (a ∷ s) = ground (arith, text_eq_refl s)

pub text_eq_iff : (s t : Text) → (text_eq s t ≡ true) ↔ (s ≡ t)
text_eq_iff s t = (text_eq_sound s t, λ e. ground (arith, text_eq_refl s))

-- An empty string is falsy.
abbrev pub is_empty : Text → Bool
is_empty [] = true
is_empty (_ ∷ _) = false

-- `s` where it is tested as a condition: `null` and the empty string fail.
abbrev pub truthy : Option Text → Option Text
truthy none = none
truthy (some s) = if is_empty s then none else some s

-- `s.length`: a character outside the basic plane has two units.
unfoldable pub units : Text → ℕ
units [] = 0
units (c ∷ s) = let rest = units s in if ltb c 0x10000 then rest + 1 else rest + 2

-- `s.slice(0, n)`: the units of a character outside the basic plane are two, and a cut between
-- them leaves its high surrogate.
unfoldable pub slice_to : ℕ → Text → Text
slice_to n [] = []
slice_to zero (_ ∷ _) = []
slice_to (suc zero) (c ∷ s) = if ltb c 0x10000 then c ∷ [] else (0xd7c0 + c / 1024) ∷ []
slice_to (suc (suc n)) (c ∷ s) =
    let one = c ∷ slice_to (suc n) s in
    let two = c ∷ slice_to n s in if ltb c 0x10000 then one else two

-- `s.startsWith(p)`
unfoldable pub starts_with : Text → Text → Bool
starts_with _ [] = true
starts_with [] (_ ∷ _) = false
starts_with (c ∷ s) (d ∷ p) = c == d && starts_with s p

-- `s.includes(p)`
unfoldable pub includes : Text → Text → Bool
unfolding starts_with
includes [] p = starts_with [] p
includes (c ∷ s) p = starts_with (c ∷ s) p || includes s p

-- The white space that `trim` removes and `\s` matches.
unfoldable pub is_space : ℕ → Bool
is_space c =
    (leb 9 c && leb c 13)
    || c == 32
    || c == 0xa0
    || c == 0x1680
    || (leb 0x2000 c && leb c 0x200a)
    || c == 0x2028
    || c == 0x2029
    || c == 0x202f
    || c == 0x205f
    || c == 0x3000
    || c == 0xfeff

unfoldable pub trim_start : Text → Text
unfolding is_space
trim_start [] = []
trim_start (c ∷ s) = let rest = trim_start s in if is_space c then rest else c ∷ s

-- Drops the white space at the end.
unfoldable pub trim_end : Text → Text
unfolding is_space
trim_end [] = []
trim_end (c ∷ s) = let rest = trim_end s in if is_space c && is_empty rest then [] else c ∷ rest

-- `s.trim()`
unfoldable pub trim : Text → Text
unfolding trim_start trim_end
trim s = trim_end (trim_start s)

slice_between_surrogates : slice_to 2 (97 ∷ 0x1f4c4 ∷ []) ≡ 97 ∷ 0xd83d ∷ []
unfolding slice_to
slice_between_surrogates = refl

trim_both_ends : trim (codes "  Bon pour accord ") ≡ codes "Bon pour accord"
unfolding trim
trim_both_ends = refl

pub starts_with-append : (p s : Text) → starts_with (p ++ s) p ≡ true
unfolding starts_with
starts_with-append [] [] = refl
starts_with-append [] (c ∷ s) = refl
starts_with-append (d ∷ p) s = ground (arith, starts_with-append p s)

pub includes-append_left : (s t p : Text) → includes t p ≡ true → includes (s ++ t) p ≡ true
unfolding includes
includes-append_left [] t p h = h
includes-append_left (c ∷ s) t p h = ground (arith, includes-append_left s t p h)
