-- ===== src/Json/Quote.antt =====
-- A quoted text is self-delimiting: it can be read back, whatever follows it.
use devispropre.Base.{
  ℕ, ◌+◌, ◌-◌, ◌*◌, ◌/◌, ◌%◌, ◌<◌, ◌≡◌, refl, sym, ap, ◌∙◌, ◌≢◌, [], ◌∷◌, ◌++◌, arith, ltb, ◌==◌,
  if◌then◌else◌, head_or, drop,
}
use mathlib.Core.List.{append_assoc}
use devispropre.Text.{Text}
use devispropre.Json.{hex_digit, unicode_escape, escape, escape_all, quote}

abbrev unhex : ℕ → ℕ
unhex d = if ltb d 58 then d - 48 else d - 87

-- The first character that a quoted text stands for, and the rest of the text.
decode_escaped : Text → ℕ × Text
decode_escaped [] = (0, [])
decode_escaped (e ∷ rest) =
    if e == b'b'
    then (8, rest)
    else if e == b'f'
    then (12, rest)
    else if e == b'n'
    then (10, rest)
    else if e == b'r'
    then (13, rest)
    else if e == b't'
    then (9, rest)
    else if e == b'u'
    then (
      unhex (head_or rest 0) * 4096
          + unhex (head_or (drop 1 rest) 0) * 256
          + unhex (head_or (drop 2 rest) 0) * 16
          + unhex (head_or (drop 3 rest) 0),
      drop 4 rest,
    )
    else (e, rest)

decode : Text → ℕ × Text
unfolding decode_escaped
decode [] = (0, [])
decode (c ∷ rest) = if c == 92 then decode_escaped rest else (c, rest)

unhex-hex_digit : (d : ℕ) → d < 16 → unhex (hex_digit d) ≡ d
unhex-hex_digit d h = ground arith

hex_sum :
    (c : ℕ)
    → c < 0x10000
    → c / 4096 % 16 * 4096 + c / 256 % 16 * 256 + c / 16 % 16 * 16 + c % 16 ≡ c
hex_sum c h = omega arith

decode-unicode_escape : (c : ℕ) (r : Text) → c < 0x10000 → decode (unicode_escape c ++ r) ≡ (c, r)
unfolding decode unicode_escape
decode-unicode_escape c r h = rw (
  unhex-hex_digit (c / 4096 % 16) (omega arith),
  unhex-hex_digit (c / 256 % 16) (omega arith),
  unhex-hex_digit (c / 16 % 16) (omega arith),
  unhex-hex_digit (c % 16) (omega arith),
  hex_sum c h,
)

decode-escape : (c : ℕ) (r : Text) → decode (escape c ++ r) ≡ (c, r)
unfolding escape decode
decode-escape c r = ground (arith, decode-unicode_escape c r)

-- The head of a text that `escape` wrote is no quotation mark.
escape-ne-quote : (c : ℕ) (r : Text) → head_or (escape c ++ r) 0 ≢ 34
unfolding escape unicode_escape
escape-ne-quote c r = ground arith

escape_injective : (c d : ℕ) (r r' : Text) → escape c ++ r ≡ escape d ++ r' → (c ≡ d) × (r ≡ r')
escape_injective c d r r' e =
    let p : ◌≡◌ {A = ℕ × Text} (c, r) (d, r') =
      sym (decode-escape c r) ∙ ap decode e ∙ decode-escape d r' in
    (ap (λ q. q.0) p, ap (λ q. q.1) p)

escape_all_injective :
    (s t r r' : Text) → escape_all s ++ (34 ∷ r) ≡ escape_all t ++ (34 ∷ r') → (s ≡ t) × (r ≡ r')
unfolding escape_all
escape_all_injective [] [] r r' e = (refl, ap (drop 1) e)
escape_all_injective [] (d ∷ t) r r' e = absurd (
    escape-ne-quote d (escape_all t ++ (34 ∷ r'))
      (ap (λ u. head_or u 0) (sym (e ∙ append_assoc (escape d) (escape_all t) (34 ∷ r')))))
escape_all_injective (c ∷ s) [] r r' e = absurd (
    escape-ne-quote c (escape_all s ++ (34 ∷ r))
      (ap (λ u. head_or u 0) (sym (append_assoc (escape c) (escape_all s) (34 ∷ r)) ∙ e)))
escape_all_injective (c ∷ s) (d ∷ t) r r' e =
    let (same, rest) = escape_injective c d (escape_all s ++ (34 ∷ r)) (escape_all t ++ (34 ∷ r')) (
      sym (append_assoc (escape c) (escape_all s) (34 ∷ r))
      ∙ e
      ∙ append_assoc (escape d) (escape_all t) (34 ∷ r')) in
    let (tails, ends) = escape_all_injective s t r r' rest in (cc (same), ends)

-- Two quoted texts, each with something after it, that agree as a whole: so do the texts, and
-- what follows them.
pub quote_injective : (s t r r' : Text) → quote s ++ r ≡ quote t ++ r' → (s ≡ t) × (r ≡ r')
unfolding quote
quote_injective s t r r' e = escape_all_injective s t r r' (
    sym (append_assoc (escape_all s) (34 ∷ []) r)
    ∙ ap (drop 1) e
    ∙ append_assoc (escape_all t) (34 ∷ []) r')
