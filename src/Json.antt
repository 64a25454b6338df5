-- ===== src/Json.antt =====
-- `canonicalize` of src/lib/crypto.ts: the text of a value that the hashes are taken of, with the
-- keys of every object in order. `JSON.stringify` of texts and literals is the language's.
pub mod Quote
pub mod Normal
pub mod Printable
pub mod Pieces
pub mod Unique
use devispropre.Base.{
  ℕ, suc, ◌+◌, ◌/◌, ◌%◌, ◌≡◌, refl, Bool, true, false, ◌&&◌, ◌||◌, List, [], ◌∷◌, ◌++◌, ltb, leb,
  ◌==◌, if◌then◌else◌,
}
use devispropre.Text.{Text, codes}
use devispropre.Money.{Number}

-- What `typeof` tells apart; the fields of an object in the order of `Object.keys`.
mutual
  pub data Value (D : Type 0) : Type 0 where
    undefined : Value D
    null : Value D
    bool : Bool → Value D
    num : D → Value D
    str : Text → Value D
    arr : Items D → Value D
    obj : Fields D → Value D

  pub data Items (D : Type 0) : Type 0 where
    nil : Items D
    cons : Value D → Items D → Items D

  pub data Fields (D : Type 0) : Type 0 where
    end : Fields D
    field : Text → Value D → Fields D → Fields D

abbrev pub hex_digit : ℕ → ℕ
hex_digit d = if ltb d 10 then 48 + d else 87 + d

-- `\uXXXX`
unfoldable pub unicode_escape : ℕ → Text
unicode_escape c =
    92
    ∷ b'u'
    ∷ hex_digit (c / 4096 % 16)
    ∷ hex_digit (c / 256 % 16)
    ∷ hex_digit (c / 16 % 16)
    ∷ hex_digit (c % 16)
    ∷ []

-- One character of a quoted text: control characters and lone surrogates are escaped.
unfoldable pub escape : ℕ → Text
escape c =
    if c == 34
    then 92 ∷ 34 ∷ []
    else if c == 92
    then 92 ∷ 92 ∷ []
    else if c == 8
    then 92 ∷ b'b' ∷ []
    else if c == 12
    then 92 ∷ b'f' ∷ []
    else if c == 10
    then 92 ∷ b'n' ∷ []
    else if c == 13
    then 92 ∷ b'r' ∷ []
    else if c == 9
    then 92 ∷ b't' ∷ []
    else if ltb c 32 || (leb 0xd800 c && leb c 0xdfff)
    then unicode_escape c
    else c ∷ []

unfoldable pub escape_all : Text → Text
escape_all [] = []
escape_all (c ∷ s) = escape c ++ escape_all s

-- `JSON.stringify(s)`
unfoldable pub quote : Text → Text
unfolding escape_all
quote s = 34 ∷ (escape_all s ++ 34 ∷ [])

-- `<` on texts
unfoldable pub text_lt : Text → Text → Bool
text_lt _ [] = false
text_lt [] (_ ∷ _) = true
text_lt (a ∷ s) (b ∷ t) = ltb a b || (a == b && text_lt s t)

-- `Object.keys(obj).sort()`, each key with the text of its value
unfoldable pub insert_pair : Text → Text → List (Text × Text) → List (Text × Text)
insert_pair k v [] = (k, v) ∷ []
insert_pair k v ((j, w) ∷ rest) =
    let later = (j, w) ∷ insert_pair k v rest in
    if text_lt j k then later else (k, v) ∷ (j, w) ∷ rest

unfoldable pub sort_pairs : List (Text × Text) → List (Text × Text)
unfolding insert_pair
sort_pairs [] = []
sort_pairs ((k, v) ∷ rest) = insert_pair k v (sort_pairs rest)

-- `join(",")`
unfoldable pub join : List Text → Text
join [] = []
join (s ∷ []) = s
join (s ∷ t ∷ rest) = s ++ (b',' ∷ join (t ∷ rest))

unfoldable pub pair_texts : List (Text × Text) → List Text
pair_texts [] = []
pair_texts ((k, v) ∷ rest) = (quote k ++ (b':' ∷ v)) ∷ pair_texts rest

-- `join` writes `undefined` as the empty text
abbrev pub element : {D : Type 0} → Value D → Text → Text
element undefined text = []
element _ text = text

abbrev pub bool_text : Bool → Text
bool_text true = codes "true"
bool_text false = codes "false"

module _ {D : Type 0} (n : Number D) where
  unfoldable mutual
    unfolding quote join pair_texts sort_pairs

    -- The text, as a template literal reads it where the value is `undefined`.
    pub canonicalize : Value D → Text
    canonicalize undefined = codes "undefined"
    canonicalize null = codes "null"
    canonicalize (bool b) = bool_text b
    canonicalize (num a) = n.print a
    canonicalize (str s) = quote s
    canonicalize (arr xs) = b'[' ∷ (join (canonicalize_items xs) ++ b']' ∷ [])
    canonicalize (obj fs) =
        b'{' ∷ (join (pair_texts (sort_pairs (canonicalize_fields fs))) ++ b'}' ∷ [])

    pub canonicalize_items : Items D → List Text
    canonicalize_items nil = []
    canonicalize_items (cons x xs) = element x (canonicalize x) ∷ canonicalize_items xs

    pub canonicalize_fields : Fields D → List (Text × Text)
    canonicalize_fields end = []
    canonicalize_fields (field k v fs) = (k, canonicalize v) ∷ canonicalize_fields fs
