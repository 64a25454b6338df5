-- ===== src/Json/Pieces.antt =====
-- How the printed text of a value begins, and what stands between its pieces.
use devispropre.Base.{
  ℕ, ◌≡◌, refl, sym, ap, ◌∙◌, ◌≢◌, Bool, true, false, not, ◌||◌, [], ◌∷◌, ◌++◌, arith, ◌==◌,
  if◌then◌else◌, all, head_or, drop, &&-true,
}
use mathlib.Core.List.{append_assoc}
use devispropre.Text.{Text, is_empty}
use devispropre.Money.{Number}
use devispropre.Json.{
  Value, undefined, null, bool, num, str, arr, obj, Items, nil, cons, Fields, end, field, quote,
  join, pair_texts, element, bool_text,
}
use devispropre.Json.Printable.{is_number_char, PrintsNumbers, IsPrintable}
use devispropre.Json.Normal.{print, print_items, print_fields}

-- What may stand after a number.
abbrev pub stops : Text → Bool
stops [] = true
stops (c ∷ _) = not (is_number_char c)

pub split_run :
    (s t r r' : Text)
    → all is_number_char s ≡ true
    → all is_number_char t ≡ true
    → stops r ≡ true
    → stops r' ≡ true
    → s ++ r ≡ t ++ r'
    → (s ≡ t) × (r ≡ r')
split_run [] [] r r' _ _ _ _ e = (refl, e)
split_run [] (d ∷ t) [] r' _ hd hr _ e = cc
split_run [] (d ∷ t) (c ∷ r) r' _ hd hr _ e =
    let same : c ≡ d = ap (λ u. head_or u 0) e in ground (arith, same)
split_run (c ∷ s) [] r [] hc _ _ hr e = cc
split_run (c ∷ s) [] r (d ∷ r') hc _ _ hr e =
    let same : c ≡ d = ap (λ u. head_or u 0) e in ground (arith, same)
split_run (c ∷ s) (d ∷ t) r r' hc hd hr hr' e =
    let same : c ≡ d = ap (λ u. head_or u 0) e in
    let (tails, ends) =
      split_run s t r r' (&&-true (is_number_char c) _ hc).1 (&&-true (is_number_char d) _ hd).1 hr
        hr' (ap (drop 1) e) in
    (cc (same), ends)

-- The kind of value that a character begins.
abbrev pub kind : ℕ → ℕ
kind c =
    if c == b'n'
    then 0
    else if c == b't' || c == b'f'
    then 1
    else if is_number_char c
    then 2
    else if c == 34
    then 3
    else if c == b'['
    then 4
    else if c == b'{'
    then 5
    else 6

abbrev pub tag : {D : Type 0} → Value D → ℕ
tag null = 0
tag (bool b) = 1
tag (num a) = 2
tag (str s) = 3
tag (arr xs) = 4
tag (obj fs) = 5
tag undefined = 7

pub kind-number :
    (t r : Text) → all is_number_char t ≡ true → is_empty t ≡ false → kind (head_or (t ++ r) 0) ≡ 2
kind-number [] r _ h = cc
kind-number (c ∷ t) r h _ = ground arith

module _ {D : Type 0} (n : Number D) (Finite : D → Type 0) (laws : PrintsNumbers n Finite) where
  pub kind-print :
      (v : Value D) (r : Text) → IsPrintable Finite v → kind (head_or (print n v ++ r) 0) ≡ tag v
  unfolding print quote IsPrintable
  kind-print undefined r h = absurd h
  kind-print null r h = refl
  kind-print (bool true) r h = refl
  kind-print (bool false) r h = refl
  kind-print (num a) r h = kind-number (n.print a) r (laws.number_chars a h) (laws.number_text a h)
  kind-print (str s) r h = refl
  kind-print (arr xs) r h = refl
  kind-print (obj fs) r h = refl

  pub tags_agree :
      (v w : Value D) (r r' : Text)
      → IsPrintable Finite v
      → IsPrintable Finite w
      → print n v ++ r ≡ print n w ++ r'
      → tag v ≡ tag w
  tags_agree v w r r' hv hw e =
      sym (kind-print v r hv) ∙ ap (λ u. kind (head_or u 0)) e ∙ kind-print w r' hw

  pub element_printable : (v : Value D) (t : Text) → IsPrintable Finite v → element v t ≡ t
  unfolding IsPrintable
  element_printable undefined t h = absurd h
  element_printable null t h = refl
  element_printable _ t h = refl

  -- What stands after an element, up to the end of the array.
  unfoldable pub after_item : Items D → Text → Text
  after_item nil r = b']' ∷ r
  after_item (cons x xs) r = b',' ∷ (join (print_items n (cons x xs)) ++ (b']' ∷ r))

  unfoldable pub after_field : Fields D → Text → Text
  after_field end r = b'}' ∷ r
  after_field (field k v fs) r =
      b',' ∷ (join (pair_texts (print_fields n (field k v fs))) ++ (b'}' ∷ r))

  pub join-after_item :
      (x : Value D) (xs : Items D) (r : Text)
      → IsPrintable Finite x
      → join (print_items n (cons x xs)) ++ (b']' ∷ r) ≡ print n x ++ after_item xs r
  unfolding join print after_item
  join-after_item x nil r h = rw (element_printable x (print n x) h)
  join-after_item x (cons y ys) r h =
      rw (element_printable x (print n x) h) (append_assoc (print n x) _ (b']' ∷ r))

  pub join-after_field :
      (k : Text) (v : Value D) (fs : Fields D) (r : Text)
      → join (pair_texts (print_fields n (field k v fs))) ++ (b'}' ∷ r)
        ≡ quote k ++ (b':' ∷ (print n v ++ after_field fs r))
  unfolding join print pair_texts after_field
  join-after_field k v end r = append_assoc (quote k) (b':' ∷ print n v) (b'}' ∷ r)
  join-after_field k v (field j w fs) r = simp append_assoc

  pub unafter_item :
      (xs ys : Items D) (r r' : Text)
      → after_item xs r ≡ after_item ys r'
      → join (print_items n xs) ++ (b']' ∷ r) ≡ join (print_items n ys) ++ (b']' ∷ r')
  unfolding join print after_item
  unafter_item nil nil r r' e = e
  unafter_item nil (cons y ys) r r' e =
      let clash : ◌≡◌ {A = ℕ} b']' b',' = ap (λ u. head_or u 0) e in absurd (omega arith)
  unafter_item (cons x xs) nil r r' e =
      let clash : ◌≡◌ {A = ℕ} b',' b']' = ap (λ u. head_or u 0) e in absurd (omega arith)
  unafter_item (cons x xs) (cons y ys) r r' e = ap (drop 1) e

  pub unafter_field :
      (fs gs : Fields D) (r r' : Text)
      → after_field fs r ≡ after_field gs r'
      → join (pair_texts (print_fields n fs)) ++ (b'}' ∷ r)
        ≡ join (pair_texts (print_fields n gs)) ++ (b'}' ∷ r')
  unfolding join print pair_texts after_field
  unafter_field end end r r' e = e
  unafter_field end (field k v fs) r r' e =
      let clash : ◌≡◌ {A = ℕ} b'}' b',' = ap (λ u. head_or u 0) e in absurd (omega arith)
  unafter_field (field k v fs) end r r' e =
      let clash : ◌≡◌ {A = ℕ} b',' b'}' = ap (λ u. head_or u 0) e in absurd (omega arith)
  unafter_field (field k v fs) (field j w gs) r r' e = ap (drop 1) e

  pub stops-after_item : (xs : Items D) (r : Text) → stops (after_item xs r) ≡ true
  unfolding after_item
  stops-after_item nil r = refl
  stops-after_item (cons x xs) r = refl

  pub stops-after_field : (fs : Fields D) (r : Text) → stops (after_field fs r) ≡ true
  unfolding after_field
  stops-after_field end r = refl
  stops-after_field (field k v fs) r = refl

  pub item_is_no_end :
      (x : Value D) (r r' : Text) → IsPrintable Finite x → b']' ∷ r ≢ print n x ++ r'
  item_is_no_end x r r' h e =
      let k : 6 ≡ tag x = ap (λ u. kind (head_or u 0)) e ∙ kind-print x r' h in absurd (never x h k)
    where
      never : (v : Value D) → IsPrintable Finite v → 6 ≡ tag v → ⊥
      never undefined _ q = omega arith
      never null _ q = omega arith
      never _ _ q = omega arith

  pub field_is_no_end : (k r r' : Text) → b'}' ∷ r ≢ quote k ++ r'
  unfolding quote
  field_is_no_end k r r' e =
      let clash : ◌≡◌ {A = ℕ} b'}' 34 = ap (λ u. head_or u 0) e in absurd (omega arith)

  pub bool_unique :
      (b b' : Bool) (r r' : Text)
      → bool_text b ++ r ≡ bool_text b' ++ r'
      → (◌≡◌ {A = Value D} (bool b) (bool b')) × (r ≡ r')
  bool_unique true true r r' e = (refl, ap (drop 4) e)
  bool_unique false false r r' e = (refl, ap (drop 5) e)
  bool_unique true false r r' e =
      let clash : ◌≡◌ {A = ℕ} b't' b'f' = ap (λ u. head_or u 0) e in absurd (omega arith)
  bool_unique false true r r' e =
      let clash : ◌≡◌ {A = ℕ} b'f' b't' = ap (λ u. head_or u 0) e in absurd (omega arith)
