-- ===== src/Json/Unique.antt =====
-- Two values have one canonical text exactly when they are one value up to the order of keys.
use devispropre.Base.{
  ◌≡◌, refl, sym, ap, ◌∙◌, ap₂, ◌↔◌, inl, inr, true, [], ◌∷◌, ◌++◌, arith, drop, Bool-cases,
}
use mathlib.Core.List.{append_assoc, append-nil}
use devispropre.Text.{Text}
use devispropre.Money.{Number}
use devispropre.Json.{
  Value, undefined, null, bool, num, str, arr, obj, Items, nil, cons, Fields, end, field, text_lt,
  join, pair_texts, canonicalize,
}
use devispropre.Json.Quote.{quote_injective}
use devispropre.Json.Printable.{PrintsNumbers, IsPrintable, ArePrintable, HavePrintable}
use devispropre.Json.Pieces.{
  stops, split_run, tags_agree, after_item, after_field, join-after_item, join-after_field,
  unafter_item, unafter_field, stops-after_item, stops-after_field, item_is_no_end, field_is_no_end,
  bool_unique,
}
use devispropre.Json.Normal.{
  insert_field, normal, normal_items, normal_fields, print, print_items, print_fields,
  canonicalize-print,
}

module _ {D : Type 0} (n : Number D) (Finite : D → Type 0) (laws : PrintsNumbers n Finite) where
  mutual
    unfolding print IsPrintable join pair_texts

    print_unique :
        (v w : Value D) (r r' : Text)
        → IsPrintable Finite v
        → IsPrintable Finite w
        → stops r ≡ true
        → stops r' ≡ true
        → print n v ++ r ≡ print n w ++ r'
        → (v ≡ w) × (r ≡ r')
    print_unique null null r r' hv hw s s' e = (refl, ap (drop 4) e)
    print_unique (bool b) (bool b') r r' hv hw s s' e = bool_unique n Finite laws b b' r r' e
    print_unique (num a) (num b) r r' hv hw s s' e =
        let (same, ends) =
          split_run (n.print a) (n.print b) r r' (laws.number_chars a hv) (laws.number_chars b hw) s
            s' e in
        (ap num (laws.number_injective a b hv hw same), ends)
    print_unique (str t) (str u) r r' hv hw s s' e =
        let (same, ends) = quote_injective t u r r' e in (ap str same, ends)
    print_unique (arr xs) (arr ys) r r' hv hw s s' e =
        let (same, ends) = items_unique xs ys r r' hv hw (
          sym (append_assoc (join (print_items n xs)) (b']' ∷ []) r)
          ∙ ap (drop 1) e
          ∙ append_assoc (join (print_items n ys)) (b']' ∷ []) r') in
        (ap arr same, ends)
    print_unique (obj fs) (obj gs) r r' hv hw s s' e =
        let (same, ends) = fields_unique fs gs r r' hv hw (
          sym (append_assoc (join (pair_texts (print_fields n fs))) (b'}' ∷ []) r)
          ∙ ap (drop 1) e
          ∙ append_assoc (join (pair_texts (print_fields n gs))) (b'}' ∷ []) r') in
        (ap obj same, ends)
    print_unique undefined _ r r' hv hw s s' e = absurd hv
    print_unique v w r r' hv hw s s' e =
        let q = tags_agree n Finite laws v w r r' hv hw e in absurd (omega (arith, q))

    items_unique :
        (xs ys : Items D) (r r' : Text)
        → ArePrintable Finite xs
        → ArePrintable Finite ys
        → join (print_items n xs) ++ (b']' ∷ r) ≡ join (print_items n ys) ++ (b']' ∷ r')
        → (xs ≡ ys) × (r ≡ r')
    items_unique nil nil r r' hx hy e = (refl, ap (drop 1) e)
    items_unique nil (cons y ys) r r' hx (hy, _) e = absurd (
        item_is_no_end n Finite laws y r (after_item n Finite laws ys r') hy
          (e ∙ join-after_item n Finite laws y ys r' hy))
    items_unique (cons x xs) nil r r' (hx, _) hy e = absurd (
        item_is_no_end n Finite laws x r' (after_item n Finite laws xs r) hx
          (sym e ∙ join-after_item n Finite laws x xs r hx))
    items_unique (cons x xs) (cons y ys) r r' (hx, hxs) (hy, hys) e =
        let (heads, rest) =
          print_unique x y (after_item n Finite laws xs r) (after_item n Finite laws ys r') hx hy
            (stops-after_item n Finite laws xs r) (stops-after_item n Finite laws ys r')
            (sym (join-after_item n Finite laws x xs r hx)
              ∙ e
              ∙ join-after_item n Finite laws y ys r' hy) in
        let (tails, ends) =
          items_unique xs ys r r' hxs hys (unafter_item n Finite laws xs ys r r' rest) in
        (ap₂ cons heads tails, ends)

    fields_unique :
        (fs gs : Fields D) (r r' : Text)
        → HavePrintable Finite fs
        → HavePrintable Finite gs
        → join (pair_texts (print_fields n fs)) ++ (b'}' ∷ r)
          ≡ join (pair_texts (print_fields n gs)) ++ (b'}' ∷ r')
        → (fs ≡ gs) × (r ≡ r')
    fields_unique end end r r' hx hy e = (refl, ap (drop 1) e)
    fields_unique end (field j w gs) r r' hx hy e =
        absurd (field_is_no_end n Finite laws j r _ (e ∙ join-after_field n Finite laws j w gs r'))
    fields_unique (field k v fs) end r r' hx hy e =
        absurd
          (field_is_no_end n Finite laws k r' _ (sym e ∙ join-after_field n Finite laws k v fs r))
    fields_unique (field k v fs) (field j w gs) r r' (hv, hfs) (hw, hgs) e =
        let (keys, values) = quote_injective k j _ _ (
          sym (join-after_field n Finite laws k v fs r)
          ∙ e
          ∙ join-after_field n Finite laws j w gs r') in
        let (heads, rest) =
          print_unique v w (after_field n Finite laws fs r) (after_field n Finite laws gs r') hv hw
            (stops-after_field n Finite laws fs r) (stops-after_field n Finite laws gs r')
            (ap (drop 1) values) in
        let (tails, ends) =
          fields_unique fs gs r r' hfs hgs (unafter_field n Finite laws fs gs r r' rest) in
        (cc (keys, heads, tails), ends)

  insert_field-HavePrintable :
      (k : Text) (v : Value D) (fs : Fields D)
      → IsPrintable Finite v
      → HavePrintable Finite fs
      → HavePrintable Finite (insert_field k v fs)
  unfolding insert_field IsPrintable
  insert_field-HavePrintable k v end hv h = (hv, h)
  insert_field-HavePrintable k v (field j w fs) hv (hw, h) = elim (Bool-cases (text_lt j k)) [
    | inl e ↦ rw e (hw, insert_field-HavePrintable k v fs hv h)
    | inr e ↦ rw e (hv, (hw, h))
  ]

  mutual
    unfolding normal IsPrintable

    normal-IsPrintable : (v : Value D) → IsPrintable Finite v → IsPrintable Finite (normal v)
    normal-IsPrintable undefined h = h
    normal-IsPrintable null h = h
    normal-IsPrintable (bool b) h = h
    normal-IsPrintable (num a) h = h
    normal-IsPrintable (str s) h = h
    normal-IsPrintable (arr xs) h = normal_items_printable xs h
    normal-IsPrintable (obj fs) h = normal_fields_printable fs h

    normal_items_printable :
        (xs : Items D) → ArePrintable Finite xs → ArePrintable Finite (normal_items xs)
    normal_items_printable nil h = h
    normal_items_printable (cons x xs) (hx, hxs) =
        (normal-IsPrintable x hx, normal_items_printable xs hxs)

    normal_fields_printable :
        (fs : Fields D) → HavePrintable Finite fs → HavePrintable Finite (normal_fields fs)
    normal_fields_printable end h = h
    normal_fields_printable (field k v fs) (hv, h) =
        insert_field-HavePrintable k (normal v) (normal_fields fs) (normal-IsPrintable v hv)
          (normal_fields_printable fs h)

  -- Two printable values have one canonical text exactly when they are equal once the keys of
  -- every object are in order. A printable value has finite numbers, and no `undefined` in it.
  pub canonicalize_unique :
      (v w : Value D)
      → IsPrintable Finite v
      → IsPrintable Finite w
      → (canonicalize n v ≡ canonicalize n w) ↔ (normal v ≡ normal w)
  canonicalize_unique v w hv hw = (
    λ e.
        (print_unique (normal v) (normal w) [] [] (normal-IsPrintable v hv)
          (normal-IsPrintable w hw) refl refl
          (append-nil (print n (normal v))
            ∙ sym (canonicalize-print n v)
            ∙ e
            ∙ canonicalize-print n w
            ∙ sym (append-nil (print n (normal w))))).0,
    λ e. canonicalize-print n v ∙ ap (print n) e ∙ sym (canonicalize-print n w),
  )
