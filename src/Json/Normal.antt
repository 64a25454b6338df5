-- ===== src/Json/Normal.antt =====
-- The value with its keys in order at every level, and its text. `canonicalize` prints it.
use devispropre.Base.{◌≡◌, refl, sym, List, [], ◌∷◌, ◌++◌, if◌then◌else◌, Bool-cases, inl, inr}
use devispropre.Text.{Text, codes}
use devispropre.Money.{Number}
use devispropre.Json.{
  Value, undefined, null, bool, num, str, arr, obj, Items, nil, cons, Fields, end, field, text_lt,
  quote, insert_pair, sort_pairs, join, pair_texts, element, bool_text, canonicalize,
  canonicalize_items, canonicalize_fields,
}

module _ {D : Type 0} where
  unfoldable pub insert_field : Text → Value D → Fields D → Fields D
  insert_field k v end = field k v end
  insert_field k v (field j w fs) =
      let later = field j w (insert_field k v fs) in
      if text_lt j k then later else field k v (field j w fs)

  unfoldable mutual
    unfolding insert_field

    -- The value with the fields of every object sorted by their keys.
    pub normal : Value D → Value D
    normal undefined = undefined
    normal null = null
    normal (bool b) = bool b
    normal (num a) = num a
    normal (str s) = str s
    normal (arr xs) = arr (normal_items xs)
    normal (obj fs) = obj (normal_fields fs)

    pub normal_items : Items D → Items D
    normal_items nil = nil
    normal_items (cons x xs) = cons (normal x) (normal_items xs)

    pub normal_fields : Fields D → Fields D
    normal_fields end = end
    normal_fields (field k v fs) = insert_field k (normal v) (normal_fields fs)

module _ {D : Type 0} (n : Number D) where
  unfoldable mutual
    -- The text of a value with its fields as they stand.
    pub print : Value D → Text
    print undefined = codes "undefined"
    print null = codes "null"
    print (bool b) = bool_text b
    print (num a) = n.print a
    print (str s) = quote s
    print (arr xs) = b'[' ∷ (join (print_items xs) ++ b']' ∷ [])
    print (obj fs) = b'{' ∷ (join (pair_texts (print_fields fs)) ++ b'}' ∷ [])

    pub print_items : Items D → List Text
    print_items nil = []
    print_items (cons x xs) = element x (print x) ∷ print_items xs

    pub print_fields : Fields D → List (Text × Text)
    print_fields end = []
    print_fields (field k v fs) = (k, print v) ∷ print_fields fs

  print_fields-insert_field :
      (k : Text) (v : Value D) (fs : Fields D)
      → print_fields (insert_field k v fs) ≡ insert_pair k (print v) (print_fields fs)
  unfolding print insert_field insert_pair
  print_fields-insert_field k v end = refl
  print_fields-insert_field k v (field j w fs) = elim (Bool-cases (text_lt j k)) [
    | inl e ↦ rw (e, print_fields-insert_field k v fs)
    | inr e ↦ rw e
  ]

  -- An element that is not `undefined` stays so.
  element-normal : (v : Value D) (t : Text) → element (normal v) t ≡ element v t
  unfolding normal
  element-normal undefined t = refl
  element-normal _ t = refl

  mutual
    unfolding canonicalize print normal

    canonical : (v : Value D) → canonicalize n v ≡ print (normal v)
    canonical undefined = refl
    canonical null = refl
    canonical (bool b) = refl
    canonical (num a) = refl
    canonical (str s) = refl
    canonical (arr xs) = rw (canonical_items xs)
    canonical (obj fs) = rw (canonical_fields fs)

    canonical_items : (xs : Items D) → canonicalize_items n xs ≡ print_items (normal_items xs)
    canonical_items nil = refl
    canonical_items (cons x xs) =
        rw (canonical_items xs, element-normal x (print (normal x)), canonical x)

    canonical_fields :
        (fs : Fields D) → sort_pairs (canonicalize_fields n fs) ≡ print_fields (normal_fields fs)
    canonical_fields end = refl
    canonical_fields (field k v fs) =
        rw (canonical_fields fs, canonical v)
          (sym (print_fields-insert_field k (normal v) (normal_fields fs)))

  -- `canonicalize` prints the normal form.
  pub canonicalize-print : (v : Value D) → canonicalize n v ≡ print (normal v)
  canonicalize-print v = canonical v
