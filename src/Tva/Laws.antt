-- ===== src/Tva/Laws.antt =====
-- The rate that a line is given, and the mention that the law asks for.
use devispropre.Base.{
  ◌≡◌, refl, inl, inr, Bool, true, false, Option, none, some, [], ◌∷◌, ◌++◌, arith, if◌then◌else◌,
  Bool-cases, or_else,
}
use devispropre.Text.{Text, codes, includes, is_empty, includes-append_left}
use devispropre.Money.{Number, IsReflexive}
use devispropre.Tva.{
  is_tva_rate, resolve_line_tva, franchise_mention, trimmed, ensure_franchise_notes,
}

module _ {D : Type 0} (n : Number D) (laws : IsReflexive n) where
  resolve_line_tva_allowed :
      (t : Option D) (app : Bool) → is_tva_rate n (resolve_line_tva n t app) ≡ true
  unfolding resolve_line_tva
  resolve_line_tva_allowed t false = ground (arith, laws.nat_same 0)
  resolve_line_tva_allowed t true = elim (Bool-cases (is_tva_rate n (or_else t (n.nat 20)))) [
    | inl e ↦ rw e e
    | inr e ↦ rw e (ground (arith, laws.nat_same 20))
  ]

  -- Whatever rate a line asks for, the resolved rate is `===` one of the rates of `TVA_RATES`,
  -- resolving it once more changes nothing, and a company under the franchise is given 0.
  pub resolve_line_tva_stable :
      (t : Option D) (app : Bool)
      → (is_tva_rate n (resolve_line_tva n t app) ≡ true)
        × (resolve_line_tva n (some (resolve_line_tva n t app)) app ≡ resolve_line_tva n t app)
        × (resolve_line_tva n t false ≡ n.nat 0)
  unfolding resolve_line_tva
  resolve_line_tva_stable t false = (resolve_line_tva_allowed t false, refl, refl)
  resolve_line_tva_stable t true =
      let allowed = resolve_line_tva_allowed t true in (allowed, rw allowed, refl)

mention_included : includes franchise_mention (codes "293 B") ≡ true
unfolding includes
mention_included = refl

dotted_included : includes (codes "\n" ++ (franchise_mention ++ codes ".")) (codes "293 B") ≡ true
unfolding includes
dotted_included = refl

nonempty_of_includes :
    (s : Text) → includes s (codes "293 B") ≡ true → (if is_empty s then none else some s) ≡ some s
unfolding includes
nonempty_of_includes [] h = cc
nonempty_of_includes (c ∷ s) h = refl

-- Under the franchise there are always notes, and they include the reference to article 293 B,
-- whatever the artisan wrote.
pub ensure_franchise_notes_mention :
    (notes : Option Text)
    → (t : Text) × (ensure_franchise_notes notes false ≡ some t)
      × (includes t (codes "293 B") ≡ true)
unfolding ensure_franchise_notes
ensure_franchise_notes_mention notes =
    elim (Bool-cases (includes (trimmed notes) (codes "293 B"))) [
      | inl e ↦ (trimmed notes, rw e (nonempty_of_includes (trimmed notes) e), e)
      | inr e ↦ elim (Bool-cases (is_empty (trimmed notes))) [
        | inl empty ↦ (franchise_mention, rw (e, empty), mention_included)
        | inr full ↦ (
          trimmed notes ++ (codes "\n" ++ (franchise_mention ++ codes ".")),
          rw (e, full),
          includes-append_left (trimmed notes) _ (codes "293 B") dotted_included,
        )
      ]
    ]
