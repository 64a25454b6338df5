-- ===== src/Tva.antt =====
-- src/lib/tva.ts: the VAT rate of a line, the totals of a guest's draft, and the notes of a
-- company under the franchise.
pub mod Laws
use devispropre.Base.{
  ℕ, ◌≡◌, refl, Bool, true, false, Option, none, some, List, [], ◌∷◌, ◌++◌, if◌then◌else◌, or_else,
  any,
}
use devispropre.Text.{Text, codes, trim, includes, is_empty}
use devispropre.Money.{Number}

abbrev pub franchise_mention : Text
franchise_mention = codes "TVA non applicable, art. 293 B du CGI"

-- `LigneInput` of src/lib/services/devis.ts, and what `computeDraftTotals` reads of it
pub record LigneInput (D : Type 0) : Type 0 where
  pub description : Text
  pub quantite : D
  pub prix_unitaire_ht : D
  pub tva : Option D

pub record Totals (D : Type 0) : Type 0 where
  pub total_ht : D
  pub total_tva : D
  pub total_ttc : D

module _ {D : Type 0} (n : Number D) where
  open n use {nat, five_and_half, add, mul, div, round, same}

  -- the values of `TVA_RATES`
  abbrev pub tva_rates : List D
  tva_rates = nat 0 ∷ five_and_half ∷ nat 10 ∷ nat 20 ∷ []

  abbrev pub is_tva_rate : D → Bool
  is_tva_rate rate = any (λ r. same r rate) tva_rates

  unfoldable pub resolve_line_tva : Option D → Bool → D
  resolve_line_tva line_tva false = nat 0
  resolve_line_tva line_tva true =
      let rate = or_else line_tva (nat 20) in if is_tva_rate rate then rate else nat 20

  pub compute_line_ttc : D → D → D → Bool → D
  compute_line_ttc quantite prix_unitaire_ht tva tva_applicable =
      let ht = mul quantite prix_unitaire_ht in
      if tva_applicable
      then mul ht (add (nat 1) (div (resolve_line_tva (some tva) true) (nat 100)))
      else ht

  -- `Math.round(x * 100) / 100`
  abbrev pub cents : D → D
  cents x = div (round (mul x (nat 100))) (nat 100)

  -- the loop of `computeDraftTotals`, over `totalHT` and `totalTVA`
  unfoldable pub draft_loop : List (LigneInput D) → Bool → D → D → D × D
  draft_loop [] tva_applicable total_ht total_tva = (total_ht, total_tva)
  draft_loop (l ∷ lignes) tva_applicable total_ht total_tva =
      let ht = cents (mul l.quantite l.prix_unitaire_ht) in
      let rate = resolve_line_tva l.tva true in
      draft_loop lignes tva_applicable (add total_ht ht)
        (if tva_applicable then add total_tva (cents (mul ht (div rate (nat 100)))) else total_tva)

  abbrev pub round_totals : D × D → Totals D
  round_totals (ht, tva) =
      let total_ht = cents ht in
      let total_tva = cents tva in
      record {
        total_ht = total_ht;
        total_tva = total_tva;
        total_ttc = cents (add total_ht total_tva);
      }

  unfoldable pub compute_draft_totals : List (LigneInput D) → Bool → Totals D
  compute_draft_totals lignes tva_applicable =
      round_totals (draft_loop lignes tva_applicable (nat 0) (nat 0))

-- `t || undefined`
abbrev or_undefined : Text → Option Text
or_undefined t = if is_empty t then none else some t

-- `notes?.trim() ?? ""`
abbrev trimmed : Option Text → Text
trimmed none = []
trimmed (some notes) = trim notes

unfoldable pub ensure_franchise_notes : Option Text → Bool → Option Text
ensure_franchise_notes notes true = or_undefined (trimmed notes)
ensure_franchise_notes notes false =
    let base = trimmed notes in
    if includes base (codes "293 B")
    then or_undefined base
    else if is_empty base
    then some franchise_mention
    else some (base ++ (codes "\n" ++ (franchise_mention ++ codes ".")))
