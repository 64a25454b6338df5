-- ===== src/Numbers.antt =====
-- src/lib/numbers.ts: the counters that number quotes and invoices, and the stored totals; and
-- the lines that src/lib/services/devis.ts builds from its input.
pub mod Sequence
pub mod Preview
use devispropre.Base.{
  ℕ, suc, ◌+◌, Bool, true, false, Option, none, some, List, [], ◌∷◌, ◌++◌, ◌&&◌, or_else, ◌==◌,
  if◌then◌else◌, is_some,
}
use devispropre.Text.{Text, codes, text_eq}
use devispropre.Money.{Number}
use devispropre.Table.{find_first, update_many}
use devispropre.Tva.{LigneInput, Totals, resolve_line_tva, cents, round_totals}
use devispropre.Decimal.{decimal, pad_start}

pub data DocType : Type 0 where
  devis facture : DocType

-- A row of "DocumentCounter"; (userId, year, docType) is its unique key.
pub record Counter : Type 0 where
  pub user_id : Text
  pub year : ℕ
  pub doc_type : DocType
  pub last_seq : ℕ

abbrev pub doc_type_eq : DocType → DocType → Bool
doc_type_eq devis devis = true
doc_type_eq facture facture = true
doc_type_eq _ _ = false

abbrev pub is_counter : Text → ℕ → DocType → Counter → Bool
is_counter user_id year doc_type c =
    text_eq c.user_id user_id && (c.year == year && doc_type_eq c.doc_type doc_type)

abbrev bump : Counter → Counter
bump c = record c { last_seq = c.last_seq + 1 }

-- INSERT … ON CONFLICT DO UPDATE … RETURNING "lastSeq"
unfoldable pub next_sequence : Text → ℕ → DocType → List Counter → ℕ × List Counter
next_sequence user_id year doc_type table =
    let mine = is_counter user_id year doc_type in
    elim (find_first mine table) [
      | none ↦ (
        1,
        table ++ record { user_id = user_id; year = year; doc_type = doc_type; last_seq = 1 } ∷ [],
      )
      | some c ↦ (c.last_seq + 1, update_many mine bump table)
    ]

abbrev prefix : DocType → Text
prefix devis = codes "DEV-"
prefix facture = codes "FAC-"

-- `DEV-${year}-${String(seq).padStart(4, "0")}`
unfoldable pub numero : DocType → ℕ → ℕ → Text
numero doc_type year seq =
    prefix doc_type ++ (decimal year ++ (b'-' ∷ pad_start 4 b'0' (decimal seq)))

-- `nextDevisNumeroInTransaction`, `nextFactureNumeroInTransaction` and their variants
unfoldable pub next_numero : DocType → Text → ℕ → List Counter → Text × List Counter
next_numero doc_type user_id year table =
    let (seq, table') = next_sequence user_id year doc_type table in
    (numero doc_type year seq, table')

-- A line of a document, `DevisLigne` and `FactureLigne` of prisma/schema.prisma.
pub record Ligne (D : Type 0) : Type 0 where
  pub ordre : ℕ
  pub description : Text
  pub quantite : D
  pub prix_unitaire_ht : D
  pub tva : D
  pub total_ht : D

module _ {D : Type 0} (n : Number D) where
  open n use {nat, add, mul, div}

  abbrev pub compute_line_total_ht : D → D → D
  compute_line_total_ht quantite prix_unitaire_ht = cents n (mul quantite prix_unitaire_ht)

  -- the loop of `computeTotals`
  unfoldable pub totals_loop : List (Ligne D) → Bool → D → D → D × D
  totals_loop [] tva_applicable total_ht total_tva = (total_ht, total_tva)
  totals_loop (l ∷ lignes) tva_applicable total_ht total_tva =
      totals_loop lignes tva_applicable (add total_ht l.total_ht) (
        if tva_applicable
        then add total_tva (cents n (mul l.total_ht (div l.tva (nat 100))))
        else total_tva)

  unfoldable pub compute_totals : List (Ligne D) → Bool → Totals D
  compute_totals lignes tva_applicable =
      round_totals n (totals_loop lignes tva_applicable (nat 0) (nat 0))

  -- `data.lignes.map((l, i) => …)` of `createDevis` and `updateDevis`
  unfoldable pub build_lignes_from : ℕ → List (LigneInput D) → Bool → List (Ligne D)
  build_lignes_from i [] tva_applicable = []
  build_lignes_from i (l ∷ lignes) tva_applicable =
      record {
        ordre = i + 1;
        description = l.description;
        quantite = l.quantite;
        prix_unitaire_ht = l.prix_unitaire_ht;
        tva = resolve_line_tva n l.tva tva_applicable;
        total_ht = compute_line_total_ht l.quantite l.prix_unitaire_ht;
      }
      ∷ build_lignes_from (i + 1) lignes tva_applicable

  unfoldable pub build_lignes : List (LigneInput D) → Bool → List (Ligne D)
  build_lignes = build_lignes_from 0
