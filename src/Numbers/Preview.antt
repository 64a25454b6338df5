-- ===== src/Numbers/Preview.antt =====
-- src/lib/tva.ts shows a guest the totals of a draft before there is an account; the server
-- computes those of the stored quote by other code (src/lib/numbers.ts, from the lines that
-- src/lib/services/devis.ts builds).
use devispropre.Base.{ℕ, ◌+◌, ◌≡◌, refl, ap, Bool, true, false, List, [], ◌∷◌}
use devispropre.Money.{Number}
use devispropre.Tva.{LigneInput, draft_loop, round_totals, compute_draft_totals}
use devispropre.Numbers.{totals_loop, compute_totals, build_lignes_from, build_lignes}

module _ {D : Type 0} (n : Number D) where
  draft_loop-totals_loop :
      (i : ℕ) (lignes : List (LigneInput D)) (app : Bool) (ht tva : D)
      → draft_loop n lignes app ht tva ≡ totals_loop n (build_lignes_from n i lignes app) app ht tva
  unfolding draft_loop totals_loop build_lignes_from
  draft_loop-totals_loop i [] app ht tva = refl
  draft_loop-totals_loop i (l ∷ lignes) true ht tva = draft_loop-totals_loop (i + 1) lignes true _ _
  draft_loop-totals_loop i (l ∷ lignes) false ht tva =
      draft_loop-totals_loop (i + 1) lignes false _ _

  -- The totals shown to a guest are those that the server stores for the same lines and the same
  -- VAT status: net, VAT and gross, in the same operations on numbers in the same order.
  pub compute_draft_totals-compute_totals :
      (lignes : List (LigneInput D)) (app : Bool)
      → compute_draft_totals n lignes app ≡ compute_totals n (build_lignes n lignes app) app
  unfolding compute_draft_totals compute_totals build_lignes
  compute_draft_totals-compute_totals lignes app =
      ap (round_totals n) (draft_loop-totals_loop 0 lignes app (n.nat 0) (n.nat 0))
