-- ===== src/World/Immutability.antt =====
-- src/lib/immutability.ts
use devispropre.Base.{◌≡◌, refl, ℕ, Bool, true, false, not, ◌||◌, Option, is_some}
use devispropre.Accounts.{immutability}
use devispropre.World.{DevisStatus, FactureStatus}
use devispropre.World.Action.{Action, raise_if}

abbrev pub devis_status_eq : DevisStatus → DevisStatus → Bool
devis_status_eq DevisStatus.brouillon DevisStatus.brouillon = true
devis_status_eq DevisStatus.envoye DevisStatus.envoye = true
devis_status_eq DevisStatus.accepte DevisStatus.accepte = true
devis_status_eq DevisStatus.refuse DevisStatus.refuse = true
devis_status_eq DevisStatus.facture DevisStatus.facture = true
devis_status_eq _ _ = false

abbrev pub facture_status_eq : FactureStatus → FactureStatus → Bool
facture_status_eq FactureStatus.brouillon FactureStatus.brouillon = true
facture_status_eq FactureStatus.emise FactureStatus.emise = true
facture_status_eq FactureStatus.payee FactureStatus.payee = true
facture_status_eq FactureStatus.annulee FactureStatus.annulee = true
facture_status_eq _ _ = false

-- Locked from the moment it is sent.
unfoldable pub is_devis_locked : DevisStatus → Option ℕ → Bool
is_devis_locked status locked_at =
    is_some locked_at || not (devis_status_eq status DevisStatus.brouillon)

-- Locked from the moment it is issued.
unfoldable pub is_facture_locked : FactureStatus → Option ℕ → Bool
is_facture_locked status locked_at =
    is_some locked_at
    || facture_status_eq status FactureStatus.emise
    || facture_status_eq status FactureStatus.payee

unfoldable pub assert_devis_editable : {D : Type 0} → DevisStatus → Option ℕ → Action D (Unit {0})
unfolding is_devis_locked
assert_devis_editable status locked_at = raise_if (is_devis_locked status locked_at) immutability

-- a quote that waits for its client is no draft
pub envoye-no_draft :
    (s : DevisStatus)
    → devis_status_eq s DevisStatus.envoye ≡ true
    → devis_status_eq s DevisStatus.brouillon ≡ false
envoye-no_draft DevisStatus.brouillon h = absurd cc
envoye-no_draft DevisStatus.envoye h = refl
envoye-no_draft DevisStatus.accepte h = refl
envoye-no_draft DevisStatus.refuse h = refl
envoye-no_draft DevisStatus.facture h = refl
