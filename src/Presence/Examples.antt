-- ===== src/Presence/Examples.antt =====
-- Concrete presence checks (engine/presence_test.go has such cases).
use oma_seal.Prelude.{◌≡◌, refl, ◌≢◌, ◌↔◌, ◌⊎◌, true, false, none, nat_eq, bytes_eq}
use oma_seal.Bytes.{codes}
use oma_seal.Presence.{
  Desktop, Kind, Answer, pinentry, zenity, allow, broken, run_presence_chain,
  require_presence_strict, require_user_presence,
}
use oma_seal.Presence.Chain.{presence_checks_iff}
use oma_seal.Presence.Prompters.{Confirmed, Declined}

-- pinentry cannot show a dialog, and the user allows in zenity
abbrev by_kind : Kind → Answer
by_kind pinentry = broken
by_kind zenity = allow

abbrev desktop : Desktop
desktop = record {
  fprintd_usable = false;
  fprintd_verified = false;
  graphical_session = true;
  gui_setting = codes " ";
  available = λ k. true;
  confirm = by_kind;
}

falls_through : run_presence_chain desktop ≡ none
unfolding run_presence_chain
falls_through = refl

abbrev headless : Desktop
headless = record desktop { graphical_session = false }

opted_out : (require_user_presence headless true ≡ none) × (require_presence_strict headless ≢ none)
unfolding require_user_presence require_presence_strict
opted_out = (refl, λ e. cc)

presence_checks_iff_example :
    ((require_presence_strict headless ≡ none) ↔ Confirmed headless)
    × ((require_user_presence headless true ≡ none)
        ↔ (Confirmed headless ⊎ ((true ≡ true) × (¬ Confirmed headless) × (¬ Declined headless))))
presence_checks_iff_example = presence_checks_iff headless true
