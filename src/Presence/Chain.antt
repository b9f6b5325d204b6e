-- ===== src/Presence/Chain.antt =====
-- What a presence check decides: the first mechanism that can ask, and its answer.
use oma_seal.Prelude.{
  ◌≡◌, refl, sym, ap, ◌∙◌, ◌≢◌, ◌↔◌, ◌⊎◌, inl, inr, Bool, true, false, none, some, List, [], ◌∷◌,
  arith, if◌then◌else◌, Bool-cases, nat_eq, bytes_eq,
}
use oma_seal.Bytes.{Bytes}
use oma_seal.Errors.{
  Error, Result, ok, err, plain, sentinel, presence_denied, no_presence_mechanism,
  denied_without_mechanism, no_gui_prompter,
}
use oma_seal.Presence.{
  Kind, Desktop, Err, gui_prompter_order, confirm_first, confirm_in_order, gui_presence_confirm,
  verdict, run_presence_chain, is_no_mechanism, require_user_presence, require_presence_strict,
}
use oma_seal.Presence.Prompters.{
  Confirmed, finger, dialog, Declined, wrong_finger, dialog_declined, denied, allow_sound,
  allow_complete, decline_sound, decline_complete,
}

abbrev no_mechanism : Err
no_mechanism = some (sentinel no_presence_mechanism)

order_error : (setting : Bytes) (e : Error) → gui_prompter_order setting ≡ err e → e ≡ plain
unfolding gui_prompter_order
order_error setting e h = ground arith

in_order :
    (d : Desktop) (r : Result (List Kind))
    → gui_prompter_order d.gui_setting ≡ r
    → verdict (confirm_in_order d r) ≢ no_mechanism
    → (ks : List Kind) × (r ≡ ok ks) × (confirm_in_order d r ≡ confirm_first d ks none)
in_order d (err e) p n = absurd (n (rw (order_error d.gui_setting e p)))
in_order d (ok []) p n = absurd (n refl)
in_order d (ok (k ∷ ks)) p n = (k ∷ ks, refl, refl)

in_session :
    (d : Desktop)
    → d.graphical_session ≡ true
    → gui_presence_confirm d ≡ confirm_in_order d (gui_prompter_order d.gui_setting)
unfolding gui_presence_confirm
in_session d here = rw here

no_session :
    (d : Desktop)
    → d.graphical_session ≡ false
    → gui_presence_confirm d ≡ some (sentinel no_gui_prompter)
unfolding gui_presence_confirm
no_session d gone = rw gone

-- a dialog needs a graphical session, a valid setting and a list of prompters
opened :
    (d : Desktop)
    → verdict (gui_presence_confirm d) ≢ no_mechanism
    → (ks : List Kind) × (d.graphical_session ≡ true)
      × (gui_prompter_order d.gui_setting ≡ ok ks)
      × (gui_presence_confirm d ≡ confirm_first d ks none)
opened d n = elim (Bool-cases d.graphical_session) [
  | inr gone ↦ absurd (n (ap verdict (no_session d gone)))
  | inl here ↦
      let (ks, order, same) =
        in_order d (gui_prompter_order d.gui_setting) refl
          (λ e. n (ap verdict (in_session d here) ∙ e)) in
      (ks, here, order, in_session d here ∙ same)
]

dialog_run :
    (d : Desktop) (ks : List Kind)
    → d.graphical_session ≡ true
    → gui_prompter_order d.gui_setting ≡ ok ks
    → verdict (gui_presence_confirm d) ≡ verdict (confirm_first d ks none)
unfolding gui_presence_confirm confirm_first
dialog_run d [] here order = rw (here, order)
dialog_run d (k ∷ ks) here order = rw (here, order)

chain_dialog :
    (d : Desktop)
    → d.fprintd_usable ≡ false
    → run_presence_chain d ≡ verdict (gui_presence_confirm d)
unfolding run_presence_chain
chain_dialog d u = rw u

chain_finger :
    (d : Desktop)
    → d.fprintd_usable ≡ true
    → run_presence_chain d ≡ (if d.fprintd_verified then none else denied)
unfolding run_presence_chain
chain_finger d u = rw u

verdict-none : (e : Err) → verdict e ≡ none → e ≡ none
verdict-none e h = ground arith

Confirmed-sound : (d : Desktop) → run_presence_chain d ≡ none → Confirmed d
Confirmed-sound d h = elim (Bool-cases d.fprintd_usable) [
  | inl u ↦ finger u (ground (arith, chain_finger d u))
  | inr u ↦
      let v : verdict (gui_presence_confirm d) ≡ none = sym (chain_dialog d u) ∙ h in
      let (ks, here, order, same) = opened d (λ e. cc) in
      dialog ks u here order (allow_sound d ks none (sym same ∙ verdict-none _ v))
]

Confirmed-complete : (d : Desktop) → Confirmed d → run_presence_chain d ≡ none
Confirmed-complete d (finger u v) = chain_finger d u ∙ rw v
Confirmed-complete d (dialog ks u here order a) =
    chain_dialog d u ∙ dialog_run d ks here order ∙ ap verdict (allow_complete d ks none a)

Declined-sound : (d : Desktop) → run_presence_chain d ≡ denied → Declined d
Declined-sound d h = elim (Bool-cases d.fprintd_usable) [
  | inl u ↦ wrong_finger u (ground (arith, chain_finger d u))
  | inr u ↦
      let v : verdict (gui_presence_confirm d) ≡ denied = sym (chain_dialog d u) ∙ h in
      let (ks, here, order, same) = opened d (λ e. cc) in
      dialog_declined ks u here order (decline_sound d ks none tt (sym (ap verdict same) ∙ v))
]

Declined-complete : (d : Desktop) → Declined d → run_presence_chain d ≡ denied
Declined-complete d (wrong_finger u v) = chain_finger d u ∙ rw v
Declined-complete d (dialog_declined ks u here order a) =
    chain_dialog d u ∙ dialog_run d ks here order ∙ decline_complete d ks none a

-- `runPresenceChain` returns nil exactly when the user confirmed through the first mechanism that
-- could ask, and `errPresenceDenied` exactly when that mechanism asked and the user did not confirm.
pub run_presence_chain_iff :
    (d : Desktop)
    → ((run_presence_chain d ≡ none) ↔ Confirmed d)
      × ((run_presence_chain d ≡ some (sentinel presence_denied)) ↔ Declined d)
run_presence_chain_iff d =
    ((Confirmed-sound d, Confirmed-complete d), (Declined-sound d, Declined-complete d))

chain_cases :
    (d : Desktop)
    → (run_presence_chain d ≡ none)
      ⊎ (run_presence_chain d ≡ denied)
      ⊎ (run_presence_chain d ≡ no_mechanism)
unfolding run_presence_chain
chain_cases d = ground arith

strict_lem : (d : Desktop) → (require_presence_strict d ≡ none) ↔ (run_presence_chain d ≡ none)
unfolding require_presence_strict
strict_lem d = (λ h. ground arith, λ h. ground arith)

lenient_lem :
    (d : Desktop) (allow_ungated : Bool)
    → require_user_presence d allow_ungated ≡ (
        if is_no_mechanism (run_presence_chain d)
        then if allow_ungated then none else some (sentinel denied_without_mechanism)
        else run_presence_chain d)
unfolding require_user_presence
lenient_lem d allow_ungated = ground arith

abbrev PassesUngated : Desktop → Bool → Type 0
PassesUngated d allow_ungated = (allow_ungated ≡ true) × (¬ Confirmed d) × (¬ Declined d)

ungated_sound :
    (d : Desktop) (allow_ungated : Bool)
    → require_user_presence d allow_ungated ≡ none
    → Confirmed d ⊎ PassesUngated d allow_ungated
ungated_sound d allow_ungated h = elim (chain_cases d) [
  | inl e ↦ inl (Confirmed-sound d e)
  | inr (inl e) ↦ absurd (ground (arith, lenient_lem d allow_ungated))
  | inr (inr e) ↦ inr (
    ground (arith, lenient_lem d allow_ungated),
    λ c. cc (Confirmed-complete d c),
    λ c. cc (Declined-complete d c),
  )
]

ungated_complete :
    (d : Desktop) (allow_ungated : Bool)
    → Confirmed d ⊎ PassesUngated d allow_ungated
    → require_user_presence d allow_ungated ≡ none
ungated_complete d allow_ungated (inl c) =
    ground (arith, lenient_lem d allow_ungated, Confirmed-complete d c)
ungated_complete d allow_ungated (inr (a, n, m)) = elim (chain_cases d) [
  | inl e ↦ absurd (n (Confirmed-sound d e))
  | inr (inl e) ↦ absurd (m (Declined-sound d e))
  | inr (inr e) ↦ ground (arith, lenient_lem d allow_ungated)
]

-- The strict check passes exactly when the user confirmed. The lenient check also passes with the
-- opt-out, on a machine where nobody could be asked; a user who declined is never overruled.
pub presence_checks_iff :
    (d : Desktop) (allow_ungated : Bool)
    → ((require_presence_strict d ≡ none) ↔ Confirmed d)
      × ((require_user_presence d allow_ungated ≡ none)
          ↔ (Confirmed d ⊎ ((allow_ungated ≡ true) × (¬ Confirmed d) × (¬ Declined d))))
presence_checks_iff d allow_ungated = (
  (λ h. Confirmed-sound d ((strict_lem d).0 h), λ c. (strict_lem d).1 (Confirmed-complete d c)),
  (ungated_sound d allow_ungated, ungated_complete d allow_ungated),
)
