-- ===== src/Presence.antt =====
-- engine/presence.go: proof that the local user responded.
pub mod Chain
pub mod Prompters
mod Examples
use oma_seal.Prelude.{
  ℕ, zero, suc, ◌+◌, ◌-◌, ◌*◌, ◌/◌, ◌%◌, ◌^◌, ◌≤◌, ◌<◌, ◌≡◌, refl, sym, ap, ◌∙◌, subst, fun_ext,
  ◌≢◌, ◌↔◌, ◌⊎◌, inl, inr, Bool, true, false, not, ◌&&◌, ◌||◌, Option, none, some, List, [], ◌∷◌,
  ◌++◌, map, append-nil, append_assoc, arith, ltb, leb, ltb→lt, lt→ltb, leb→le, bytes_beq,
  if◌then◌else◌, Bool-cases, Option-cases, and-eq-true, or-eq-false, Eq, ◌==◌, eq_iff, eq_refl,
  nat_eq, bytes_eq, length, length-append, keep, any, All, All-append, take, drop, Map, lookup,
  remove, insert, lookup-insert, lookup-remove,
}
use oma_seal.Errors.{
  Error, Result, ok, err, plain, sentinel, Cause, presence_denied, no_presence_mechanism,
  denied_without_mechanism, prompt_cancelled, no_gui_prompter, gui_disabled,
}
use oma_seal.Bytes.{Bytes, codes, to_lower, trim_space}

-- engine/guiprompt.go: the prompters
pub data Kind : Type 0 where
  pinentry zenity : Kind

-- What `confirm` of a prompter reports: the user allows, the user declines or lets it lapse, or the
-- prompter could not show a dialog.
pub data Answer : Type 0 where
  allow decline broken : Answer

-- The machine that a presence check runs on, and what its user does.
pub record Desktop : Type 0 where
  pub fprintd_usable : Bool
  pub fprintd_verified : Bool
  pub graphical_session : Bool
  -- the environment variable OMASEAL_GUI_PROMPT
  pub gui_setting : Bytes
  pub available : Kind → Bool
  pub confirm : Kind → Answer

-- An `error` that may be nil.
abbrev pub Err : Type 0
Err = Option Error

abbrev pub order_of : Bytes → Result (List Kind)
order_of v =
    if v == codes "off"
    then ok []
    else if v == []
    then ok (pinentry ∷ zenity ∷ [])
    else if v == codes "pinentry"
    then ok (pinentry ∷ [])
    else if v == codes "zenity"
    then ok (zenity ∷ [])
    else err plain

-- engine/guiprompt.go, guiPrompterOrder
unfoldable pub gui_prompter_order : Bytes → Result (List Kind)
unfolding to_lower trim_space bytes_beq
gui_prompter_order setting = order_of (to_lower (trim_space setting))

-- the loop of `guiPresenceConfirm`, with `lastErr`
unfoldable pub confirm_first : Desktop → List Kind → Err → Err
confirm_first d [] none = some (sentinel no_gui_prompter)
confirm_first d [] (some last) = some last
confirm_first d (k ∷ ks) last =
    let skip = confirm_first d ks (some (sentinel no_gui_prompter)) in
    let go_on = confirm_first d ks (some plain) in
    if not (d.available k) then skip else elim (d.confirm k) [
      | allow ↦ none
      | decline ↦ some (sentinel prompt_cancelled)
      | broken ↦ go_on
    ]

abbrev pub confirm_in_order : Desktop → Result (List Kind) → Err
confirm_in_order d (err e) = some e
confirm_in_order d (ok []) = some (sentinel gui_disabled)
confirm_in_order d (ok (k ∷ ks)) = confirm_first d (k ∷ ks) none

unfoldable pub gui_presence_confirm : Desktop → Err
unfolding gui_prompter_order confirm_first
gui_presence_confirm d =
    if not d.graphical_session
    then some (sentinel no_gui_prompter)
    else confirm_in_order d (gui_prompter_order d.gui_setting)

abbrev pub is_cancelled : Cause → Bool
is_cancelled prompt_cancelled = true
is_cancelled _ = false

abbrev pub verdict : Err → Err
verdict none = none
verdict (some e) =
    if is_cancelled e.cause
    then some (sentinel presence_denied)
    else some (sentinel no_presence_mechanism)

unfoldable pub run_presence_chain : Desktop → Err
unfolding gui_presence_confirm
run_presence_chain d =
    if d.fprintd_usable
    then if d.fprintd_verified then none else some (sentinel presence_denied)
    else verdict (gui_presence_confirm d)

abbrev pub is_missing : Cause → Bool
is_missing no_presence_mechanism = true
is_missing denied_without_mechanism = true
is_missing _ = false

-- errors.Is(err, errNoPresenceMechanism)
abbrev pub is_no_mechanism : Err → Bool
is_no_mechanism none = false
is_no_mechanism (some e) = is_missing e.cause

-- `allow_ungated` is the policy's deliberate opt-out.
unfoldable pub require_user_presence : Desktop → Bool → Err
unfolding run_presence_chain
require_user_presence d allow_ungated =
    let e = run_presence_chain d in
    if not (is_no_mechanism e)
    then e
    else if allow_ungated
    then none
    else some (sentinel denied_without_mechanism)

unfoldable pub require_presence_strict : Desktop → Err
unfolding run_presence_chain
require_presence_strict d =
    let e = run_presence_chain d in
    if not (is_no_mechanism e) then e else some (sentinel no_presence_mechanism)
