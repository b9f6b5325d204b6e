-- ===== src/Presence/Prompters.antt =====
-- What a fingerprint, a dialog and a refusal mean, and which of them the prompters give.
use oma_seal.Prelude.{
  ◌≡◌, refl, ◌∙◌, ◌⊎◌, inl, inr, true, false, none, some, List, [], ◌∷◌, arith, Bool-cases, nat_eq,
  bytes_eq,
}
use oma_seal.Errors.{ok, plain, sentinel, presence_denied, prompt_cancelled, no_gui_prompter}
use oma_seal.Presence.{
  Kind, Answer, allow, decline, broken, Desktop, Err, gui_prompter_order, confirm_first,
  is_cancelled, verdict,
}

-- The first prompter of the list that can show a dialog gets this answer.
pub data Answers (d : Desktop) (a : Answer) : List Kind → Type 0 where
  answered :
      {k : Kind} {ks : List Kind} → d.available k ≡ true → d.confirm k ≡ a → Answers d a (k ∷ ks)
  unavailable :
      {k : Kind} {ks : List Kind} → d.available k ≡ false → Answers d a ks → Answers d a (k ∷ ks)
  unusable :
      {k : Kind} {ks : List Kind}
      → d.available k ≡ true
      → d.confirm k ≡ broken
      → Answers d a ks
      → Answers d a (k ∷ ks)

-- The user confirmed: by a matching finger on a usable reader, or, without a usable reader, in the
-- first dialog that could be shown on the desktop.
pub data Confirmed (d : Desktop) : Type 0 where
  finger : d.fprintd_usable ≡ true → d.fprintd_verified ≡ true → Confirmed d
  dialog :
      (ks : List Kind)
      → d.fprintd_usable ≡ false
      → d.graphical_session ≡ true
      → gui_prompter_order d.gui_setting ≡ ok ks
      → Answers d allow ks
      → Confirmed d

-- The user was asked and did not confirm.
pub data Declined (d : Desktop) : Type 0 where
  wrong_finger : d.fprintd_usable ≡ true → d.fprintd_verified ≡ false → Declined d
  dialog_declined :
      (ks : List Kind)
      → d.fprintd_usable ≡ false
      → d.graphical_session ≡ true
      → gui_prompter_order d.gui_setting ≡ ok ks
      → Answers d decline ks
      → Declined d

abbrev pub denied : Err
denied = some (sentinel presence_denied)

-- an error that is not the user's answer
abbrev IsQuiet : Err → Type 0
IsQuiet none = Unit
IsQuiet (some e) = is_cancelled e.cause ≡ false

Answer-cases : (a : Answer) → (a ≡ allow) ⊎ (a ≡ decline) ⊎ (a ≡ broken)
Answer-cases allow = inl refl
Answer-cases decline = inr (inl refl)
Answer-cases broken = inr (inr refl)

module _ (d : Desktop) where
  skip_unavailable :
      (k : Kind) (ks : List Kind) (last : Err)
      → d.available k ≡ false
      → confirm_first d (k ∷ ks) last ≡ confirm_first d ks (some (sentinel no_gui_prompter))
  unfolding confirm_first
  skip_unavailable k ks last gone = ground arith

  skip_broken :
      (k : Kind) (ks : List Kind) (last : Err)
      → d.available k ≡ true
      → d.confirm k ≡ broken
      → confirm_first d (k ∷ ks) last ≡ confirm_first d ks (some plain)
  unfolding confirm_first
  skip_broken k ks last here e = ground arith

  first_allow :
      (k : Kind) (ks : List Kind) (last : Err)
      → d.available k ≡ true
      → d.confirm k ≡ allow
      → confirm_first d (k ∷ ks) last ≡ none
  unfolding confirm_first
  first_allow k ks last here e = ground arith

  first_decline :
      (k : Kind) (ks : List Kind) (last : Err)
      → d.available k ≡ true
      → d.confirm k ≡ decline
      → confirm_first d (k ∷ ks) last ≡ some (sentinel prompt_cancelled)
  unfolding confirm_first
  first_decline k ks last here e = ground arith

  pub allow_sound :
      (ks : List Kind) (last : Err) → confirm_first d ks last ≡ none → Answers d allow ks
  allow_sound [] none h = unfold confirm_first in cc
  allow_sound [] (some e) h = unfold confirm_first in cc
  allow_sound (k ∷ ks) last h = elim (Bool-cases (d.available k)) [
    | inr gone ↦ unavailable gone (
        allow_sound ks (some (sentinel no_gui_prompter))
          (rw (skip_unavailable k ks last gone) at h))
    | inl here ↦ elim (Answer-cases (d.confirm k)) [
      | inl e ↦ answered here e
      | inr (inl e) ↦ cc (rw (first_decline k ks last here e) at h)
      | inr (inr e) ↦
          unusable here e (allow_sound ks (some plain) (rw (skip_broken k ks last here e) at h))
    ]
  ]

  pub allow_complete :
      (ks : List Kind) (last : Err) → Answers d allow ks → confirm_first d ks last ≡ none
  allow_complete _ last (answered {k} {ks} here e) = first_allow k ks last here e
  allow_complete _ last (unavailable {k} {ks} gone a) =
      skip_unavailable k ks last gone ∙ allow_complete ks _ a
  allow_complete _ last (unusable {k} {ks} here e a) =
      skip_broken k ks last here e ∙ allow_complete ks _ a

  pub decline_sound :
      (ks : List Kind) (last : Err)
      → IsQuiet last
      → verdict (confirm_first d ks last) ≡ denied
      → Answers d decline ks
  decline_sound [] none q h = unfold confirm_first in cc
  decline_sound [] (some e) q h = unfold confirm_first in ground arith
  decline_sound (k ∷ ks) last q h = elim (Bool-cases (d.available k)) [
    | inr gone ↦ unavailable gone (
        decline_sound ks (some (sentinel no_gui_prompter)) refl
          (rw (skip_unavailable k ks last gone) at h))
    | inl here ↦ elim (Answer-cases (d.confirm k)) [
      | inl e ↦ cc (rw (first_allow k ks last here e) at h)
      | inr (inl e) ↦ answered here e
      | inr (inr e) ↦
          unusable here e
            (decline_sound ks (some plain) refl (rw (skip_broken k ks last here e) at h))
    ]
  ]

  pub decline_complete :
      (ks : List Kind) (last : Err)
      → Answers d decline ks
      → verdict (confirm_first d ks last) ≡ denied
  decline_complete _ last (answered {k} {ks} here e) = rw (first_decline k ks last here e)
  decline_complete _ last (unavailable {k} {ks} gone a) =
      rw (skip_unavailable k ks last gone) (decline_complete ks _ a)
  decline_complete _ last (unusable {k} {ks} here e a) =
      rw (skip_broken k ks last here e) (decline_complete ks _ a)
