-- ===== src/Native/Unprompted.antt =====
-- engine/nativestore.go: initialising and unlocking with nobody to answer.
use oma_seal.Prelude.{
  ◌≡◌, refl, sym, ap, ◌∙◌, subst, Bool, true, false, not, ◌&&◌, Option, none, some, if◌then◌else◌,
  nat_eq, bytes_eq, if_cases,
}
use oma_seal.Errors.{Error, ok, err}
use oma_seal.Files.{File, absent, unreadable, corrupt, holds}
use oma_seal.Native.Crypto.{Age}
use oma_seal.Native.Store.{
  NativeStore, World, Outcome, then_do, load_session, load_from, ensure_identity, identity_unless,
  or_prompt, unlock_with, locked_error,
}
use oma_seal.Native.Init.{
  ensure_init, init_unless, init_from, init_fresh, init_locked, with_rival, or_heal, load_pub,
  read_pub, heal_pub,
}
use oma_seal.Native.Init.{write_pub}
use oma_seal.Errors.{sentinel, not_exist}
use oma_seal.Prelude.{if_cases, sym, subst}

both_alike {ℓ} : {A : Type ℓ} (b : Bool) (x : A) → (if b then x else x) ≡ x
both_alike true x = refl
both_alike false x = refl

module _ {age : Age} where
  pub record Closed (s : NativeStore age) : Type 0 where
    pub no_identity : s.identity ≡ none
    pub no_session : s.session_json ≡ absent

  -- nobody answers at a terminal
  abbrev pub Unattended : World age → Type 0
  Unattended w = w.first_answer ≡ none

  pub load-Closed : (w : World age) (s : NativeStore age) → Closed s → (load_session w s).1 ≡ s
  unfolding load_session
  load-Closed w s c = ap (λ (f : File _). (load_from w f s).1) c.no_session

  load-fails :
      (w : World age) (s : NativeStore age)
      → Closed s
      → (e : Error) × (load_session w s ≡ (err e, s))
  unfolding load_session
  load-fails w s c = (_, ap (λ (f : File _). load_from w f s) c.no_session)

  nobody_answers :
      (w : World age) (e : Error) (s : NativeStore age)
      → Unattended w
      → or_prompt w (err e, s) ≡ (err locked_error, s)
  nobody_answers w e s quiet =
      ap (λ o. if w.can_prompt then unlock_with w o s else (err locked_error, s)) quiet
      ∙ both_alike w.can_prompt (err locked_error, s)

  -- The identity is not to be had.
  pub ensure_identity-Closed :
      (w : World age) (s : NativeStore age)
      → Unattended w
      → Closed s
      → ensure_identity w s ≡ (err locked_error, s)
  unfolding ensure_identity load_session
  ensure_identity-Closed w s quiet c =
      ap (λ o. identity_unless o w s) c.no_identity
      ∙ ap (λ f. or_prompt w (load_from w f s)) c.no_session
      ∙ nobody_answers w (sentinel not_exist) s quiet

  pub then_do-Closed :
      {A B : Type 0} (o : Outcome A age) (k : A → NativeStore age → Outcome B age)
      → Closed o.1
      → ((a : A) (s : NativeStore age) → Closed s → Closed (k a s).1)
      → Closed (then_do o k).1
  then_do-Closed (ok a, s) k h f = f a s h
  then_do-Closed (err e, s) k h f = h

  heal_fails :
      (w : World age) (s : NativeStore age) → Unattended w → Closed s → Closed (heal_pub w s).1
  unfolding heal_pub ensure_identity
  heal_fails w s quiet c =
      subst
        (λ (o : Outcome (Unit {0}) age). Closed (then_do o (λ _ s'. write_pub w s'.identity s')).1)
        (sym (ensure_identity-Closed w s quiet c)) c

  healed-Closed :
      (w : World age) (f : File age.Recipient) (s : NativeStore age)
      → Unattended w
      → Closed s
      → Closed (or_heal w (read_pub f s)).1
  unfolding heal_pub ensure_identity
  healed-Closed w (holds r) s quiet c = record {
    no_identity = c.no_identity;
    no_session = c.no_session;
  }
  healed-Closed w absent s quiet c = heal_fails w s quiet c
  healed-Closed w unreadable s quiet c = heal_fails w s quiet c
  healed-Closed w corrupt s quiet c = heal_fails w s quiet c

  located-Closed :
      (w : World age) (f : File age.Cipher) (s : NativeStore age)
      → Unattended w
      → Closed s
      → Closed (init_locked w f s).1
  unfolding load_pub heal_pub
  located-Closed w (holds blob) s quiet c =
      healed-Closed w s.pub_file _ quiet
        (record { no_identity = c.no_identity; no_session = c.no_session })
  located-Closed w absent s quiet c = rw quiet c
  located-Closed w unreadable s quiet c = c
  located-Closed w corrupt s quiet c = c

  rival-Closed :
      (r : Option (age.Cipher × File age.Recipient)) (s : NativeStore age)
      → Closed s
      → Closed (with_rival r s)
  rival-Closed none s c = c
  rival-Closed (some (blob, f)) s c = record {
    no_identity = c.no_identity;
    no_session = c.no_session;
  }

  fresh-Closed :
      (w : World age) (s : NativeStore age) → Unattended w → Closed s → Closed (init_fresh w s).1
  unfolding init_fresh load_pub heal_pub
  fresh-Closed w s quiet c =
      if_cases (λ (r : Outcome (Unit {0}) age). Closed r.1) (not (w.can_prompt && w.tty)) _ _
        (λ _. c)
        (λ _.
          if_cases (λ (r : Outcome (Unit {0}) age). Closed r.1) (not w.locks) _ _ (λ _. c)
            (λ _.
              located-Closed w (with_rival w.rival s).identity_file (with_rival w.rival s) quiet
                (rival-Closed w.rival s c)))

  from-Closed :
      (w : World age) (f : File age.Cipher) (s : NativeStore age)
      → Unattended w
      → Closed s
      → Closed (init_from w f s).1
  unfolding init_fresh load_pub heal_pub
  from-Closed w absent s quiet c = fresh-Closed w s quiet c
  from-Closed w (holds blob) s quiet c = located-Closed w (holds blob) s quiet c
  from-Closed w unreadable s quiet c = c
  from-Closed w corrupt s quiet c = c

  unless-Closed :
      (o : Option age.Recipient) (w : World age) (s : NativeStore age)
      → Unattended w
      → Closed s
      → Closed (init_unless o w s).1
  unfolding init_fresh load_pub heal_pub
  unless-Closed none w s quiet c = from-Closed w s.identity_file s quiet c
  unless-Closed (some r) w s quiet c = c

  pub init-Closed :
      (w : World age) (s : NativeStore age) → Unattended w → Closed s → Closed (ensure_init w s).1
  unfolding ensure_init
  init-Closed w s quiet c = unless-Closed s.pub_key w s quiet c
