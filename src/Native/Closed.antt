-- ===== src/Native/Closed.antt =====
-- engine/nativestore.go: a store without identity and without session stays so, if nobody answers.
use oma_seal.Prelude.{
  ◌≡◌, refl, sym, ap, ◌∙◌, subst, Bool, true, ◌||◌, Option, none, some, [], ◌==◌, nat_eq, bytes_eq,
  lookup, if_cases,
}
use oma_seal.Bytes.{Bytes}
use oma_seal.Errors.{Result, ok, err}
use oma_seal.Files.{File}
use oma_seal.Native.Crypto.{Age}
use oma_seal.Native.Store.{
  NativeStore, NativeDoc, NativeItem, World, Outcome, store_target, then_do, ensure_identity,
}
use oma_seal.Native.Init.{ensure_init}
use oma_seal.Native.Items.{
  read, update, write_doc, locked_read, get, get_from, get_item, open_item, delete, deleted, set,
  set_ready, list,
}
use oma_seal.Native.Key.{native_key}
use oma_seal.Agent.{remove_if_exists}
use oma_seal.Native.Session.{gone_always}
use oma_seal.Native.Store.{
  session_json_target, clear_native_session, unlink_session_files, NativeSession,
}
use oma_seal.Prelude.{if_cases, lookup, ◌||◌, ◌==◌, sym, subst}
use oma_seal.Native.Unprompted.{
  Closed, Unattended, ensure_identity-Closed, then_do-Closed, init-Closed,
}

module _ {age : Age} where
  written-Closed :
      (r : Result (NativeDoc age)) (w : World age) (f : NativeDoc age → NativeDoc age)
      (s : NativeStore age)
      → Closed s
      → Closed (write_doc r w f s).1
  written-Closed (err e) w f s c = c
  written-Closed (ok d) w f s c =
      if_cases (λ (r : Outcome (Unit {0}) age). Closed r.1) (w.writes store_target) _ _
        (λ _. record { no_identity = c.no_identity; no_session = c.no_session }) (λ _. c)

  update-Closed :
      (w : World age) (f : NativeDoc age → NativeDoc age) (s : NativeStore age)
      → Closed s
      → Closed (update w f s).1
  unfolding update
  update-Closed w f s c = written-Closed (locked_read w s) w f s c

  ready-Closed :
      (o : Option age.Recipient) (w : World age) (service account secret : Bytes)
      (owned if_absent : Bool) (s : NativeStore age)
      → Closed s
      → Closed (set_ready w service account secret owned if_absent o s).1
  unfolding update
  ready-Closed none w service account secret owned if_absent s c = c
  ready-Closed (some r) w service account secret owned if_absent s c = update-Closed w _ s c

  pub set-Closed :
      (w : World age) (service account secret : Bytes) (owned if_absent : Bool)
      (s : NativeStore age)
      → Unattended w
      → Closed s
      → Closed (set w service account secret owned if_absent s).1
  unfolding set
  set-Closed w service account secret owned if_absent s quiet c =
      if_cases (λ (r : Outcome (Unit {0}) age). Closed r.1)
        (service == [] || account == [] || secret == []) _ _ (λ _. c)
        (λ _.
          then_do-Closed (ensure_init w s) _ (init-Closed w s quiet c)
            (λ _ s' c'. ready-Closed s'.pub_key w service account secret owned if_absent s' c'))

  deleted-Closed :
      (found : Bool) (o : Outcome (Unit {0}) age) → Closed o.1 → Closed (deleted found o).1
  deleted-Closed found (err e, s) c = c
  deleted-Closed found (ok _, s) c =
      if_cases (λ (r : Outcome (Unit {0}) age). Closed r.1) found _ _ (λ _. c) (λ _. c)

  pub delete-Closed :
      (w : World age) (service account : Bytes) (s : NativeStore age)
      → Unattended w
      → Closed s
      → Closed (delete w service account s).1
  unfolding delete update
  delete-Closed w service account s quiet c =
      if_cases (λ (r : Outcome (Unit {0}) age). Closed r.1) (service == [] || account == []) _ _
        (λ _. c)
        (λ _.
          then_do-Closed (ensure_init w s) _ (init-Closed w s quiet c)
            (λ _ s' c'. deleted-Closed _ _ (update-Closed w _ s' c')))

  item-Closed :
      (o : Option (NativeItem age)) (w : World age) (service account : Bytes) (s : NativeStore age)
      → Unattended w
      → Closed s
      → Closed (get_item w service account o s).1
  unfolding ensure_identity
  item-Closed none w service account s quiet c = c
  item-Closed (some it) w service account s quiet c =
      subst
        (λ (o : Outcome (Unit {0}) age).
          Closed (then_do o (λ _ s'. (open_item service account it s'.identity, s'))).1)
        (sym (ensure_identity-Closed w s quiet c)) c

  found-Closed :
      (r : Result (NativeDoc age)) (w : World age) (service account : Bytes) (s : NativeStore age)
      → Unattended w
      → Closed s
      → Closed (get_from r w service account s).1
  unfolding ensure_identity
  found-Closed (err e) w service account s quiet c = c
  found-Closed (ok d) w service account s quiet c =
      item-Closed (lookup (native_key service account) d) w service account s quiet c

  pub get-Closed :
      (w : World age) (service account : Bytes) (s : NativeStore age)
      → Unattended w
      → Closed s
      → Closed (get w service account s).1
  unfolding get
  get-Closed w service account s quiet c =
      if_cases (λ (r : Outcome Bytes age). Closed r.1) (service == [] || account == []) _ _ (λ _. c)
        (λ _.
          then_do-Closed (ensure_init w s) _ (init-Closed w s quiet c)
            (λ _ s' c'. found-Closed (read s') w service account s' quiet c'))

  pub list-Closed :
      (w : World age) (service : Bytes) (s : NativeStore age)
      → Unattended w
      → Closed s
      → Closed (list w service s).1
  unfolding list
  list-Closed w service s quiet c =
      then_do-Closed (ensure_init w s) _ (init-Closed w s quiet c) (λ _ s' c'. c')

  -- Clearing the session closes a store, if its file can be removed.
  pub clear-Closed :
      (w : World age) (s : NativeStore age)
      → w.removes session_json_target ≡ true
      → Closed (clear_native_session w s).1
  unfolding clear_native_session unlink_session_files
  clear-Closed w s removes = record {
    no_identity = refl;
    no_session =
        ap (λ b. (remove_if_exists b s.session_json).1) removes
        ∙ ap (λ (r : Result (Unit {0}) × File (NativeSession age)). r.1)
            (gone_always s.session_json);
  }

  pub reclear-Closed :
      (w : World age) (s : NativeStore age) → Closed s → Closed (clear_native_session w s).1
  unfolding clear_native_session unlink_session_files
  reclear-Closed w s c = record {
    no_identity = refl;
    no_session =
        ap
          (λ (f : File (NativeSession age)). (remove_if_exists (w.removes session_json_target) f).1)
          c.no_session;
  }
