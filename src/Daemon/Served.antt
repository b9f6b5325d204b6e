-- ===== src/Daemon/Served.antt =====
-- What a client that is served a secret has, and has shown.
use oma_seal.Prelude.{
  ◌≡◌, refl, ap, ◌∙◌, subst, Bool, true, false, Option, some, nat_eq, bytes_eq, length, lookup,
}
use oma_seal.Bytes.{Bytes}
use oma_seal.Errors.{ok}
use oma_seal.Native.Crypto.{Age}
use oma_seal.Native.Items.{get}
use oma_seal.Daemon.{Codec, Session, SvcItem, SvcDaemon, SvcWorld}
use oma_seal.Daemon.Lock.{locked}
use oma_seal.Daemon.Calls.{Call}
use oma_seal.Daemon.Methods.{Host}
use oma_seal.Svc.{AesLaws, aes_block_size, codec_encrypt, codec_decrypt}
use oma_seal.Native.Key.{svc_split_key}
use oma_seal.Daemon.Items.{BusResult, bus_ok, failed}
use oma_seal.Daemon.Rows.{svc_classify, item_at}
use oma_seal.Daemon.Calls.{
  SvcSecret, session_for, encrypt, decrypt, is_item_class, of_bus, of_outcome,
}
use oma_seal.Daemon.Methods.{
  Host, wrapped, wrap_secret, read_named, key_names, read_unlocked, get_secret,
}
use oma_seal.Daemon.Admitted.{
  guard_ok, then_answer_ok, on_class_ok, of_bus_ok, outcome_ok, Admitted, gate-Admitted,
  session_found_own, decrypt-encrypt,
}

secret_same :
    {session : Bytes} (v : Bytes × Bytes) (secret : SvcSecret)
    → BusResult.bus_ok (wrapped session v) ≡ bus_ok secret
    → wrapped session v ≡ secret
secret_same (params, value) secret h = cc

-- What a client of GetSecret has shown, and has.
pub record Served (h : Host) {age : Age} (w : SvcWorld age) (c : Call) (session : Bytes)
    (d : SvcDaemon age) (secret : SvcSecret) : Type 0 where
  pub admitted : Admitted h.own_uid c d.store.agent
  pub the_session : Session
  pub is_session : lookup session d.sessions ≡ some the_session
  pub own_session : the_session.owner ≡ c.sender
  pub unlocked : (locked w d).0 ≡ false
  pub row : SvcItem
  pub reconciled : SvcDaemon age
  pub is_row : item_at h.digest w c.path (locked w d).1 ≡ (bus_ok row, reconciled)
  pub service : Bytes
  pub account : Bytes
  pub names : key_names (svc_split_key row.key) ≡ (service, account)
  pub text : Bytes
  pub stored : (get w.native service account reconciled.store).0 ≡ ok text
  pub unwraps : decrypt h.aes the_session.codec secret.params secret.value ≡ ok text

module _ (h : Host) (laws : AesLaws h.aes) {age : Age} (w : SvcWorld age) (c : Call)
    (iv : Option Bytes) (session : Bytes) where
  wrapped_ok :
      (codec : Codec) (text : Bytes) (d : SvcDaemon age) (secret : SvcSecret)
      → ((v : Bytes) → iv ≡ some v → length v ≡ aes_block_size)
      → (wrap_secret h codec iv session text d).0 ≡ bus_ok secret
      → decrypt h.aes codec secret.params secret.value ≡ ok text
  unfolding codec_encrypt codec_decrypt
  wrapped_ok codec text d secret block k =
      let ((params, value), e, same) =
        guard_ok (of_bus failed (encrypt h.aes codec iv text)) _ d secret k in
      let sealed = of_bus_ok failed (encrypt h.aes codec iv text) (params, value) e in
      subst (λ (x : SvcSecret). decrypt h.aes codec x.params x.value ≡ ok text)
        (secret_same (params, value) secret same)
        (decrypt-encrypt h.aes laws codec iv text params value block sealed)

  key_ok :
      (names : Bytes × Bytes) (codec : Codec) (d : SvcDaemon age) (secret : SvcSecret)
      → ((v : Bytes) → iv ≡ some v → length v ≡ aes_block_size)
      → (read_named h w names codec iv session d).0 ≡ bus_ok secret
      → (service : Bytes) × (account : Bytes) × (text : Bytes) × (names ≡ (service, account))
        × ((get w.native service account d.store).0 ≡ ok text)
        × (decrypt h.aes codec secret.params secret.value ≡ ok text)
  unfolding get codec_encrypt codec_decrypt
  key_ok (service, account) codec d secret block k =
      let (text, d', got, rest) =
        then_answer_ok (of_outcome d (get w.native service account d.store)) _ secret k in
      (
        service,
        account,
        text,
        refl,
        outcome_ok d d' (get w.native service account d.store) text got,
        wrapped_ok codec text d' secret block rest,
      )

  unlocked_ok :
      (s : Session) (d : SvcDaemon age) (r : Bool × SvcDaemon age) (secret : SvcSecret)
      → ((v : Bytes) → iv ≡ some v → length v ≡ aes_block_size)
      → Admitted h.own_uid c d.store.agent
      → lookup session d.sessions ≡ some s
      → s.owner ≡ c.sender
      → locked w d ≡ r
      → (read_unlocked h w c s iv session r).0 ≡ bus_ok secret
      → Served h w c session d secret
  unfolding item_at svc_split_key get codec_encrypt codec_decrypt
  unlocked_ok s d (true, d') secret block admitted at own state k = cc
  unlocked_ok s d (false, d') secret block admitted at own state k =
      let (row, e, is_row, rest) = then_answer_ok (item_at h.digest w c.path d') _ secret k in
      let (service, account, text, names, stored, unwraps) =
        key_ok (key_names (svc_split_key row.key)) s.codec e secret block rest in
      record {
        admitted = admitted;
        the_session = s;
        is_session = at;
        own_session = own;
        unlocked = ap (λ (x : Bool × SvcDaemon age). x.0) state;
        row = row;
        reconciled = e;
        is_row = ap (λ (x : Bool × SvcDaemon age). item_at h.digest w c.path x.1) state ∙ is_row;
        service = service;
        account = account;
        names = names;
        text = text;
        stored = stored;
        unwraps = unwraps;
      }

  -- GetSecret serves a secret only to a process of the daemon's own user while the agent policy is not
  -- locked, in a session of that client's, while the store is unlocked; and what the client unwraps
  -- with the session's codec is what the store's `Get` answers for the credential of the item's row.
  -- The random source gives IVs of one block.
  pub get_secret-Served :
      (d : SvcDaemon age) (secret : SvcSecret)
      → ((v : Bytes) → iv ≡ some v → length v ≡ aes_block_size)
      → (get_secret h w c iv session d).0 ≡ bus_ok secret
      → Served h w c session d secret
  unfolding get_secret svc_classify session_for
  get_secret-Served d secret block k =
      let (uid, gate, rest) =
        on_class_ok (is_item_class (svc_classify c.path)) h.own_uid c d _ secret k in
      let (s, found, rest') = guard_ok (session_for c session d.sessions) _ d secret rest in
      let (at, own) = session_found_own (lookup session d.sessions) c.sender s found in
      unlocked_ok s d (locked w d) secret block (gate-Admitted h.own_uid uid c d.store.agent gate)
        at own refl rest'
