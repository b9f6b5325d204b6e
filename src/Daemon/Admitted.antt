-- ===== src/Daemon/Admitted.antt =====
-- engine/svcobjects.go: what the checks at the start of a method have found.
use oma_seal.Prelude.{
  ℕ, ◌≡◌, refl, sym, ap, ◌∙◌, subst, ◌≢◌, inl, inr, Bool, true, false, not, Option, none, some, [],
  arith, if◌then◌else◌, Bool-cases, ◌==◌, eq_iff, nat_eq, bytes_eq, length,
}
use oma_seal.Bytes.{Bytes}
use oma_seal.Errors.{Result, ok, err}
use oma_seal.Native.Crypto.{Age}
use oma_seal.Native.Store.{Outcome}
use oma_seal.Daemon.{Codec, Session, SvcDaemon}
use oma_seal.Daemon.Calls.{Call}
use oma_seal.Daemon.Rows.{Answer}
use oma_seal.Agent.{Agent}
use oma_seal.Svc.{Aes, AesLaws, aes_block_size, codec_encrypt, codec_decrypt}
use oma_seal.Svc.Codec.{codec_decrypt-codec_encrypt}
use oma_seal.Daemon.{plain_codec, dh_codec}
use oma_seal.Daemon.Items.{BusError, BusResult, bus_err, bus_ok}
use oma_seal.Daemon.Calls.{
  svc_gate, gate_peer, svc_agent_mode_locked, session_found, encrypt, decrypt, of_bus, then_answer,
  guard, on_class, of_outcome,
}
use oma_seal.Errors.{◌>>=◌}

-- What a call that succeeds has got past.
pub guard_ok :
    {age : Age} {A B : Type 0} (r : BusResult A) (next : A → Answer B age) (d : SvcDaemon age)
    (b : B)
    → (guard r next d).0 ≡ bus_ok b
    → (a : A) × (r ≡ bus_ok a) × ((next a).0 ≡ bus_ok b)
guard_ok (bus_err e) next d b h = cc
guard_ok (bus_ok a) next d b h = (a, refl, h)

pub then_answer_ok :
    {age : Age} {A B : Type 0} (o : Answer A age) (next : A → SvcDaemon age → Answer B age) (b : B)
    → (then_answer o next).0 ≡ bus_ok b
    → (a : A) × (d : SvcDaemon age) × (o ≡ (bus_ok a, d)) × ((next a d).0 ≡ bus_ok b)
then_answer_ok (bus_err e, d) next b h = cc
then_answer_ok (bus_ok a, d) next b h = (a, d, refl, h)

pub on_class_ok :
    {age : Age} {B : Type 0} (right : Bool) (own_uid : ℕ) (c : Call) (d : SvcDaemon age)
    (next : ℕ → Answer B age) (b : B)
    → (on_class right own_uid c d next).0 ≡ bus_ok b
    → (uid : ℕ) × (svc_gate own_uid c d.store.agent ≡ bus_ok uid) × ((next uid).0 ≡ bus_ok b)
unfolding svc_gate
on_class_ok true own_uid c d next b h = guard_ok (svc_gate own_uid c d.store.agent) next d b h
on_class_ok false own_uid c d next b h = cc

pub of_bus_ok :
    {A : Type 0} (e : BusError) (r : Result A) (a : A) → of_bus e r ≡ bus_ok a → r ≡ ok a
of_bus_ok e (err x) a h = cc
of_bus_ok e (ok x) a h = cc

pub outcome_ok :
    {age : Age} {A : Type 0} (d e : SvcDaemon age) (o : Outcome A age) (a : A)
    → of_outcome d o ≡ (bus_ok a, e)
    → o.0 ≡ ok a
outcome_ok d e (err x, s) a h = cc
outcome_ok d e (ok x, s) a h =
    let same : BusResult.bus_ok x ≡ bus_ok a = ap (λ (r : Answer _ _). r.0) h in cc

-- whose calls are served: the daemon's own user's, unless the agent policy is locked
pub record Admitted (own_uid : ℕ) (c : Call) (a : Agent) : Type 0 where
  pub has_sender : c.sender ≢ []
  pub own_user : c.peer ≡ some own_uid
  pub not_locked : svc_agent_mode_locked a ≡ false

past_guard :
    {A : Type 0} (b : Bool) (e : BusError) (r : BusResult A) (a : A)
    → (if b then bus_err e else r) ≡ bus_ok a
    → (b ≡ false) × (r ≡ bus_ok a)
past_guard true e r a h = cc
past_guard false e r a h = (refl, h)

was_true : (b : Bool) → not b ≡ false → b ≡ true
was_true true h = refl
was_true false h = cc

gate_peer-Admitted :
    (own_uid uid : ℕ) (c : Call) (a : Agent) (peer : Option ℕ)
    → c.sender ≢ []
    → c.peer ≡ peer
    → gate_peer own_uid peer a ≡ bus_ok uid
    → Admitted own_uid c a
unfolding svc_agent_mode_locked
gate_peer-Admitted own_uid uid c a none named at h = cc
gate_peer-Admitted own_uid uid c a (some peer) named at h =
    let (own, rest) = past_guard (not (peer == own_uid)) _ _ uid h in
    let (mode, _) = past_guard (svc_agent_mode_locked a) _ _ uid rest in
    record {
      has_sender = named;
      own_user = at ∙ ap some ((eq_iff peer own_uid).0 (was_true (peer == own_uid) own));
      not_locked = mode;
    }

pub gate-Admitted :
    (own_uid uid : ℕ) (c : Call) (a : Agent)
    → svc_gate own_uid c a ≡ bus_ok uid
    → Admitted own_uid c a
unfolding svc_gate svc_agent_mode_locked
gate-Admitted own_uid uid c a h =
    let (named, rest) = past_guard (c.sender == []) _ _ uid h in
    gate_peer-Admitted own_uid uid c a c.peer (λ e. cc (named, (eq_iff c.sender []).1 e)) refl rest

pub session_found_own :
    (found : Option Session) (sender : Bytes) (s : Session)
    → session_found found sender ≡ bus_ok s
    → (found ≡ some s) × (s.owner ≡ sender)
session_found_own none sender s h = cc
session_found_own (some x) sender s h = elim (Bool-cases (x.owner == sender)) [
  | inl e ↦
      let same : x ≡ s = ground arith in
      (ap some same, subst (λ (y : Session). y.owner ≡ sender) same ((eq_iff x.owner sender).0 e))
  | inr e ↦ absurd (ground arith)
]

-- What the codec of a session wraps, it unwraps.
pub decrypt-encrypt :
    (aes : Aes) (laws : AesLaws aes) (codec : Codec) (iv : Option Bytes) (text params value : Bytes)
    → ((v : Bytes) → iv ≡ some v → length v ≡ aes_block_size)
    → encrypt aes codec iv text ≡ ok (params, value)
    → decrypt aes codec params value ≡ ok text
unfolding codec_encrypt codec_decrypt
decrypt-encrypt aes laws plain_codec iv text params value block h =
    ap ok (sym (ap (λ (r : Result (Bytes × Bytes)). elim r [ err _ ↦ text | ok p ↦ p.1 ]) h))
decrypt-encrypt aes laws (dh_codec key) none text params value block h = cc
decrypt-encrypt aes laws (dh_codec key) (some iv) text params value block h =
    elim (Bool-cases (aes.new_cipher key)) [
      | inl e ↦
          subst
            (λ (r : Result (Bytes × Bytes)). (r >>= λ (p, v). codec_decrypt aes key p v) ≡ ok text)
            h (codec_decrypt-codec_encrypt aes laws key iv text e (block iv refl))
      | inr e ↦ absurd (ground arith)
    ]
