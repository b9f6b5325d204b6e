-- ===== src/Daemon/Calls.antt =====
-- engine/svcobjects.go: a call on the bus, the policy for its sender, and its session.
use oma_seal.Prelude.{
  ℕ, Bool, true, false, not, Option, none, some, [], if◌then◌else◌, ◌==◌, nat_eq, bytes_eq, Map,
  lookup,
}
use oma_seal.Errors.{Result, ok, err}
use oma_seal.Bytes.{Bytes}
use oma_seal.Agent.{Agent, Mode, open_mode, ask, lock, Policy, load_agent_policy}
use oma_seal.Native.Crypto.{Age}
use oma_seal.Native.Store.{Outcome}
use oma_seal.Svc.{Aes, codec_encrypt, codec_decrypt}
use oma_seal.Daemon.{Codec, plain_codec, dh_codec, Session, SvcDaemon}
use oma_seal.Daemon.Items.{
  BusError, BusResult, bus_err, bus_ok, no_session, access_denied, unknown_object, bus_error_of,
}
use oma_seal.Daemon.Rows.{
  PathClass, class_service, class_collection, class_item, class_session, Answer,
}

-- A call on the bus: the path, the unique name of the sender, and the sender's user, if the bus tells.
pub record Call : Type 0 where
  pub path : Bytes
  pub sender : Bytes
  pub peer : Option ℕ

-- the wire struct of a secret
pub record SvcSecret : Type 0 where
  pub session : Bytes
  pub params : Bytes
  pub value : Bytes

abbrev pub is_lock_mode : Mode → Bool
is_lock_mode lock = true
is_lock_mode ask = false
is_lock_mode open_mode = false

abbrev pub mode_locked : Result Policy → Bool
mode_locked (err e) = false
mode_locked (ok p) = is_lock_mode p.mode

unfoldable pub svc_agent_mode_locked : Agent → Bool
unfolding load_agent_policy
svc_agent_mode_locked a = mode_locked (load_agent_policy a.policy_file)

-- `own_uid` is the user that the daemon runs as.
abbrev pub gate_peer : ℕ → Option ℕ → Agent → BusResult ℕ
gate_peer own_uid none a = bus_err access_denied
gate_peer own_uid (some uid) a =
    if not (uid == own_uid)
    then bus_err access_denied
    else if svc_agent_mode_locked a
    then bus_err access_denied
    else bus_ok uid

unfoldable pub svc_gate : ℕ → Call → Agent → BusResult ℕ
unfolding svc_agent_mode_locked
svc_gate own_uid c a = if c.sender == [] then bus_err access_denied else gate_peer own_uid c.peer a

abbrev pub session_found : Option Session → Bytes → BusResult Session
session_found none sender = bus_err no_session
session_found (some s) sender = if s.owner == sender then bus_ok s else bus_err access_denied

unfoldable pub session_for : Call → Bytes → Map Bytes Session → BusResult Session
unfolding lookup
session_for c path sessions = session_found (lookup path sessions) c.sender

-- the codecs' `encrypt` and `decrypt`; `iv` is what the random source gives
abbrev pub encrypt : Aes → Codec → Option Bytes → Bytes → Result (Bytes × Bytes)
encrypt aes plain_codec iv secret = ok ([], secret)
encrypt aes (dh_codec key) iv secret = codec_encrypt aes key iv secret

abbrev pub decrypt : Aes → Codec → Bytes → Bytes → Result Bytes
decrypt aes plain_codec params value = ok value
decrypt aes (dh_codec key) params value = codec_decrypt aes key params value

abbrev pub is_service_class : PathClass → Bool
is_service_class class_service = true
is_service_class _ = false

abbrev pub is_collection_class : PathClass → Bool
is_collection_class class_collection = true
is_collection_class _ = false

abbrev pub is_item_class : PathClass → Bool
is_item_class class_item = true
is_item_class _ = false

abbrev pub is_session_class : PathClass → Bool
is_session_class class_session = true
is_session_class _ = false

abbrev pub of_bus : {A : Type 0} → BusError → Result A → BusResult A
of_bus e (err _) = bus_err e
of_bus e (ok a) = bus_ok a

module _ {age : Age} where
  abbrev pub then_answer :
      {A B : Type 0} → Answer A age → (A → SvcDaemon age → Answer B age) → Answer B age
  then_answer (bus_err e, d) next = (bus_err e, d)
  then_answer (bus_ok a, d) next = next a d

  abbrev pub guard :
      {A B : Type 0} → BusResult A → (A → Answer B age) → SvcDaemon age → Answer B age
  guard (bus_err e) next d = (bus_err e, d)
  guard (bus_ok a) next d = next a

  -- what every method starts with: the class of its path, and `svcGate`
  abbrev pub on_class :
      {B : Type 0} → Bool → ℕ → Call → SvcDaemon age → (ℕ → Answer B age) → Answer B age
  on_class right own_uid c d next =
      if right then guard (svc_gate own_uid c d.store.agent) next d else (bus_err unknown_object, d)

  abbrev pub of_outcome : {A : Type 0} → SvcDaemon age → Outcome A age → Answer A age
  of_outcome d (err e, s) = (bus_err (bus_error_of e), record d { store = s })
  of_outcome d (ok a, s) = (bus_ok a, record d { store = s })
