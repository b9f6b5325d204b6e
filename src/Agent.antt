-- ===== src/Agent.antt =====
-- engine/agent.go: the agent policy, the agent session and the commands on them.
pub mod Gate
pub mod ModeChange
pub mod Revoked
mod Examples
use oma_seal.Prelude.{
  ℕ, zero, suc, ◌+◌, ◌-◌, ◌*◌, ◌/◌, ◌%◌, ◌^◌, ◌≤◌, ◌<◌, ◌≡◌, refl, sym, ap, ◌∙◌, subst, fun_ext,
  ◌≢◌, ◌↔◌, ◌⊎◌, inl, inr, Bool, true, false, not, ◌&&◌, ◌||◌, Option, none, some, List, [], ◌∷◌,
  ◌++◌, map, append-nil, append_assoc, arith, ltb, leb, ltb→lt, lt→ltb, leb→le, bytes_beq,
  if◌then◌else◌, Bool-cases, Option-cases, and-eq-true, or-eq-false, Eq, ◌==◌, eq_iff, eq_refl,
  nat_eq, bytes_eq, length, length-append, keep, any, All, All-append, take, drop, Map, lookup,
  remove, insert, lookup-insert, lookup-remove,
}
use oma_seal.Errors.{
  Error, Result, ok, err, plain, sentinel, new_error, agent_policy_read, agent_locked,
  agent_unauthorized, message, presence_denied, no_presence_mechanism,
}
use oma_seal.Bytes.{Bytes}
use oma_seal.Files.{
  File, absent, unreadable, corrupt, holds, second, add_minutes, unix, at_unix, before,
}
use oma_seal.Presence.{Desktop, Err, run_presence_chain, is_no_mechanism}

-- "open", "ask" and "lock"
pub data Mode : Type 0 where
  open_mode ask lock : Mode

pub record Policy : Type 0 where
  pub mode : Mode
  pub session_minutes : ℕ
  pub keep_alive : Bool
  pub allow_ungated : Bool
  pub primary_agent : Bytes
  pub agents : List Bytes

-- agent.json as it parses: `none` is any string that is no mode, and 0 minutes stand for any number
-- that is not positive.
pub record RawPolicy : Type 0 where
  pub raw_mode : Option Mode
  pub raw_minutes : ℕ
  pub raw_keep_alive : Bool
  pub raw_allow_ungated : Bool
  pub raw_primary_agent : Bytes
  pub raw_agents : List Bytes

-- agent.json, and the session file with its expiry as a Unix time
pub record Agent : Type 0 where
  pub policy_file : File RawPolicy
  pub session_file : File ℕ

unfoldable pub default_agent_policy : Policy
default_agent_policy = record {
  mode = ask;
  session_minutes = 15;
  keep_alive = false;
  allow_ungated = false;
  primary_agent = [];
  agents = [];
}

abbrev pub mode_or : Mode → Option Mode → Mode
mode_or d none = d
mode_or d (some m) = m

abbrev pub of_raw : RawPolicy → Policy
of_raw raw = record {
  mode = mode_or default_agent_policy.mode raw.raw_mode;
  session_minutes =
      if raw.raw_minutes == 0 then default_agent_policy.session_minutes else raw.raw_minutes;
  keep_alive = raw.raw_keep_alive;
  allow_ungated = raw.raw_allow_ungated;
  primary_agent = raw.raw_primary_agent;
  agents = raw.raw_agents;
}

abbrev pub to_raw : Policy → RawPolicy
to_raw p = record {
  raw_mode = some p.mode;
  raw_minutes = p.session_minutes;
  raw_keep_alive = p.keep_alive;
  raw_allow_ungated = p.allow_ungated;
  raw_primary_agent = p.primary_agent;
  raw_agents = p.agents;
}

-- An unreadable or corrupt file is an error.
unfoldable pub load_agent_policy : File RawPolicy → Result Policy
unfolding default_agent_policy
load_agent_policy absent = ok default_agent_policy
load_agent_policy unreadable = err plain
load_agent_policy corrupt = err plain
load_agent_policy (holds raw) = ok (of_raw raw)

abbrev pub policy_or_default : Result Policy → Policy
policy_or_default (ok p) = p
policy_or_default (err e) = default_agent_policy

unfoldable pub load_agent_policy_or_default : File RawPolicy → Policy
unfolding load_agent_policy
load_agent_policy_or_default f = policy_or_default (load_agent_policy f)

-- `writes` is whether the file system takes the write; it replaces the file as a whole.
unfoldable pub save_agent_policy : Bool → Policy → Agent → Result (Unit {0}) × Agent
save_agent_policy writes p a =
    if writes then (ok tt, record a { policy_file = holds (to_raw p) }) else (err plain, a)

unfoldable pub write_session_expiry : Bool → ℕ → Agent → Result (Unit {0}) × Agent
write_session_expiry writes expiry a =
    if writes then (ok tt, record a { session_file = holds (unix expiry) }) else (err plain, a)

-- A write of a record of 20 bytes into a file that is there, without truncating it, and never a new
-- file. It only follows a read of that file that parsed, and every record has this width, so that
-- the record is replaced as a whole; a file without one is not made good by it.
abbrev pub overwrite : File ℕ → ℕ → File ℕ
overwrite absent expiry = absent
overwrite unreadable expiry = unreadable
overwrite corrupt expiry = corrupt
overwrite (holds _) expiry = holds (unix expiry)

unfoldable pub renew_session_expiry : Bool → ℕ → Agent → Agent
renew_session_expiry writes expiry a =
    if writes then record a { session_file = overwrite a.session_file expiry } else a

abbrev pub expiry_of : File ℕ → Option ℕ
expiry_of absent = none
expiry_of unreadable = none
expiry_of corrupt = none
expiry_of (holds n) = some (at_unix n)

-- The expiry as an instant.
unfoldable pub read_session_expiry : Agent → Option ℕ
read_session_expiry a = expiry_of a.session_file

-- the end of a session that starts now
abbrev pub window_end : ℕ → Policy → ℕ
window_end now p = add_minutes now p.session_minutes

abbrev pub is_live : ℕ → Option ℕ → Bool
is_live now none = false
is_live now (some expiry) = before now expiry

-- Whether a session is live, and the agent's files after a keep-alive renewal.
unfoldable pub agent_session_active : Bool → ℕ → Policy → Agent → Bool × Agent
unfolding read_session_expiry renew_session_expiry
agent_session_active writes now p a =
    if not (is_live now (read_session_expiry a))
    then (false, a)
    else (true, if p.keep_alive then renew_session_expiry writes (window_end now p) a else a)

abbrev pub check_mode : Bool → ℕ → Policy → Mode → Agent → Result (Unit {0}) × Agent
check_mode writes now p open_mode a = (ok tt, a)
check_mode writes now p lock a = (err (new_error agent_locked message), a)
check_mode writes now p ask a =
    let (active, a') = agent_session_active writes now p a in
    if active then (ok tt, a') else (err (new_error agent_unauthorized message), a')

abbrev pub check_policy_result : Bool → ℕ → Result Policy → Agent → Result (Unit {0}) × Agent
check_policy_result writes now (err e) a = (err (new_error agent_policy_read message), a)
check_policy_result writes now (ok p) a = check_mode writes now p p.mode a

-- The operation's name only stands in messages.
unfoldable pub check_agent_operation : Bool → ℕ → Agent → Result (Unit {0}) × Agent
unfolding load_agent_policy agent_session_active
check_agent_operation writes now a =
    check_policy_result writes now (load_agent_policy a.policy_file) a

-- A session that outlives the new window is kept.
unfoldable pub mint_with : Bool → ℕ → Policy → Agent → Agent
unfolding read_session_expiry write_session_expiry
mint_with writes now p a =
    let expiry = window_end now p in
    if elim (read_session_expiry a) [ none ↦ false | some current ↦ before expiry current ]
    then a
    else (write_session_expiry writes expiry a).1

abbrev pub is_ask : Mode → Bool
is_ask ask = true
is_ask _ = false

abbrev pub mint_result : Bool → ℕ → Result Policy → Agent → Agent
mint_result writes now (err e) a = a
mint_result writes now (ok p) a = if is_ask p.mode then mint_with writes now p a else a

unfoldable pub mint_agent_session_if_ask : Bool → ℕ → Agent → Agent
unfolding load_agent_policy mint_with
mint_agent_session_if_ask writes now a = mint_result writes now (load_agent_policy a.policy_file) a

-- `none` is a mode string that is not valid.
abbrev pub update_policy : Bool → (Policy → Policy) → Agent → Result (Unit {0}) × Agent
update_policy writes change a = elim (load_agent_policy a.policy_file) [
  | err e ↦ (err e, a)
  | ok p ↦ save_agent_policy writes (change p) a
]

unfoldable pub set_agent_mode : Bool → Option Mode → ℕ → Bool → Agent → Result (Unit {0}) × Agent
unfolding load_agent_policy save_agent_policy
set_agent_mode writes none minutes allow_ungated a = (err plain, a)
set_agent_mode writes (some mode) minutes allow_ungated a =
    update_policy writes
      (λ p. record p {
        mode = mode;
        allow_ungated = is_ask mode && allow_ungated;
        session_minutes = if minutes == 0 then p.session_minutes else minutes;
      })
      a

unfoldable pub set_keep_alive : Bool → Bool → Agent → Result (Unit {0}) × Agent
unfolding load_agent_policy save_agent_policy
set_keep_alive writes on a = update_policy writes (λ p. record p { keep_alive = on }) a

abbrev pub remove_if_exists {ℓ} : {A : Type ℓ} → Bool → File A → Result (Unit {0}) × File A
remove_if_exists removes absent = (ok tt, absent)
remove_if_exists removes f = if removes then (ok tt, absent) else (err plain, f)

-- errors.Join of two
abbrev pub join : Result (Unit {0}) → Result (Unit {0}) → Result (Unit {0})
join (ok _) r = r
join (err e) r = err e

-- `others` is what came of clearing the native session and the unlock-epoch marker, which
-- `clearAgentSession` tries as well, whatever happens.
unfoldable pub clear_agent_session : Bool → Result (Unit {0}) → Agent → Result (Unit {0}) × Agent
clear_agent_session removes others a =
    let (result, f) = remove_if_exists removes a.session_file in
    (join others result, record a { session_file = f })

abbrev pub is_open : Mode → Bool
is_open open_mode = true
is_open _ = false

abbrev pub reset_open : Bool → Result Policy → Agent → Result (Unit {0}) × Agent
reset_open writes (err e) a = (err e, a)
reset_open writes (ok p) a =
    if is_open p.mode
    then set_agent_mode writes (some ask) p.session_minutes false a
    else (ok tt, a)

abbrev pub after_clear : Bool → Result (Unit {0}) × Agent → Result (Unit {0}) × Agent
after_clear writes (err e, a) = (err e, a)
after_clear writes (ok _, a) = reset_open writes (load_agent_policy a.policy_file) a

-- A file that was not there is no error of the removal, so any error ends the command.
unfoldable pub lock_agent : Bool → Bool → Result (Unit {0}) → Agent → Result (Unit {0}) × Agent
unfolding clear_agent_session load_agent_policy set_agent_mode
lock_agent removes writes others a = after_clear writes (clear_agent_session removes others a)
