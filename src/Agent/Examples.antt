-- ===== src/Agent/Examples.antt =====
-- Concrete agent policies and sessions (engine/agent_test.go has such cases).
use oma_seal.Prelude.{◌≡◌, refl, ◌≢◌, ◌↔◌, true, false, some, [], nat_eq, bytes_eq}
use oma_seal.Errors.{ok}
use oma_seal.Bytes.{codes}
use oma_seal.Files.{absent, holds, at_unix}
use oma_seal.Presence.{Desktop, broken}
use oma_seal.Agent.{
  open_mode, ask, set_agent_mode, Agent, RawPolicy, load_agent_policy_or_default,
  check_agent_operation, lock_agent,
}
use oma_seal.Agent.Gate.{Authorised, check_agent_operation_iff}
use oma_seal.Agent.ModeChange.{agent_mode_command}
use oma_seal.Agent.Revoked.{checked, done, then_step, lock_revokes}

abbrev raw_open : RawPolicy
raw_open = record {
  raw_mode = some open_mode;
  raw_minutes = 5;
  raw_keep_alive = true;
  raw_allow_ungated = false;
  raw_primary_agent = [];
  raw_agents = [];
}

abbrev open_agent : Agent
open_agent = record { policy_file = holds raw_open; session_file = holds 9000 }

abbrev asking_agent : Agent
asking_agent = record open_agent { policy_file = absent }

-- no fingerprint reader and no desktop
abbrev nobody : Desktop
nobody = record {
  fprintd_usable = false;
  fprintd_verified = false;
  graphical_session = false;
  gui_setting = codes "";
  available = λ k. false;
  confirm = λ k. broken;
}

-- A session opens an asking policy until it ends.
session_opens :
    ((check_agent_operation true (at_unix 8999) asking_agent).0 ≡ ok tt)
    × ((check_agent_operation true (at_unix 9000) asking_agent).0 ≢ ok tt)
unfolding check_agent_operation
session_opens = (refl, λ e. cc)

check_agent_operation_iff_example :
    ((check_agent_operation true (at_unix 8999) asking_agent).0 ≡ ok tt)
    ↔ Authorised (at_unix 8999) asking_agent
check_agent_operation_iff_example = check_agent_operation_iff true (at_unix 8999) asking_agent

-- Nobody confirms, and the sessions of a policy of five minutes get a year.
lengthened :
    (load_agent_policy_or_default
      (agent_mode_command nobody false true (some ask) 525600 false (record open_agent {
        policy_file = holds (record raw_open { raw_mode = some ask });
      })).1.policy_file).session_minutes
    ≡ 525600
unfolding agent_mode_command load_agent_policy_or_default set_agent_mode
lengthened = refl

abbrev shut_agent : Agent
shut_agent = (lock_agent true true (ok tt) open_agent).1

lock_revokes_example :
    (check_agent_operation true
      (at_unix 10)
      (check_agent_operation true (at_unix 5) shut_agent).1).0
    ≢ ok tt
unfolding lock_agent
lock_revokes_example =
    lock_revokes true true (ok tt) open_agent _ refl
      (then_step (done shut_agent) (checked true (at_unix 5) shut_agent)) true (at_unix 10)
