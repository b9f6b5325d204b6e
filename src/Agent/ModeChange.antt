-- ===== src/Agent/ModeChange.antt =====
-- Changes of the agent mode (engine/agent.go): which need the user, and what passes without.
use oma_seal.Prelude.{
  ℕ, ◌≤◌, ◌≡◌, refl, sym, ◌∙◌, inl, inr, Bool, true, false, not, ◌&&◌, ◌||◌, Option, none, some,
  arith, if◌then◌else◌, Bool-cases, nat_eq, bytes_eq,
}
use oma_seal.Errors.{Result, err, plain, sentinel, presence_denied, no_presence_mechanism}
use oma_seal.Presence.{Desktop, Err, run_presence_chain, is_no_mechanism}
use oma_seal.Presence.Chain.{run_presence_chain_iff}
use oma_seal.Presence.Prompters.{Confirmed}
use oma_seal.Files.{File, absent, unreadable, corrupt, holds}
use oma_seal.Agent.{
  RawPolicy, Mode, open_mode, ask, lock, Policy, Agent, load_agent_policy_or_default, is_open,
  is_ask, set_agent_mode,
}

abbrev pub is_lock : Mode → Bool
is_lock lock = true
is_lock _ = false

abbrev pub test_mode : (Mode → Bool) → Option Mode → Bool
test_mode p none = false
test_mode p (some m) = p m

-- The requested mode is `none` if its string is no mode.
unfoldable pub mode_change_weakens : Policy → Option Mode → Bool → Bool
mode_change_weakens p mode ungated =
    test_mode is_open mode && not (is_open p.mode)
    || ungated && not p.allow_ungated
    || is_lock p.mode && test_mode is_ask mode

-- `timed_out` is whether nobody answered within the confirmation timeout.
unfoldable pub gate_mode_change : Desktop → Bool → Policy → Option Mode → Bool → Err
unfolding mode_change_weakens
gate_mode_change d timed_out p mode ungated =
    if not (mode_change_weakens p mode ungated)
    then none
    else if timed_out
    then some (sentinel presence_denied)
    else let e = run_presence_chain d in
      if is_no_mechanism e then some (sentinel no_presence_mechanism) else e

abbrev pub apply_mode : Bool → Err → Option Mode → ℕ → Bool → Agent → Result (Unit {0}) × Agent
apply_mode writes (some e) mode minutes ungated a = (err e, a)
apply_mode writes none mode minutes ungated a = set_agent_mode writes mode minutes ungated a

-- `omaseal agent mode`: the case of `handleAgent`, behind the parsing of its arguments
unfoldable pub agent_mode_command :
    Desktop → Bool → Bool → Option Mode → ℕ → Bool → Agent → Result (Unit {0}) × Agent
unfolding gate_mode_change
agent_mode_command d timed_out writes mode minutes ungated a =
    if ungated && not (test_mode is_ask mode)
    then (err plain, a)
    else apply_mode writes
        (gate_mode_change d timed_out (load_agent_policy_or_default a.policy_file) mode ungated)
        mode minutes ungated a

-- how much a mode lets agents do
abbrev pub rank : Mode → ℕ
rank lock = 0
rank ask = 1
rank open_mode = 2

-- The mode is no laxer, ungated access is not newly given, and keep-alive is as it was. The length of
-- sessions has no part in it.
pub record NoWeaker (new old : Policy) : Type 0 where
  pub mode_bound : rank new.mode ≤ rank old.mode
  pub ungated_bound : new.allow_ungated ≡ true → old.allow_ungated ≡ true
  pub keep_alive_same : new.keep_alive ≡ old.keep_alive

NoWeaker-refl : (p : Policy) → NoWeaker p p
NoWeaker-refl p = record {
  mode_bound = omega arith;
  ungated_bound = λ h. h;
  keep_alive_same = refl;
}

strength :
    (m old : Mode)
    → (is_open m && not (is_open old) ≡ false)
    → (is_lock old && is_ask m ≡ false)
    → rank m ≤ rank old
strength lock old h k = omega arith
strength ask ask h k = omega arith
strength ask open_mode h k = omega arith
strength ask lock h k = cc
strength open_mode open_mode h k = omega arith
strength open_mode ask h k = cc
strength open_mode lock h k = cc

ungated_implies :
    (ungated allowed : Bool) (m : Mode)
    → (ungated && not allowed) ≡ false
    → (is_ask m && ungated) ≡ true
    → allowed ≡ true
ungated_implies ungated allowed m h k = ground arith

no_weaker_parts :
    (p : Policy) (m : Mode) (ungated : Bool)
    → mode_change_weakens p (some m) ungated ≡ false
    → (is_open m && not (is_open p.mode) ≡ false)
      × (ungated && not p.allow_ungated ≡ false)
      × (is_lock p.mode && is_ask m ≡ false)
unfolding mode_change_weakens
no_weaker_parts p m ungated h = (ground arith, ground arith, ground arith)

new_NoWeaker :
    (p : Policy) (m : Mode) (ungated : Bool) (q : Policy)
    → mode_change_weakens p (some m) ungated ≡ false
    → q.mode ≡ m
    → q.allow_ungated ≡ (is_ask m && ungated)
    → q.keep_alive ≡ p.keep_alive
    → NoWeaker q p
new_NoWeaker p m ungated q h em eu ek =
    let (h1, h2, h3) = no_weaker_parts p m ungated h in
    record {
      mode_bound = rw em (strength m p.mode h1 h3);
      ungated_bound = λ k. ungated_implies ungated p.allow_ungated m h2 (sym eu ∙ k);
      keep_alive_same = ek;
    }

-- what a file holds is what it is read as
set_file :
    (writes ungated : Bool) (mode : Mode) (minutes : ℕ) (s : File ℕ) (f : File RawPolicy)
    → mode_change_weakens (load_agent_policy_or_default f) (some mode) ungated ≡ false
    → NoWeaker
        (load_agent_policy_or_default
          (set_agent_mode writes
            (some mode)
            minutes
            ungated
            (record { policy_file = f; session_file = s })).1.policy_file)
        (load_agent_policy_or_default f)
unfolding set_agent_mode load_agent_policy_or_default
set_file true ungated mode minutes s absent h = new_NoWeaker _ mode ungated _ h refl refl refl
set_file true ungated mode minutes s unreadable h = NoWeaker-refl _
set_file true ungated mode minutes s corrupt h = NoWeaker-refl _
set_file true ungated mode minutes s (holds raw) h = new_NoWeaker _ mode ungated _ h refl refl refl
set_file false ungated mode minutes s absent h = NoWeaker-refl _
set_file false ungated mode minutes s unreadable h = NoWeaker-refl _
set_file false ungated mode minutes s corrupt h = NoWeaker-refl _
set_file false ungated mode minutes s (holds raw) h = NoWeaker-refl _

set-NoWeaker :
    (writes ungated : Bool) (mode : Option Mode) (minutes : ℕ) (a : Agent)
    → mode_change_weakens (load_agent_policy_or_default a.policy_file) mode ungated ≡ false
    → NoWeaker
        (load_agent_policy_or_default (set_agent_mode writes mode minutes ungated a).1.policy_file)
        (load_agent_policy_or_default a.policy_file)
set-NoWeaker writes ungated none minutes a h = unfold set_agent_mode in NoWeaker-refl _
set-NoWeaker writes ungated (some mode) minutes a h =
    set_file writes ungated mode minutes a.session_file a.policy_file h

gate_lem :
    (d : Desktop) (timed_out ungated : Bool) (p : Policy) (mode : Option Mode)
    → ¬ Confirmed d
    → gate_mode_change d timed_out p mode ungated ≡ none
    → mode_change_weakens p mode ungated ≡ false
unfolding gate_mode_change
gate_lem d timed_out ungated p mode n h = elim (Bool-cases (mode_change_weakens p mode ungated)) [
  | inr e ↦ e
  | inl e ↦ absurd (n ((run_presence_chain_iff d).0.0 (ground arith)))
]

apply-NoWeaker :
    (d : Desktop) (timed_out writes ungated : Bool) (mode : Option Mode) (minutes : ℕ) (a : Agent)
    (e : Err)
    → ¬ Confirmed d
    → gate_mode_change d timed_out (load_agent_policy_or_default a.policy_file) mode ungated ≡ e
    → NoWeaker
        (load_agent_policy_or_default (apply_mode writes e mode minutes ungated a).1.policy_file)
        (load_agent_policy_or_default a.policy_file)
apply-NoWeaker d timed_out writes ungated mode minutes a none n g =
    set-NoWeaker writes ungated mode minutes a (gate_lem d timed_out ungated _ mode n g)
apply-NoWeaker d timed_out writes ungated mode minutes a (some e) n g = NoWeaker-refl _

pub agent_mode_command_guarded :
    (d : Desktop) (timed_out writes ungated : Bool) (mode : Option Mode) (minutes : ℕ) (a : Agent)
    → ¬ Confirmed d
    → NoWeaker
        (load_agent_policy_or_default
          (agent_mode_command d timed_out writes mode minutes ungated a).1.policy_file)
        (load_agent_policy_or_default a.policy_file)
unfolding agent_mode_command
agent_mode_command_guarded d timed_out writes ungated mode minutes a n =
    elim (Bool-cases (ungated && not (test_mode is_ask mode))) [
      | inl e ↦ rw e (NoWeaker-refl _)
      | inr e ↦ rw e (apply-NoWeaker d timed_out writes ungated mode minutes a _ n refl)
    ]

pub set_agent_mode-session :
    (writes : Bool) (mode : Option Mode) (minutes : ℕ) (ungated : Bool) (a : Agent)
    → (set_agent_mode writes mode minutes ungated a).1.session_file ≡ a.session_file
unfolding set_agent_mode
set_agent_mode-session writes mode minutes ungated a = ground arith

pub agent_mode_command-session :
    (d : Desktop) (timed_out writes ungated : Bool) (mode : Option Mode) (minutes : ℕ) (a : Agent)
    → (agent_mode_command d timed_out writes mode minutes ungated a).1.session_file ≡ a.session_file
unfolding agent_mode_command
agent_mode_command-session d timed_out writes ungated mode minutes a =
    ground (arith, set_agent_mode-session writes mode minutes ungated a)
