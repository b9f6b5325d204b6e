-- ===== src/Agent/Revoked.antt =====
-- What `agent lock` takes away (engine/agent.go), whatever runs afterwards without the user.
use oma_seal.Prelude.{
  ℕ, ◌≤◌, ◌≡◌, refl, sym, ap, ◌∙◌, subst, ◌≢◌, inl, inr, Bool, true, false, Option, arith,
  Bool-cases, nat_eq, bytes_eq,
}
use oma_seal.Errors.{Result, ok, err}
use oma_seal.Files.{File, absent, unreadable, corrupt, holds}
use oma_seal.Presence.{Desktop}
use oma_seal.Presence.Prompters.{Confirmed}
use oma_seal.Agent.{
  of_raw, Mode, open_mode, ask, lock, Policy, RawPolicy, Agent, load_agent_policy,
  load_agent_policy_or_default, policy_or_default, is_open, agent_session_active, check_mode,
  check_policy_result, check_agent_operation, set_keep_alive, set_agent_mode, lock_agent,
  after_clear, read_session_expiry,
}
use oma_seal.Agent.Gate.{by_open_mode, by_session, check_agent_operation_iff}
use oma_seal.Agent.ModeChange.{
  NoWeaker, rank, agent_mode_command, agent_mode_command_guarded, agent_mode_command-session,
}

-- What may happen while the user neither unlocks nor confirms anything.
pub data Step : Agent → Agent → Type 0 where
  checked : (writes : Bool) (now : ℕ) (a : Agent) → Step a (check_agent_operation writes now a).1
  kept_alive : (writes on : Bool) (a : Agent) → Step a (set_keep_alive writes on a).1
  mode_changed :
      (d : Desktop) (timed_out writes ungated : Bool) (mode : Option Mode) (minutes : ℕ) (a : Agent)
      → ¬ Confirmed d
      → Step a (agent_mode_command d timed_out writes mode minutes ungated a).1
  locked_again :
      (removes writes : Bool) (others : Result (Unit {0})) (a : Agent)
      → Step a (lock_agent removes writes others a).1

pub data Steps : Agent → Agent → Type 0 where
  done : (a : Agent) → Steps a a
  then_step : {a b c : Agent} → Steps a b → Step b c → Steps a c

-- No session, and not open
pub record Shut (a : Agent) : Type 0 where
  pub no_session : a.session_file ≡ absent
  pub not_open : is_open (load_agent_policy_or_default a.policy_file).mode ≡ false

closed_rank : (m n : Mode) → rank m ≤ rank n → is_open n ≡ false → is_open m ≡ false
closed_rank lock n le h = refl
closed_rank ask n le h = refl
closed_rank open_mode lock le h = absurd (omega arith)
closed_rank open_mode ask le h = absurd (omega arith)
closed_rank open_mode open_mode le h = cc

active_files :
    (writes : Bool) (now : ℕ) (p : Policy) (a : Agent)
    → a.session_file ≡ absent
    → (agent_session_active writes now p a).1 ≡ a
unfolding agent_session_active read_session_expiry
active_files writes now p a h = rw h refl

mode_files :
    (writes : Bool) (now : ℕ) (p : Policy) (m : Mode) (a : Agent)
    → a.session_file ≡ absent
    → (check_mode writes now p m a).1 ≡ a
mode_files writes now p open_mode a h = refl
mode_files writes now p lock a h = refl
mode_files writes now p ask a h = ground (arith, active_files writes now p a h)

result_files :
    (writes : Bool) (now : ℕ) (a : Agent) (r : Result Policy)
    → a.session_file ≡ absent
    → (check_policy_result writes now r a).1 ≡ a
result_files writes now a (err e) h = refl
result_files writes now a (ok p) h = mode_files writes now p p.mode a h

check_files :
    (writes : Bool) (now : ℕ) (a : Agent)
    → a.session_file ≡ absent
    → (check_agent_operation writes now a).1 ≡ a
unfolding check_agent_operation
check_files writes now a h = result_files writes now a (load_agent_policy a.policy_file) h

-- An agent that is shut out is denied.
pub Shut-denied :
    (writes : Bool) (now : ℕ) (a : Agent) → Shut a → (check_agent_operation writes now a).0 ≢ ok tt
unfolding load_agent_policy_or_default
Shut-denied writes now a s h = elim ((check_agent_operation_iff writes now a).0 h) [
  | by_open_mode p l e ↦ cc (ap policy_or_default l, e, s.not_open)
  | by_session p n l e file live ↦ cc (file, s.no_session)
]

of_NoWeaker :
    (a b : Agent)
    → b.session_file ≡ a.session_file
    → NoWeaker
        (load_agent_policy_or_default b.policy_file)
        (load_agent_policy_or_default a.policy_file)
    → Shut a
    → Shut b
of_NoWeaker a b e n s = record {
  no_session = e ∙ s.no_session;
  not_open = closed_rank _ _ n.mode_bound s.not_open;
}

abbrev of_files : File RawPolicy → File ℕ → Agent
of_files f s = record { policy_file = f; session_file = s }

kept_file :
    (writes on : Bool) (s : File ℕ) (f : File RawPolicy)
    → Shut (of_files f s)
    → Shut (set_keep_alive writes on (of_files f s)).1
unfolding set_keep_alive load_agent_policy_or_default
kept_file true on s absent h = record { no_session = h.no_session; not_open = refl }
kept_file true on s unreadable h = h
kept_file true on s corrupt h = h
kept_file true on s (holds raw) h = record { no_session = h.no_session; not_open = h.not_open }
kept_file false on s absent h = h
kept_file false on s unreadable h = h
kept_file false on s corrupt h = h
kept_file false on s (holds raw) h = h

-- the end of `lockAgent`, once the session is gone
abbrev reset_session : Bool → File RawPolicy → Result (Unit {0}) × Agent
reset_session writes f = after_clear writes (ok tt, of_files f absent)

reset_opened :
    (writes : Bool) (raw : RawPolicy)
    → is_open (of_raw raw).mode ≡ true
    → (reset_session writes (holds raw)).0 ≡ ok tt
    → Shut (reset_session writes (holds raw)).1
unfolding load_agent_policy_or_default set_agent_mode
reset_opened true raw e h = rw e (record { no_session = refl; not_open = refl })
reset_opened false raw e h = ground arith

reset_raw :
    (writes : Bool) (raw : RawPolicy)
    → (reset_session writes (holds raw)).0 ≡ ok tt
    → Shut (reset_session writes (holds raw)).1
unfolding load_agent_policy_or_default
reset_raw writes raw h = elim (Bool-cases (is_open (of_raw raw).mode)) [
  | inr e ↦ rw e (record { no_session = refl; not_open = e })
  | inl e ↦ reset_opened writes raw e h
]

reset_Shut :
    (writes : Bool) (f : File RawPolicy)
    → (reset_session writes f).0 ≡ ok tt
    → Shut (reset_session writes f).1
unfolding load_agent_policy_or_default
reset_Shut writes absent h = record { no_session = refl; not_open = refl }
reset_Shut writes unreadable h = cc
reset_Shut writes corrupt h = cc
reset_Shut writes (holds raw) h = reset_raw writes raw h

-- A policy that was not open stays as it is.
reset_closed :
    (writes : Bool) (f : File RawPolicy)
    → Shut (of_files f absent)
    → Shut (reset_session writes f).1
unfolding load_agent_policy_or_default
reset_closed writes absent h = h
reset_closed writes unreadable h = h
reset_closed writes corrupt h = h
reset_closed writes (holds raw) h = rw (h.not_open) h

lock_result :
    (removes writes : Bool) (others : Result (Unit {0})) (f : File RawPolicy) (s : File ℕ)
    → (lock_agent removes writes others (of_files f s)).0 ≡ ok tt
    → lock_agent removes writes others (of_files f s) ≡ reset_session writes f
unfolding lock_agent
lock_result removes writes (err e) f absent h = cc
lock_result removes writes (err e) f unreadable h = ground arith
lock_result removes writes (err e) f corrupt h = ground arith
lock_result removes writes (err e) f (holds n) h = ground arith
lock_result removes writes (ok _) f absent h = refl
lock_result true writes (ok _) f unreadable h = refl
lock_result true writes (ok _) f corrupt h = refl
lock_result true writes (ok _) f (holds n) h = refl
lock_result false writes (ok _) f unreadable h = cc
lock_result false writes (ok _) f corrupt h = cc
lock_result false writes (ok _) f (holds n) h = cc

-- After a successful `agent lock` there is no session and the policy is not open.
pub lock_agent-Shut :
    (removes writes : Bool) (others : Result (Unit {0})) (a : Agent)
    → (lock_agent removes writes others a).0 ≡ ok tt
    → Shut (lock_agent removes writes others a).1
lock_agent-Shut removes writes others a h =
    let e = lock_result removes writes others a.policy_file a.session_file h in
    rw e (reset_Shut writes a.policy_file (rw (sym e) h))

lock_again :
    (removes writes : Bool) (others : Result (Unit {0})) (f : File RawPolicy)
    → Shut (of_files f absent)
    → Shut (lock_agent removes writes others (of_files f absent)).1
unfolding lock_agent
lock_again removes writes (err e) f s = s
lock_again removes writes (ok _) f s = reset_closed writes f s

lock_again_Shut :
    (removes writes : Bool) (others : Result (Unit {0})) (a : Agent)
    → Shut a
    → Shut (lock_agent removes writes others a).1
lock_again_Shut removes writes others a s =
    let e : a ≡ of_files a.policy_file absent = ap (of_files a.policy_file) s.no_session in
    rw e (lock_again removes writes others a.policy_file (subst Shut e s))

Step-Shut : {a b : Agent} → Step a b → Shut a → Shut b
Step-Shut (checked writes now a) s = rw (check_files writes now a s.no_session) s
Step-Shut (kept_alive writes on a) s = kept_file writes on a.session_file a.policy_file s
Step-Shut (mode_changed d timed_out writes ungated mode minutes a n) s =
    of_NoWeaker a _ (agent_mode_command-session d timed_out writes ungated mode minutes a)
      (agent_mode_command_guarded d timed_out writes ungated mode minutes a n) s
Step-Shut (locked_again removes writes others a) s = lock_again_Shut removes writes others a s

Steps-Shut : {a b : Agent} → Steps a b → Shut a → Shut b
Steps-Shut (done a) s = s
Steps-Shut (then_step r t) s = Step-Shut t (Steps-Shut r s)

-- Once `agent lock` has succeeded, every operation is denied for as long as the user neither
-- unlocks nor confirms: no sequence of checks, keep-alive settings, unconfirmed mode changes and
-- further locks, at any time, brings the access back.
pub lock_revokes :
    (removes writes : Bool) (others : Result (Unit {0})) (a b : Agent)
    → (lock_agent removes writes others a).0 ≡ ok tt
    → Steps (lock_agent removes writes others a).1 b
    → (w : Bool) (now : ℕ) → (check_agent_operation w now b).0 ≢ ok tt
lock_revokes removes writes others a b h steps w now =
    Shut-denied w now b (Steps-Shut steps (lock_agent-Shut removes writes others a h))
