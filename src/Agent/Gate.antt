-- ===== src/Agent/Gate.antt =====
-- Who passes `CheckAgentOperation`, and what `agent lock` takes away.
use oma_seal.Prelude.{
  ℕ, ◌<◌, ◌≡◌, refl, ◌↔◌, ◌⊎◌, inl, inr, Bool, true, arith, ltb→lt, nat_eq, bytes_eq,
}
use oma_seal.Errors.{Error, Result, ok, err}
use oma_seal.Files.{File, absent, unreadable, corrupt, holds, at_unix}
use oma_seal.Agent.{
  Mode, open_mode, ask, lock, Policy, Agent, load_agent_policy, agent_session_active, check_mode,
  check_policy_result, check_agent_operation, is_live, expiry_of,
}

-- Why an operation is allowed: the policy is open, or it asks and a session is live.
pub data Authorised (now : ℕ) (a : Agent) : Type 0 where
  by_open_mode :
      (p : Policy) → load_agent_policy a.policy_file ≡ ok p → p.mode ≡ open_mode → Authorised now a
  by_session :
      (p : Policy) (n : ℕ)
      → load_agent_policy a.policy_file ≡ ok p
      → p.mode ≡ ask
      → a.session_file ≡ holds n
      → now < at_unix n
      → Authorised now a

Mode-cases : (m : Mode) → (m ≡ open_mode) ⊎ (m ≡ ask) ⊎ (m ≡ lock)
Mode-cases open_mode = inl refl
Mode-cases ask = inr (inl refl)
Mode-cases lock = inr (inr refl)

pub Result-cases {ℓ} :
    {A : Type ℓ} (r : Result A) → ((a : A) × (r ≡ ok a)) ⊎ ((e : Error) × (r ≡ err e))
Result-cases (ok a) = inl (a, refl)
Result-cases (err e) = inr (e, refl)

live_file :
    (now : ℕ) (f : File ℕ)
    → is_live now (expiry_of f) ≡ true
    → (n : ℕ) × (f ≡ holds n) × (now < at_unix n)
live_file now absent h = cc
live_file now unreadable h = cc
live_file now corrupt h = cc
live_file now (holds n) h = (n, refl, ltb→lt now (at_unix n) h)

pub live_session :
    (writes : Bool) (now : ℕ) (p : Policy) (a : Agent)
    → (agent_session_active writes now p a).0 ≡ true
    → (n : ℕ) × (a.session_file ≡ holds n) × (now < at_unix n)
unfolding agent_session_active
live_session writes now p a h = live_file now a.session_file (ground arith)

session_live :
    (writes : Bool) (now : ℕ) (p : Policy) (a : Agent) (n : ℕ)
    → a.session_file ≡ holds n
    → now < at_unix n
    → (agent_session_active writes now p a).0 ≡ true
unfolding agent_session_active
session_live writes now p a n e h = ground arith

sound_mode :
    (writes : Bool) (now : ℕ) (p : Policy) (a : Agent)
    → load_agent_policy a.policy_file ≡ ok p
    → (m : Mode) → p.mode ≡ m
    → (check_mode writes now p m a).0 ≡ ok tt
    → Authorised now a
sound_mode writes now p a l open_mode e h = by_open_mode p l e
sound_mode writes now p a l lock e h = cc
sound_mode writes now p a l ask e h =
    let (n, file, live) = live_session writes now p a (ground arith) in by_session p n l e file live

sound_result :
    (writes : Bool) (now : ℕ) (a : Agent) (r : Result Policy)
    → load_agent_policy a.policy_file ≡ r
    → (check_policy_result writes now r a).0 ≡ ok tt
    → Authorised now a
sound_result writes now a (err e) l h = cc
sound_result writes now a (ok p) l h = sound_mode writes now p a l p.mode refl h

complete :
    (writes : Bool) (now : ℕ) (a : Agent)
    → Authorised now a
    → (check_policy_result writes now (load_agent_policy a.policy_file) a).0 ≡ ok tt
complete writes now a (by_open_mode p l e) = rw (l, e)
complete writes now a (by_session p n l e file live) =
    rw (l, e) (ground (arith, session_live writes now p a n file live))

-- `CheckAgentOperation` allows an operation exactly if the policy can be read and either is open, or
-- asks while an unexpired session is on file.
pub check_agent_operation_iff :
    (writes : Bool) (now : ℕ) (a : Agent)
    → ((check_agent_operation writes now a).0 ≡ ok tt) ↔ Authorised now a
unfolding check_agent_operation
check_agent_operation_iff writes now a =
    (sound_result writes now a (load_agent_policy a.policy_file) refl, complete writes now a)
