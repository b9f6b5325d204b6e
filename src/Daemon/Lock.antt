-- ===== src/Daemon/Lock.antt =====
-- engine/svcprompt.go, svclock.go and svcitems.go: how the daemon unlocks by a prompt, and how it locks.
use oma_seal.Prelude.{
  ℕ, ◌+◌, Bool, true, false, not, ◌&&◌, ◌||◌, Option, none, some, List, [], ◌∷◌, ltb, if◌then◌else◌,
  ◌==◌, nat_eq, bytes_eq, Map, lookup, remove, insert,
}
use oma_seal.Errors.{Error, Result, ok, err, plain}
use oma_seal.Bytes.{Bytes}
use oma_seal.Files.{add_minutes}
use oma_seal.Agent.{Policy, load_agent_policy}
use oma_seal.Native.Crypto.{Age}
use oma_seal.Native.Store.{
  NativeStore, Outcome, session_ttl, unwrap_identity_pass, clear_native_session, load_session,
}
use oma_seal.Daemon.{Prompt, Op, SvcDaemon, SvcWorld}
use oma_seal.Daemon.Prompts.{cancel_found, finish_prompt}

-- A slice that nothing was appended to is nil.
abbrev pub as_slice : List Bytes → Option (List Bytes)
as_slice [] = none
as_slice (path ∷ paths) = some (path ∷ paths)

-- when what is unwrapped now expires
abbrev pub prompt_expiry : ℕ → Result Policy → ℕ
prompt_expiry now (err e) = now + session_ttl
prompt_expiry now (ok p) =
    if p.session_minutes == 0 then now + session_ttl else add_minutes now p.session_minutes

module _ {age : Age} where
  unfoldable pub cancel_all : Map Bytes Prompt → Map Bytes (Op age) → Map Bytes (Op age)
  unfolding lookup insert
  cancel_all [] ops = ops
  cancel_all ((path, p) ∷ prompts) ops =
      cancel_all prompts (if p.running then cancel_found (lookup path ops) path ops else ops)

  -- `lockDaemonLocked`: failures to remove a file are only logged.
  unfoldable pub lock_daemon : SvcWorld age → SvcDaemon age → SvcDaemon age
  unfolding cancel_all clear_native_session
  lock_daemon w d = record d {
    running_ops = cancel_all d.prompts d.running_ops;
    store = (clear_native_session w.native d.store).1;
    prompt_identity = false;
    marker = d.marker && not w.marker_removes;
  }

  abbrev pub has_identity : SvcDaemon age → Bool
  has_identity d = elim d.store.identity [ none ↦ false | some _ ↦ true ]

  unfoldable pub check_prompt_identity : SvcWorld age → SvcDaemon age → SvcDaemon age
  unfolding lock_daemon
  check_prompt_identity w d =
      if not d.prompt_identity || not (has_identity d)
      then d
      else if ltb d.prompt_expiry w.native.now
      then lock_daemon w d
      else if not d.marker
      then lock_daemon w d
      else d

  -- What reading the session files leaves: an identity that they do not give is dropped.
  abbrev pub readopted : Outcome (Unit {0}) age → NativeStore age
  readopted (ok _, s) = s
  readopted (err e, s) = record s { identity = none }

  abbrev pub refreshed : Option age.Identity → SvcWorld age → SvcDaemon age → SvcDaemon age
  refreshed (some _) w d =
      if d.prompt_identity
      then check_prompt_identity w d
      else record d { store = readopted (load_session w.native d.store) }
  refreshed none w d = record d { store = (load_session w.native d.store).1 }

  -- `lockedLocked`
  unfoldable pub locked : SvcWorld age → SvcDaemon age → Bool × SvcDaemon age
  unfolding check_prompt_identity load_session
  locked w d = let d' = refreshed d.store.identity w d in (not (has_identity d'), d')

  unfoldable pub relock_for_suspend : SvcWorld age → SvcDaemon age → SvcDaemon age
  unfolding lock_daemon
  relock_for_suspend w d =
      if not (has_identity d) && not d.prompt_identity then d else lock_daemon w d

  abbrev pub keep_unwrapped :
      SvcWorld age
      → Bytes
      → Op age
      → Outcome age.Identity age
      → SvcDaemon age
      → Option Error × SvcDaemon age
  keep_unwrapped w path o (err e, s) d = (some e, record d { store = s })
  keep_unwrapped w path o (ok i, s) d = (
    none,
    record d {
      store = s;
      running_ops =
          insert path
            (record o {
              unwrapped =
                  some (i, prompt_expiry w.native.now (load_agent_policy s.agent.policy_file));
            })
            d.running_ops;
    },
  )

  abbrev pub unwrap_answer :
      SvcWorld age → Bytes → Op age → Option Bytes → SvcDaemon age → Option Error × SvcDaemon age
  unwrap_answer w path o none d = (some plain, d)
  unwrap_answer w path o (some []) d = (some plain, d)
  unwrap_answer w path o (some (c ∷ pass)) d =
      keep_unwrapped w path o (unwrap_identity_pass (c ∷ pass) d.store) d

  -- The first half of `unlockViaPrompt`, outside the mutex: the dialog's answer and the unwrapping.
  -- The error is the one that the goroutine goes on to finish its prompt with.
  unfoldable pub unwrap_op :
      SvcWorld age → Bytes → Op age → Option Bytes → SvcDaemon age → Option Error × SvcDaemon age
  unfolding unwrap_identity_pass load_agent_policy insert
  unwrap_op w path o answer d = unwrap_answer w path o answer d

  abbrev pub publish :
      SvcWorld age → age.Identity → ℕ → SvcDaemon age → Option Error × SvcDaemon age
  publish w i expiry d =
      if w.marker_writes
      then (
        none,
        record d {
          store = record d.store { identity = some i };
          prompt_identity = true;
          prompt_expiry = expiry;
          marker = true;
        },
      )
      else (
        some plain,
        record d {
          store = record d.store { identity = none };
          prompt_identity = false;
          prompt_expiry = expiry;
        },
      )

  abbrev pub commit_unwrapped :
      SvcWorld age
      → Op age
      → Option (age.Identity × ℕ)
      → SvcDaemon age
      → Option Error × SvcDaemon age
  commit_unwrapped w o none d = (some plain, d)
  commit_unwrapped w o (some (i, expiry)) d =
      if o.cancelled then (some plain, d) else publish w i expiry d

  -- The second half, under the mutex: a cancelled context vetoes the identity.
  unfoldable pub commit_op : SvcWorld age → Op age → SvcDaemon age → Option Error × SvcDaemon age
  commit_op w o d = commit_unwrapped w o o.unwrapped d

  -- The goroutine ends: without an error it has unlocked `unlocked`.
  unfoldable pub end_op : Bytes → Option Error → List Bytes → SvcDaemon age → SvcDaemon age
  unfolding remove finish_prompt
  end_op path failure unlocked d =
      finish_prompt path (elim failure [ none ↦ false | some _ ↦ true ]) (as_slice unlocked)
        (record d { running_ops = remove path d.running_ops })
