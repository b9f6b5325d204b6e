-- ===== src/Daemon/Budgets.antt =====
-- The bounds on what clients can make the daemon hold.
use oma_seal.Prelude.{
  if_cases, eq_iff, ℕ, ◌<◌, ◌≡◌, refl, subst, Bool, true, not, Option, none, some, arith, leb, ◌==◌,
  eq_iff, nat_eq, bytes_eq, lookup, remove, insert,
}
use oma_seal.Bytes.{Bytes}
use oma_seal.Native.Crypto.{Age}
use oma_seal.Daemon.{
  Codec, Session, Prompt, SvcDaemon, SvcWorld, tally, keys_where, prompt_of, session_of_uid,
  NativeStore, Map, SvcItem,
}
use oma_seal.Daemon.Prompts.{
  dismiss_found, finish_prompt, cancel_running, Driven, mint_prompt, drive_prompt, dismiss_prompt,
}
use oma_seal.Daemon.Counts.{tally_room, tally-remove}
use oma_seal.Daemon.Calls.{Call}
use oma_seal.Daemon.Methods.{Host, add_session, close_found}
use oma_seal.Daemon.Rows.{Answer}
use oma_seal.Daemon.Frame.{lock-Same, suspend-Same, locked-Same, unwrap-Same, commit-Same}
use oma_seal.Daemon.Lock.{end_op}
use oma_seal.Daemon.Steps.{
  DaemonStep, DaemonSteps, did_open, did_close, did_mint, did_drive, did_dismiss, did_reap,
  did_lock, did_suspend, did_check, did_unwrap, did_commit, did_end, did_store, did_index,
  did_elsewhere, no_steps, then_step, started,
}
use oma_seal.Daemon.Within.{
  Budgets, Same-Budgets, finish-Budgets, reap-Budgets, drive_found-Budgets, mint-Budgets,
}

module _ {age : Age} where
  dismiss_found-Budgets :
      (o : Option Prompt) (path sender : Bytes) (d : SvcDaemon age)
      → Budgets d
      → Budgets (dismiss_found o path sender d).1
  unfolding finish_prompt
  dismiss_found-Budgets none path sender d b = b
  dismiss_found-Budgets (some p) path sender d b =
      if_cases (λ (r : Driven × SvcDaemon age). Budgets r.1) (not (p.owner == sender)) _ _ (λ _. b)
        (λ _. finish-Budgets path true none (cancel_running p path d) (
          if_cases Budgets p.running _ _
            (λ _.
              Same-Budgets d _
                (record { same_sessions = refl; same_prompts = refl; same_completed = refl }) b)
            (λ _. b)))

  open-Budgets :
      (h : Host) (codec : Codec) (c : Call) (uid : ℕ) (path : Bytes) (w : SvcWorld age)
      (d : SvcDaemon age)
      → lookup path d.sessions ≡ none
      → Budgets d
      → Budgets (add_session h codec c uid path w d).1
  unfolding tally insert
  open-Budgets h codec c uid path w d fresh b =
      if_cases (λ (r : Answer Bytes age). Budgets r.1)
        (leb 64 (tally (session_of_uid uid) d.sessions)) _ _ (λ _. b)
        (λ room. record {
          sessions_per_uid = λ other.
              tally_room (session_of_uid other) path
                (record { owner = c.sender; uid = uid; codec = codec; opened = w.native.now })
                d.sessions 64 fresh
                (λ e.
                  subst (λ u. tally (session_of_uid u) d.sessions < 64) ((eq_iff uid other).0 e)
                    (ground arith))
                (b.sessions_per_uid other);
          prompts_in_all = b.prompts_in_all;
          prompts_per_uid = b.prompts_per_uid;
          prompts_per_owner = b.prompts_per_owner;
        })

  close-Budgets :
      (o : Option Session) (c : Call) (d : SvcDaemon age)
      → Budgets d
      → Budgets (close_found o c d).1
  unfolding remove
  close-Budgets none c d b = b
  close-Budgets (some s) c d b =
      if_cases (λ (r : Answer (Unit {0}) age). Budgets r.1) (s.owner == c.sender) _ _
        (λ _. record {
          sessions_per_uid = λ uid.
              omega (
                arith,
                tally-remove (session_of_uid uid) c.path d.sessions,
                b.sessions_per_uid uid,
              );
          prompts_in_all = b.prompts_in_all;
          prompts_per_uid = b.prompts_per_uid;
          prompts_per_owner = b.prompts_per_owner;
        })
        (λ _. b)

  -- Every critical section keeps the budgets.
  step-Budgets : (h : Host) (d e : SvcDaemon age) → DaemonStep h d e → Budgets d → Budgets e
  unfolding mint_prompt drive_prompt dismiss_prompt end_op
  step-Budgets h d _ (did_open codec c uid path w _ fresh) b =
      open-Budgets h codec c uid path w d fresh.no_session_there b
  step-Budgets h d _ (did_close c _) b = close-Budgets (lookup c.path d.sessions) c d b
  step-Budgets h d _ (did_mint sender uid asked objects path _ fresh) b =
      mint-Budgets sender uid asked objects path d (keys_where (prompt_of sender) d.prompts)
        fresh.no_prompt_there refl b
  step-Budgets h d _ (did_drive path sender _) b =
      drive_found-Budgets (lookup path d.prompts) path sender d refl b
  step-Budgets h d _ (did_dismiss path sender _) b =
      dismiss_found-Budgets (lookup path d.prompts) path sender d b
  step-Budgets h d _ (did_reap name _) b = reap-Budgets name d b
  step-Budgets h d _ (did_lock w _) b = Same-Budgets d _ (lock-Same w d) b
  step-Budgets h d _ (did_suspend w _) b = Same-Budgets d _ (suspend-Same w d) b
  step-Budgets h d _ (did_check w _) b = Same-Budgets d _ (locked-Same w d) b
  step-Budgets h d _ (did_unwrap w path o answer _ _) b =
      Same-Budgets d _ (unwrap-Same w path o answer d) b
  step-Budgets h d _ (did_commit w path o _ _) b = Same-Budgets d _ (commit-Same w o d) b
  step-Budgets h d _ (did_end path failure unlocked _) b = finish-Budgets path _ _ _ (
      Same-Budgets d _ (record { same_sessions = refl; same_prompts = refl; same_completed = refl })
        b)
  step-Budgets h d _ (did_store call w _) b =
      Same-Budgets d _ (record { same_sessions = refl; same_prompts = refl; same_completed = refl })
        b
  step-Budgets h d _ (did_index index _) b =
      Same-Budgets d _ (record { same_sessions = refl; same_prompts = refl; same_completed = refl })
        b
  step-Budgets h d _ (did_elsewhere s marker _ _) b =
      Same-Budgets d _ (record { same_sessions = refl; same_prompts = refl; same_completed = refl })
        b

  started-Budgets :
      (s : NativeStore age) (index : Map Bytes SvcItem) (marker : Bool)
      → Budgets (started s index marker)
  unfolding started tally
  started-Budgets s index marker = record {
    sessions_per_uid = λ uid. omega arith;
    prompts_in_all = omega arith;
    prompts_per_uid = λ uid. omega arith;
    prompts_per_owner = λ owner. omega arith;
  }

  run-Budgets : (h : Host) (d e : SvcDaemon age) → DaemonSteps h d e → Budgets d → Budgets e
  run-Budgets h d _ (no_steps _) b = b
  run-Budgets h d f (then_step _ e _ before s) b = step-Budgets h e f s (run-Budgets h d e before b)

  -- However the critical sections of the daemon's goroutines interleave, whoever calls, and whatever
  -- fails: if ids are fresh, a user never has more than 64 sessions or 16 prompts, a client never more
  -- than one prompt, and there are never more than 256 prompts.
  pub daemon_stays_within :
      (h : Host) (s : NativeStore age) (index : Map Bytes SvcItem) (marker : Bool)
      (d : SvcDaemon age)
      → DaemonSteps h (started s index marker) d
      → Budgets d
  daemon_stays_within h s index marker d run =
      run-Budgets h (started s index marker) d run (started-Budgets s index marker)
