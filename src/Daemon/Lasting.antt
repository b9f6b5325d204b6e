-- ===== src/Daemon/Lasting.antt =====
-- engine/svcprompt.go: a lock of the daemon lasts, from its start on.
use oma_seal.Prelude.{
  ℕ, ◌≡◌, refl, inl, Bool, true, false, Option, none, some, leb, ◌==◌, nat_eq, bytes_eq, All, Map,
  lookup, remove, insert, if_cases,
}
use oma_seal.Bytes.{Bytes}
use oma_seal.Native.Crypto.{Age}
use oma_seal.Native.Store.{NativeStore, session_json_target}
use oma_seal.Daemon.{Codec, Session, SvcItem, SvcDaemon, SvcWorld, keys_where, prompt_of, tally}
use oma_seal.Daemon.Prompts.{mint_prompt, drive_prompt, dismiss_prompt}
use oma_seal.Daemon.Lock.{lock_daemon, locked, unwrap_op, commit_op}
use oma_seal.Daemon.Calls.{Call}
use oma_seal.Daemon.Rows.{Answer}
use oma_seal.Daemon.Methods.{Host, add_session, close_found}
use oma_seal.Daemon.Steps.{
  DaemonStep, did_open, did_close, did_mint, did_drive, did_dismiss, did_reap, did_lock,
  did_suspend, did_check, did_unwrap, did_commit, did_end, did_store, did_index, did_elsewhere,
  started,
}
use oma_seal.Daemon.Cancelled.{live, Registered}
use oma_seal.Daemon.Registry.{
  reap-Registered, lock-Registered, suspend-Registered, refreshed-Registered, mint-Registered,
  drive-Registered, dismiss-Registered, end-Registered, answer-Registered, commit-Registered,
}
use oma_seal.Daemon.Shut.{QuietSteps, lock_lasts}

module _ {age : Age} where
  -- If a client leaves, then none of its prompts is shown.
  unfoldable pub Unhurried : {h : Host} {d e : SvcDaemon age} → DaemonStep h d e → Type 0
  Unhurried (did_reap name d) =
      All (λ path. live path d.running_ops ≡ false) (keys_where (prompt_of name) d.prompts)
  Unhurried _ = Unit

  pub data UnhurriedSteps (h : Host) : SvcDaemon age → SvcDaemon age → Type 0 where
    no_unhurried_steps : (d : SvcDaemon age) → UnhurriedSteps h d d
    then_unhurried :
        (d e f : SvcDaemon age)
        → UnhurriedSteps h d e
        → (step : DaemonStep h e f) → Unhurried step
        → UnhurriedSteps h d f

  opened-Registered :
      (h : Host) (codec : Codec) (c : Call) (uid : ℕ) (path : Bytes) (w : SvcWorld age)
      (d : SvcDaemon age)
      → Registered d
      → Registered (add_session h codec c uid path w d).1
  unfolding Registered tally insert
  opened-Registered h codec c uid path w d reg =
      if_cases (λ (r : Answer Bytes age). Registered r.1) (leb 64 _) _ _ (λ _. reg) (λ _. reg)

  closed-Registered :
      (found : Option Session) (c : Call) (d : SvcDaemon age)
      → Registered d
      → Registered (close_found found c d).1
  unfolding Registered remove
  closed-Registered none c d reg = reg
  closed-Registered (some s) c d reg =
      if_cases (λ (r : Answer (Unit {0}) age). Registered r.1) (s.owner == c.sender) _ _ (λ _. reg)
        (λ _. reg)

  step-Registered :
      (h : Host) (d e : SvcDaemon age) (step : DaemonStep h d e)
      → Unhurried step
      → Registered d
      → Registered e
  unfolding mint_prompt drive_prompt dismiss_prompt unwrap_op commit_op locked Unhurried lookup
      Registered
  step-Registered h d _ (did_open codec c uid path w _ fresh) q reg =
      opened-Registered h codec c uid path w d reg
  step-Registered h d _ (did_close c _) q reg = closed-Registered (lookup c.path d.sessions) c d reg
  step-Registered h d _ (did_mint sender uid asked objects path _ fresh) q reg =
      mint-Registered (keys_where (prompt_of sender) d.prompts) sender uid asked objects path d
        fresh.no_prompt_there reg
  step-Registered h d _ (did_drive path sender _) q reg =
      drive-Registered (lookup path d.prompts) path sender d reg
  step-Registered h d _ (did_dismiss path sender _) q reg =
      dismiss-Registered (lookup path d.prompts) path sender d refl reg
  step-Registered h d _ (did_reap name _) q reg = reap-Registered name d q reg
  step-Registered h d _ (did_lock w _) q reg = lock-Registered w d reg
  step-Registered h d _ (did_suspend w _) q reg = suspend-Registered w d reg
  step-Registered h d _ (did_check w _) q reg = refreshed-Registered d.store.identity w d reg
  step-Registered h d _ (did_unwrap w path o answer _ at) q reg =
      answer-Registered w path o answer d at reg
  step-Registered h d _ (did_commit w path o _ at) q reg = commit-Registered w o o.unwrapped d reg
  step-Registered h d _ (did_end path failure unlocked _) q reg =
      end-Registered path failure unlocked d reg
  step-Registered h d _ (did_store call w _) q reg = reg
  step-Registered h d _ (did_index index _) q reg = reg
  step-Registered h d _ (did_elsewhere s marker _ same) q reg = reg

  run-Registered :
      (h : Host) (d e : SvcDaemon age) → UnhurriedSteps h d e → Registered d → Registered e
  run-Registered h d _ (no_unhurried_steps _) reg = reg
  run-Registered h d f (then_unhurried _ e _ before step q) reg =
      step-Registered h e f step q (run-Registered h d e before reg)

  started-Registered :
      (s : NativeStore age) (index : Map Bytes SvcItem) (marker : Bool)
      → Registered (started s index marker)
  unfolding Registered started lookup
  started-Registered s index marker path = inl refl

  -- A lock of the daemon lasts. However the critical sections interleave before it, if ids are fresh, no
  -- client leaves the bus while its prompt is shown, and the lock can remove the session file: whatever
  -- critical sections follow, with passphrases that are typed late into a dialog included, the daemon is
  -- locked, as long as no prompt is started after it, no session file is written, and nobody answers the
  -- store itself for a passphrase.
  pub lock_lasts_in_runs :
      (h : Host) (s : NativeStore age) (index : Map Bytes SvcItem) (marker : Bool)
      (w v : SvcWorld age) (d e : SvcDaemon age)
      → UnhurriedSteps h (started s index marker) d
      → w.native.removes session_json_target ≡ true
      → QuietSteps h (lock_daemon w d) e
      → locked v e ≡ (true, e)
  lock_lasts_in_runs h s index marker w v d e run removes quiet =
      lock_lasts h w v d e removes
        (run-Registered h (started s index marker) d run (started-Registered s index marker)) quiet
