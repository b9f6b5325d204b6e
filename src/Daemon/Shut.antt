-- ===== src/Daemon/Shut.antt =====
-- What a lock of the daemon takes away: no goroutine that it has cancelled can unlock the store again.
use oma_seal.Prelude.{
  ℕ, ◌≡◌, refl, sym, ap, ◌∙◌, subst, inl, inr, Bool, true, false, not, Option, none, some, List, [],
  ◌∷◌, arith, leb, Bool-cases, ◌==◌, nat_eq, bytes_eq, length, lookup, remove, insert,
  lookup-insert, lookup-remove, if_cases,
}
use oma_seal.Bytes.{Bytes}
use oma_seal.Errors.{Error, Result, ok, err}
use oma_seal.Native.Crypto.{Age}
use oma_seal.Native.Store.{
  NativeStore, World, Outcome, session_json_target, load_session, unwrap_identity_pass, unwrap_read,
  identity_blob,
}
use oma_seal.Native.Items.{get, delete, set, list}
use oma_seal.Native.Closed.{get-Closed, set-Closed, delete-Closed, list-Closed}
use oma_seal.Native.Unprompted.{Closed, Unattended, load-Closed}
use oma_seal.Daemon.{
  Codec, Session, Op, SvcDaemon, SvcWorld, keys_where, prompt_of, prompt_of_uid, tally,
}
use oma_seal.Daemon.Prompts.{mint_prompt, mint_unless, drive_prompt, dismiss_prompt, finish_prompt}
use oma_seal.Daemon.Lock.{
  lock_daemon, locked, refreshed, has_identity, check_prompt_identity, unwrap_op, unwrap_answer,
  keep_unwrapped, commit_op, commit_unwrapped, end_op,
}
use oma_seal.Daemon.Calls.{Call}
use oma_seal.Daemon.Rows.{Answer}
use oma_seal.Daemon.Methods.{Host, add_session, close_found}
use oma_seal.Daemon.Steps.{
  DaemonStep, StoreCall, store_get, store_write, store_delete, store_list, run_store, did_open,
  did_close, did_mint, did_drive, did_dismiss, did_reap, did_lock, did_suspend, did_check,
  did_unwrap, did_commit, did_end, did_store, did_index, did_elsewhere,
}
use oma_seal.Daemon.Cancelled.{
  op_live, Shut, Registered, lock-Shut, Quiet, finish-Shut, reap-Shut, dismiss-Shut, again-Shut,
  suspend-Shut,
}

module _ {age : Age} where
  -- What `locked` finds in a closed store: nothing to adopt.
  check-Shut : (w : SvcWorld age) (d : SvcDaemon age) → Shut d → locked w d ≡ (true, d)
  unfolding locked load_session check_prompt_identity
  check-Shut w d shut =
      ap (λ o. (not (has_identity (refreshed o w d)), refreshed o w d)) shut.closed.no_identity
      ∙ ap
          (λ (s : NativeStore age).
            (not (has_identity (record d { store = s })), record d { store = s }))
          (load-Closed w.native d.store shut.closed)
      ∙ ap (λ (o : Option age.Identity). (not (elim o [ none ↦ false | some _ ↦ true ]), d))
          shut.closed.no_identity

  unwrapped-Shut :
      (w : SvcWorld age) (path : Bytes) (o : Op age) (d : SvcDaemon age)
      (r : Outcome age.Identity age)
      → lookup path d.running_ops ≡ some o
      → Closed r.1
      → Shut d
      → Shut (keep_unwrapped w path o r d).1
  unfolding lookup insert
  unwrapped-Shut w path o d (err e, s) at closed shut = record {
    closed = closed;
    all_cancelled = shut.all_cancelled;
  }
  unwrapped-Shut w path o d (ok i, s) at closed shut = record {
    closed = closed;
    all_cancelled = λ j.
        ap op_live (lookup-insert j path _ d.running_ops) ∙ elim (Bool-cases (path == j)) [
          | inl e ↦ rw e (ap op_live (sym at) ∙ shut.all_cancelled path)
          | inr e ↦ rw e (shut.all_cancelled j)
        ];
  }

  blob-Closed :
      (r : Result age.Cipher) (pass : Bytes) (s : NativeStore age)
      → Closed s
      → Closed (unwrap_read r pass s).1
  blob-Closed (err e) pass s c = c
  blob-Closed (ok blob) pass s c = record { no_identity = c.no_identity; no_session = c.no_session }

  answer-Shut :
      (w : SvcWorld age) (path : Bytes) (o : Op age) (answer : Option Bytes) (d : SvcDaemon age)
      → lookup path d.running_ops ≡ some o
      → Shut d
      → Shut (unwrap_answer w path o answer d).1
  unfolding unwrap_identity_pass lookup insert
  answer-Shut w path o none d at shut = shut
  answer-Shut w path o (some []) d at shut = shut
  answer-Shut w path o (some (c ∷ pass)) d at shut =
      unwrapped-Shut w path o d _ at
        (blob-Closed (identity_blob d.store) (c ∷ pass) d.store shut.closed) shut

  -- A cancelled goroutine publishes nothing.
  vetoed :
      (w : SvcWorld age) (o : Op age) (u : Option (age.Identity × ℕ)) (d : SvcDaemon age)
      → o.cancelled ≡ true
      → (commit_unwrapped w o u d).1 ≡ d
  vetoed w o none d h = refl
  vetoed w o (some (i, expiry)) d h = rw h refl

  commit-Shut :
      (w : SvcWorld age) (path : Bytes) (o : Op age) (d : SvcDaemon age)
      → lookup path d.running_ops ≡ some o
      → Shut d
      → Shut (commit_op w o d).1
  unfolding commit_op lookup
  commit-Shut w path o d at shut =
      let dead : not o.cancelled ≡ false = ap op_live (sym at) ∙ shut.all_cancelled path in
      subst Shut (sym (vetoed w o o.unwrapped d (ground arith))) shut

  store-Closed :
      (call : StoreCall) (w : World age) (s : NativeStore age)
      → Unattended w
      → Closed s
      → Closed (run_store call w s)
  unfolding get set delete list
  store-Closed (store_get service account) w s quiet c = get-Closed w service account s quiet c
  store-Closed (store_delete service account) w s quiet c =
      delete-Closed w service account s quiet c
  store-Closed (store_write service account secret) w s quiet c =
      set-Closed w service account secret true false s quiet c
  store-Closed store_list w s quiet c = list-Closed w [] s quiet c

  open-Shut :
      (h : Host) (codec : Codec) (c : Call) (uid : ℕ) (path : Bytes) (w : SvcWorld age)
      (d : SvcDaemon age)
      → Shut d
      → Shut (add_session h codec c uid path w d).1
  unfolding tally insert
  open-Shut h codec c uid path w d shut =
      if_cases (λ (r : Answer Bytes age). Shut r.1) (leb 64 _) _ _ (λ _. shut)
        (λ _. record { closed = shut.closed; all_cancelled = shut.all_cancelled })

  close-Shut :
      (found : Option Session) (c : Call) (d : SvcDaemon age)
      → Shut d
      → Shut (close_found found c d).1
  unfolding remove
  close-Shut none c d shut = shut
  close-Shut (some s) c d shut =
      if_cases (λ (r : Answer (Unit {0}) age). Shut r.1) (s.owner == c.sender) _ _
        (λ _. record { closed = shut.closed; all_cancelled = shut.all_cancelled }) (λ _. shut)

  mint-Shut :
      (sender : Bytes) (uid : ℕ) (asked objects : List Bytes) (path : Bytes) (d : SvcDaemon age)
      (found : List Bytes)
      → Shut d
      → Shut (mint_unless found sender uid asked objects path d).1
  unfolding tally insert
  mint-Shut sender uid asked objects path d (other ∷ _) shut = shut
  mint-Shut sender uid asked objects path d [] shut =
      if_cases (λ (r : Option Bytes × SvcDaemon age). Shut r.1) (leb 256 (length d.prompts)) _ _
        (λ _. shut)
        (λ _.
          if_cases (λ (r : Option Bytes × SvcDaemon age). Shut r.1)
            (leb 16 (tally (prompt_of_uid uid) d.prompts)) _ _ (λ _. shut)
            (λ _. record { closed = shut.closed; all_cancelled = shut.all_cancelled }))

  end-Shut :
      (path : Bytes) (failure : Option Error) (unlocked : List Bytes) (d : SvcDaemon age)
      → Shut d
      → Shut (end_op path failure unlocked d)
  unfolding end_op finish_prompt
  end-Shut path failure unlocked d shut =
      finish-Shut path _ _ (record d { running_ops = remove path d.running_ops }) _
        (record {
          closed = shut.closed;
          all_cancelled = λ j.
              ap op_live (lookup-remove j path d.running_ops)
              ∙ if_cases (λ (o : Option (Op age)). op_live o ≡ false) (path == j) _ _ (λ _. refl)
                  (λ _. shut.all_cancelled j);
        })

  step-Shut :
      (h : Host) (d e : SvcDaemon age) (step : DaemonStep h d e) → Quiet step → Shut d → Shut e
  unfolding mint_prompt drive_prompt dismiss_prompt unwrap_op Quiet lookup
  step-Shut h d _ (did_open codec c uid path w _ fresh) q shut =
      open-Shut h codec c uid path w d shut
  step-Shut h d _ (did_close c _) q shut = close-Shut (lookup c.path d.sessions) c d shut
  step-Shut h d _ (did_mint sender uid asked objects path _ fresh) q shut =
      mint-Shut sender uid asked objects path d (keys_where (prompt_of sender) d.prompts) shut
  step-Shut h d _ (did_drive path sender _) q shut = absurd q
  step-Shut h d _ (did_dismiss path sender _) q shut =
      dismiss-Shut (lookup path d.prompts) path sender d shut
  step-Shut h d _ (did_reap name _) q shut = reap-Shut name d shut
  step-Shut h d _ (did_lock w _) q shut = again-Shut w d shut
  step-Shut h d _ (did_suspend w _) q shut = suspend-Shut w d shut
  step-Shut h d _ (did_check w _) q shut =
      subst Shut (sym (ap (λ (r : Bool × SvcDaemon age). r.1) (check-Shut w d shut))) shut
  step-Shut h d _ (did_unwrap w path o answer _ at) q shut = answer-Shut w path o answer d at shut
  step-Shut h d _ (did_commit w path o _ at) q shut = commit-Shut w path o d at shut
  step-Shut h d _ (did_end path failure unlocked _) q shut = end-Shut path failure unlocked d shut
  step-Shut h d _ (did_store call w _) q shut = record {
    closed = store-Closed call w.native d.store q shut.closed;
    all_cancelled = shut.all_cancelled;
  }
  step-Shut h d _ (did_index index _) q shut = record {
    closed = shut.closed;
    all_cancelled = shut.all_cancelled;
  }
  step-Shut h d _ (did_elsewhere s marker _ same) q shut = record {
    closed = record { no_identity = same ∙ shut.closed.no_identity; no_session = q };
    all_cancelled = shut.all_cancelled;
  }

  pub data QuietSteps (h : Host) : SvcDaemon age → SvcDaemon age → Type 0 where
    no_quiet_steps : (d : SvcDaemon age) → QuietSteps h d d
    then_quiet :
        (d e f : SvcDaemon age)
        → QuietSteps h d e
        → (step : DaemonStep h e f) → Quiet step
        → QuietSteps h d f

  run-Shut : (h : Host) (d e : SvcDaemon age) → QuietSteps h d e → Shut d → Shut e
  run-Shut h d _ (no_quiet_steps _) shut = shut
  run-Shut h d f (then_quiet _ e _ before step q) shut =
      step-Shut h e f step q (run-Shut h d e before shut)

  -- A lock of the daemon lasts: if the session file could be removed, and every goroutine that is not
  -- cancelled is that of a prompt that is still there, then whatever critical sections follow, with
  -- passphrases that are typed late included, the daemon is locked, as long as no prompt is started
  -- after it, no session file is written, and nobody answers the store itself for a passphrase.
  pub lock_lasts :
      (h : Host) (w v : SvcWorld age) (d e : SvcDaemon age)
      → w.native.removes session_json_target ≡ true
      → Registered d
      → QuietSteps h (lock_daemon w d) e
      → locked v e ≡ (true, e)
  lock_lasts h w v d e removes registered run =
      check-Shut v e (run-Shut h (lock_daemon w d) e run (lock-Shut w d removes registered))
